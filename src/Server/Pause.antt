-- ===== src/Server/Pause.antt =====
-- An interval of 0 or less in RabbitholeServerTransporter.cpp: what it stops, and what it does not.
use rcp_flext.Prelude.{
  ℕ, ◌+◌, ◌≡◌, refl, Bool, true, false, ℤ, pos, ltb_ℤ, leb_ℤ, Text, text, has_prefix, List, [], ◌∷◌,
  ◌++◌, map, some, arith, ◌∙◌, Bool-cases, inl, inr,
}
use rcp_flext.WsClient.Defs.{WsClient, connect, disconnect, is_no_uri}
use rcp_flext.Server.Rabbithole.{
  Rabbithole, Ask, set_interval, try_connect, happen, happen_all, sets_interval, failed,
  disconnected,
}
use rcp_flext.Server.Reconnect.{
  End, failing, closing, to_event, reconnects, one_reconnect, total-append,
}
use rcp_flext.Server.Tunnel.{Tunnel, World, serve, serve_all, move, timer_fires}
use rcp_flext.Server.Tunnel as Tunnels
use rcp_flext.Server.Flapping.{fire}

-- An event that asks for no connection and leaves the interval.
record IsQuiet (r : Rabbithole) (e : Rabbithole × List Ask) : Type 0 where
  no_reconnect : reconnects e.1 ≡ 0
  same_interval : e.0.interval ≡ r.interval

ends-IsQuiet :
    (r : Rabbithole) (e : End) → leb_ℤ r.interval (pos 0) ≡ true → IsQuiet r (happen r (to_event e))
unfolding happen failed disconnected try_connect
ends-IsQuiet r (failing code) h = record {
  no_reconnect = ground arith;
  same_interval = ground arith;
}
ends-IsQuiet r (closing code) h = record {
  no_reconnect = ground arith;
  same_interval = ground arith;
}

resumed :
    (r : Rabbithole) (j : ℤ) → leb_ℤ r.interval (pos 0) ≡ true → reconnects (set_interval r j).1 ≡ 0
unfolding set_interval try_connect
resumed r j h = ground arith

stopped : (r : Rabbithole) (i : ℤ) → leb_ℤ i (pos 0) ≡ true → reconnects (set_interval r i).1 ≡ 0
unfolding set_interval try_connect
stopped r i h = ground arith

then_resumed :
    (r : Rabbithole) (es : List End) (j : ℤ)
    → leb_ℤ r.interval (pos 0) ≡ true
    → reconnects (happen_all r (map to_event es ++ sets_interval j ∷ [])).1 ≡ 0
unfolding happen_all happen
then_resumed r [] j h =
    total-append one_reconnect (set_interval r j).1 [] ∙ (omega (arith, resumed r j h))
then_resumed r (e ∷ es) j h =
    let q = ends-IsQuiet r e h in
    let r' = (happen r (to_event e)).0 in
    total-append one_reconnect (happen r (to_event e)).1
      (happen_all r' (map to_event es ++ sets_interval j ∷ [])).1
    ∙ omega (arith, q.no_reconnect, then_resumed r' es j (rw q.same_interval h))

-- If the interval is set to 0 or less, connections then fail or close, in any number and order,
-- and the interval is set again, to any number, then no connection is asked for, at once or by
-- the timer.
pub resume-asks_nothing :
    (r : Rabbithole) (i j : ℤ) (es : List End)
    → leb_ℤ i (pos 0) ≡ true
    → reconnects (happen_all r (sets_interval i ∷ (map to_event es ++ sets_interval j ∷ []))).1 ≡ 0
unfolding happen_all happen
resume-asks_nothing r i j es h =
    let r' : Rabbithole = record r { interval = i } in
    total-append one_reconnect (set_interval r i).1
      (happen_all r' (map to_event es ++ sets_interval j ∷ [])).1
    ∙ omega (arith, stopped r i h, then_resumed r' es j h)

made_anyway :
    (uri : Text) (is_open : ℕ → Bool) (c : WsClient)
    → has_prefix (text "ws") uri ≡ true
    → is_no_uri uri ≡ false
    → (connect is_open (record { has_ssl = true; is_made = true }) uri c).made ≡ c.made + 1
unfolding connect disconnect
made_anyway uri is_open c w u = ground arith

not-positive : (i : ℤ) → leb_ℤ i (pos 0) ≡ true → ltb_ℤ (pos 0) i ≡ false
not-positive i h = ground arith

set_to_zero :
    (r : Rabbithole) (i : ℤ)
    → leb_ℤ i (pos 0) ≡ true
    → set_interval r i ≡ (record r { interval = i }, Ask.disconnect ∷ [])
unfolding set_interval try_connect
set_to_zero r i h = elim (Bool-cases (ltb_ℤ (pos 0) r.interval)) [
  | inl b ↦ rw (b, not-positive i h, h) refl
  | inr b ↦ rw (b, h) refl
]

-- The connection is given up, and the timer goes on.
abbrev paused : (is_open : ℕ → Bool) → Tunnel → ℤ → Tunnel
paused is_open t i = record t {
  hole = record t.hole { interval = i };
  client = disconnect is_open t.client;
}

move-paused :
    (w : World) (t : Tunnel) (i : ℤ)
    → leb_ℤ i (pos 0) ≡ true
    → move w t (Tunnels.sets_interval i) ≡ paused w.is_open t i
unfolding move serve_all serve
move-paused w t i h = rw (move, set_to_zero t.hole i h) refl

-- If the interval is set to 0 or less while the timer runs, and the timer then fires, one more
-- connection is made, and the interval is still the one that was set. Given an address that
-- starts with "ws", TLS, and that websocketpp makes the connection.
pub sets_interval-timer_fires :
    (t : Tunnel) (is_open : ℕ → Bool) (i j : ℤ)
    → t.timer ≡ some j
    → has_prefix (text "ws") t.hole.uri ≡ true
    → is_no_uri t.hole.uri ≡ false
    → leb_ℤ i (pos 0) ≡ true
    → let w : World = record {
      is_open = is_open;
      setup = record { has_ssl = true; is_made = true };
    } in
      let t' = move w (move w t (Tunnels.sets_interval i)) timer_fires in
      (t'.client.made ≡ t.client.made + 1) × (t'.hole.interval ≡ i)
unfolding disconnect
sets_interval-timer_fires t is_open i j e ws u h =
    let w : World = record {
      is_open = is_open;
      setup = record { has_ssl = true; is_made = true };
    } in
    rw (move-paused w t i h, fire w (paused is_open t i) j e u)
      (made_anyway t.hole.uri is_open (disconnect is_open t.client) ws u, refl)
