-- ===== src/Server/Triggers.antt =====
-- What makes the transporter of RabbitholeServerTransporter.cpp replace a connection in use: an address,
-- and a new interval; and what an interval of 0 stops.
use rcp_flext.Prelude.{
  ℕ, ◌≡◌, refl, true, false, ℤ, pos, ltb_ℤ, leb_ℤ, Text, text, has_prefix, [], ◌∷◌, some, arith,
}
use rcp_flext.WsClient.Defs.{is_no_uri}
use rcp_flext.Server.Rabbithole.{
  Rabbithole, Ask, delay, rewrite_uri, set_interval, try_connect, is_empty, Event, happen_all,
  sets_interval, failed, disconnected,
}
use rcp_flext.Server.Rabbithole as Hole
use rcp_flext.Server.Reconnect.{Persists}
use rcp_flext.Server.Tunnel.{Tunnel, World, serve, serve_all, move, connects, timer_fires}
use rcp_flext.Server.Tunnel as Tunnels
use rcp_flext.Server.Flapping.{
  Holds, only_open, connect_again, fire, rounds, IsReplaced, Flaps, replaced-Flaps,
}

ws-is_no_uri : (uri : Text) → has_prefix (text "ws") uri ≡ true → is_no_uri uri ≡ false
unfolding has_prefix text
ws-is_no_uri [] h = cc
ws-is_no_uri (c ∷ uri) h = refl

-- A message with an address while the connection `b` is in use.
start-IsReplaced :
    (t : Tunnel) (b : ℕ) (uri : Text)
    → ltb_ℤ (pos 0) t.hole.interval ≡ true
    → has_prefix (text "ws") (rewrite_uri uri) ≡ true
    → Holds t.client b
    → IsReplaced t (move (only_open b) t (connects uri)) b
unfolding move Hole.connect serve_all serve
start-IsReplaced t b uri positive w h =
    let u = ws-is_no_uri (rewrite_uri uri) w in
    let (held, one, asked) = connect_again (rewrite_uri uri) t.client b w u h in
    rw (move, w)
      (record {
        persists = (refl, positive, u);
        is_ws = w;
        holds_new = held;
        one_made = one;
        old_closing = asked;
      })

-- If an address is set while a connection is in use, and from then on the connection given up is
-- reported closed, the timer fires and the new connection opens, in turn n times, then n + 1 more
-- connections are made and as many open ones are asked to close, and the transporter goes on
-- trying. Given a positive interval, an address that is rewritten to one that starts with "ws",
-- TLS, and that websocketpp makes every connection and says that the one in use is open.
pub connects-flapping :
    (n : ℕ) (t : Tunnel) (b : ℕ) (uri : Text)
    → ltb_ℤ (pos 0) t.hole.interval ≡ true
    → has_prefix (text "ws") (rewrite_uri uri) ≡ true
    → Holds t.client b
    → Flaps n t (rounds n (move (only_open b) t (connects uri)) b t.client.made)
connects-flapping n t b uri positive w h =
    replaced-Flaps n t (move (only_open b) t (connects uri)) b
      (start-IsReplaced t b uri positive w h)

positive-leb : (i : ℤ) → ltb_ℤ (pos 0) i ≡ true → leb_ℤ i (pos 0) ≡ false
positive-leb i h = ground arith

-- A positive interval in place of another starts the timer.
set_interval-positive :
    (r : Rabbithole) (i : ℤ)
    → Persists r
    → ltb_ℤ (pos 0) i ≡ true
    → set_interval r i ≡ (record r { interval = i }, delay i ∷ [])
unfolding set_interval try_connect
set_interval-positive r i (try, positive, addressed) new =
    rw (positive, new, addressed, positive-leb i new) refl

set_positive :
    (w : World) (t : Tunnel) (i : ℤ)
    → Persists t.hole
    → ltb_ℤ (pos 0) i ≡ true
    → move w t (Tunnels.sets_interval i)
      ≡ record t { hole = record t.hole { interval = i }; timer = some i }
unfolding move serve_all serve
set_positive w t i p new = rw (move, set_interval-positive t.hole i p new) refl

-- The timer fires while the connection `b` is in use.
fired-IsReplaced :
    (t : Tunnel) (b : ℕ) (i : ℤ)
    → t.timer ≡ some i
    → Persists t.hole
    → has_prefix (text "ws") t.hole.uri ≡ true
    → Holds t.client b
    → IsReplaced t (move (only_open b) t timer_fires) b
fired-IsReplaced t b i e p w h =
    let (held, one, asked) = connect_again t.hole.uri t.client b w p.2 h in
    rw (fire (only_open b) t i e p.2)
      (record { persists = p; is_ws = w; holds_new = held; one_made = one; old_closing = asked })

-- If a positive interval takes the place of another while a connection is in use, and then the
-- timer fires, and from then on the connection given up is reported closed, the timer fires and
-- the new connection opens, in turn n times, then n + 1 more connections are made and as many
-- open ones are asked to close, and the transporter goes on trying. Given an address that starts
-- with "ws", TLS, and that websocketpp makes every connection and says that the one in use is
-- open.
pub sets_interval-flapping :
    (n : ℕ) (t : Tunnel) (b : ℕ) (i : ℤ)
    → Persists t.hole
    → has_prefix (text "ws") t.hole.uri ≡ true
    → ltb_ℤ (pos 0) i ≡ true
    → Holds t.client b
    → let t1 = move (only_open b) t (Tunnels.sets_interval i) in
      Flaps n t (rounds n (move (only_open b) t1 timer_fires) b t.client.made)
sets_interval-flapping n t b i p w new h =
    let t1 : Tunnel = record t { hole = record t.hole { interval = i }; timer = some i } in
    let k = fired-IsReplaced t1 b i refl (p.0, new, p.2) w h in
    rw (set_positive (only_open b) t i p new)
      (replaced-Flaps n t1 (move (only_open b) t1 timer_fires) b k)
