-- ===== src/Server/Flapping.antt =====
-- A connection that RabbitholeServerTransporter.cpp gave up is reported closed later on, and the timer
-- that is started then gives up the connection in use.
use rcp_flext.Prelude.{
  ℕ, zero, suc, ◌+◌, ◌≡◌, refl, true, false, ℤ, Text, text, has_prefix, [], ◌∷◌, none, some, ◌==◌,
  ◌⊎◌, inl, inr, arith, Bool-cases, length, ◌&&◌, ap, ◌∙◌, subst, sym,
}
use rcp_flext.WsClient.Defs.{
  WsClient, disconnect, connect, opened, closed, handle, is_no_uri, code_of,
}
use rcp_flext.WsServer.Sets.{mem}
use rcp_flext.Server.Rabbithole.{
  Rabbithole, Ask, connect_to, reset_timer, delay, try_connect_timer_timeout, try_connect, contains,
  rewrite_uri,
}
use rcp_flext.Server.Rabbithole as Hole
use rcp_flext.Server.Reconnect.{Persists}
use rcp_flext.Server.Tunnel.{Tunnel, World, serve, serve_all, listen_to, move, reports, timer_fires}

-- The connection `n` is the one in use.
abbrev pub Holds : WsClient → ℕ → Type 0
Holds c n = ((c.con ≡ some n) × (c.ssl_con ≡ none)) ⊎ ((c.con ≡ none) × (c.ssl_con ≡ some n))

-- websocketpp makes every connection, and only `n` is open.
abbrev pub only_open : ℕ → World
only_open n = record { is_open = λ k. k == n; setup = record { has_ssl = true; is_made = true } }

pub connect_again :
    (uri : Text) (c : WsClient) (n : ℕ)
    → has_prefix (text "ws") uri ≡ true
    → is_no_uri uri ≡ false
    → Holds c n
    → let c' = connect (λ k. k == n) (record { has_ssl = true; is_made = true }) uri c in
      Holds c' c.made × (c'.made ≡ c.made + 1) × (c'.closing ≡ n ∷ c.closing)
unfolding connect disconnect
connect_again uri c n w u (inl (p, s)) = ground arith
connect_again uri c n w u (inr (p, s)) = ground arith

hole-disconnected :
    (r : Rabbithole) (code : ℕ)
    → Persists r
    → ((Hole.disconnected r code).0 ≡ r)
      × ((w : World) (t : Tunnel)
          → serve_all w t (Hole.disconnected r code).1 ≡ record t { timer = some r.interval })
unfolding Hole.disconnected try_connect serve_all serve
hole-disconnected r code (try, positive, addressed) =
    elim (Bool-cases ((code == 4500) && contains (text "/public/rcpserver/connect") r.uri)) [
      | inl b ↦ rw (b, try, positive, addressed) (refl, λ w t. refl)
      | inr b ↦ rw (b, try, positive, addressed) (refl, λ w t. refl)
    ]

-- A late report of a closed connection starts the timer, and changes nothing else.
late_close :
    (w : World) (t : Tunnel) (a code : ℕ)
    → Persists t.hole
    → move w t (reports (closed a code)) ≡ record t { timer = some t.hole.interval }
unfolding move listen_to handle
late_close w t a code h =
    let (same, asks) = hole-disconnected t.hole (code_of t.client a code) h in rw same (asks w t)

timeout-connect :
    (r : Rabbithole)
    → is_no_uri r.uri ≡ false
    → try_connect_timer_timeout r ≡ (r, connect_to r.uri ∷ [])
unfolding try_connect_timer_timeout
timeout-connect r u = rw u

pub fire :
    (w : World) (t : Tunnel) (i : ℤ)
    → t.timer ≡ some i
    → is_no_uri t.hole.uri ≡ false
    → move w t timer_fires
      ≡ record t { timer = none; client = connect w.is_open w.setup t.hole.uri t.client }
unfolding move serve_all serve
fire w t i e u = rw (move, e, timeout-connect t.hole u)

-- A new connection that opens changes no more than the flag for messages.
open_lem :
    (w : World) (t : Tunnel) (n : ℕ)
    → let t' = move w t (reports (opened n)) in
      (t'.client ≡ t.client) × (Persists t.hole → Persists t'.hole) × (t'.hole.uri ≡ t.hole.uri)
unfolding move listen_to handle serve_all Hole.connected
open_lem w t n = elim (Bool-cases (mem n t.client.deaf)) [
  | inl d ↦ rw d (refl, (λ h. h), refl)
  | inr d ↦ rw d (refl, (λ h. h), refl)
]

-- The connection `a` was given up and is reported closed, the timer fires, and the new connection,
-- which has the next number, opens.
unfoldable pub round : Tunnel → ℕ → ℕ → Tunnel
unfolding move
round t a b =
    let t1 = move (only_open b) t (reports (closed a 1000)) in
    let t2 = move (only_open b) t1 timer_fires in
    move (only_open b) t2 (reports (opened t.client.made))

-- As many rounds; the connection that one round gives up is reported closed in the next.
unfoldable pub rounds : ℕ → Tunnel → ℕ → ℕ → Tunnel
unfolding round
rounds zero t a b = t
rounds (suc n) t a b = rounds n (round t a b) b t.client.made

-- What a round that starts in `t` with the connection `b` comes to.
pub record IsReplaced (t t' : Tunnel) (b : ℕ) : Type 0 where
  pub persists : Persists t'.hole
  pub is_ws : has_prefix (text "ws") t'.hole.uri ≡ true
  pub holds_new : Holds t'.client t.client.made
  pub one_made : t'.client.made ≡ t.client.made + 1
  pub old_closing : t'.client.closing ≡ b ∷ t.client.closing

after_open :
    (w : World) (t t' : Tunnel) (b n : ℕ)
    → IsReplaced t t' b
    → IsReplaced t (move w t' (reports (opened n))) b
after_open w t t' b n k =
    let (same, persists, uri) = open_lem w t' n in
    record {
      persists = persists k.persists;
      is_ws = rw uri k.is_ws;
      holds_new = rw same k.holds_new;
      one_made = rw same k.one_made;
      old_closing = rw same k.old_closing;
    }

round-IsReplaced :
    (t : Tunnel) (a b : ℕ)
    → Persists t.hole
    → has_prefix (text "ws") t.hole.uri ≡ true
    → Holds t.client b
    → IsReplaced t (round t a b) b
unfolding round
round-IsReplaced t a b p w h =
    let t1 : Tunnel = record t { timer = some t.hole.interval } in
    let e1 = late_close (only_open b) t a 1000 p in
    let e2 = fire (only_open b) t1 t.hole.interval refl p.2 in
    let (held, one, closing) = connect_again t.hole.uri t.client b w p.2 h in
    let fired = ap (λ u. move (only_open b) u timer_fires) e1 ∙ e2 in
    let again =
      connect (λ k. k == b) (record { has_ssl = true; is_made = true }) t.hole.uri t.client in
    let t2 : Tunnel = record t { timer = none; client = again } in
    let k : IsReplaced t t2 b = record {
      persists = p;
      is_ws = w;
      holds_new = held;
      one_made = one;
      old_closing = closing;
    } in
    after_open (only_open b) t
      (move (only_open b) (move (only_open b) t (reports (closed a 1000))) timer_fires) b
      t.client.made (subst (λ t'. IsReplaced t t' b) (sym fired) k)

rounds-flapping :
    (n : ℕ) (t : Tunnel) (a b : ℕ)
    → Persists t.hole
    → has_prefix (text "ws") t.hole.uri ≡ true
    → Holds t.client b
    → let t' = rounds n t a b in
      (t'.client.made ≡ t.client.made + n)
      × (length t'.client.closing ≡ length t.client.closing + n)
      × Persists t'.hole
unfolding rounds
rounds-flapping zero t a b p w h = (omega arith, omega arith, p)
rounds-flapping (suc n) t a b p w h =
    let k = round-IsReplaced t a b p w h in
    let (made, closing, persists) =
      rounds-flapping n (round t a b) b t.client.made k.persists k.is_ws k.holds_new in
    (omega (arith, made, k.one_made), omega (arith, closing, ap length k.old_closing), persists)

-- Once a connection was replaced, and then in each of n rounds: as many more are made, and as many open
-- ones are asked to close.
abbrev pub Flaps : ℕ → Tunnel → Tunnel → Type 0
Flaps n t t' =
    (t'.client.made ≡ t.client.made + 1 + n)
    × (length t'.client.closing ≡ length t.client.closing + 1 + n)
    × Persists t'.hole

pub replaced-Flaps :
    (n : ℕ) (t t1 : Tunnel) (b : ℕ) → IsReplaced t t1 b → Flaps n t (rounds n t1 b t.client.made)
replaced-Flaps n t t1 b k =
    let (made, closing, persists) =
      rounds-flapping n t1 b t.client.made k.persists k.is_ws k.holds_new in
    (omega (arith, made, k.one_made), omega (arith, closing, ap length k.old_closing), persists)
