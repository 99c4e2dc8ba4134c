-- ===== src/WsServer/Members.antt =====
-- websocketServer.h and WebsocketServerTransporter.cpp: who is in the set of connections after a
-- history, and who gets what is sent to all.
use rcp_flext.Prelude.{
  ℕ, ◌≡◌, refl, Bool, true, false, not, ◌&&◌, ◌||◌, List, [], ◌∷◌, ◌++◌, Option, none, some, ◌==◌,
  if◌then◌else◌, arith, ◌∙◌, ap,
}
use rcp_flext.WsServer.Sets.{
  mem, insert, erase, Unique, mem-insert, Unique-insert, mem-erase, Unique-erase,
}
use rcp_flext.WsServer.Defs.{
  Action, subscribe, unsubscribe, message, WsServer, new_server, run, send_to_all, send_to_one,
}
use rcp_flext.WsServer.Order.{Event, happen_all, effect, effects, arrivals}
use rcp_flext.WsServer.Fifo.{happen_all-Run}
use rcp_flext.WsServer.Send.{
  Reaches, Reaches-same, wanted, named, send_to_all-Reaches, send_to_one-Reaches,
}

-- What the last action about a connection makes of it, if there is one.
abbrev pub latest : ℕ → List Action → Option Bool
latest k [] = none
latest k (subscribe h ∷ rest) = elim (latest k rest) [
  | some b ↦ some b
  | none ↦ if h == k then some true else none
]
latest k (unsubscribe h ∷ rest) = elim (latest k rest) [
  | some b ↦ some b
  | none ↦ if h == k then some false else none
]
latest k (message h msg ∷ rest) = latest k rest

abbrev pub or_before : Option Bool → Bool → Bool
or_before none b = b
or_before (some c) b = c

Unique-effect : (conns : List ℕ) (a : Action) → Unique conns → Unique (effect conns a)
Unique-effect conns (subscribe h) u = Unique-insert h conns u
Unique-effect conns (unsubscribe h) u = Unique-erase h conns u
Unique-effect conns (message h msg) u = u

Unique-effects : (conns : List ℕ) (acts : List Action) → Unique conns → Unique (effects conns acts)
Unique-effects conns [] u = u
Unique-effects conns (a ∷ acts) u = Unique-effects (effect conns a) acts (Unique-effect conns a u)

came_last :
    (later : Option Bool) (same now : Bool)
    → or_before later (same || now)
      ≡ or_before (elim later [ some b ↦ some b | none ↦ if same then some true else none ]) now
came_last later same now = ground arith

went_last :
    (later : Option Bool) (same now : Bool)
    → or_before later (not same && now)
      ≡ or_before (elim later [ some b ↦ some b | none ↦ if same then some false else none ]) now
went_last later same now = ground arith

mem-effects :
    (k : ℕ) (conns : List ℕ) (acts : List Action)
    → Unique conns
    → mem k (effects conns acts) ≡ or_before (latest k acts) (mem k conns)
mem-effects k conns [] u = refl
mem-effects k conns (subscribe h ∷ acts) u =
    mem-effects k (insert h conns) acts (Unique-insert h conns u)
    ∙ ap (or_before (latest k acts)) (mem-insert k h conns)
    ∙ came_last (latest k acts) (h == k) (mem k conns)
mem-effects k conns (unsubscribe h ∷ acts) u =
    mem-effects k (erase h conns) acts (Unique-erase h conns u)
    ∙ ap (or_before (latest k acts)) (mem-erase k h conns u)
    ∙ went_last (latest k acts) (h == k) (mem k conns)
mem-effects k conns (message h msg ∷ acts) u = mem-effects k conns acts u

-- What comes of sending, by the actions that were worked off.
pub record IsSent (acts : List Action) (lock is_open : ℕ → Bool) (s : WsServer) (exclude : Option ℕ)
    : Type 0 where
  pub to_all :
      Reaches
        (λ k. s.is_listening && (or_before (latest k acts) false && wanted is_open lock exclude k))
        is_open
        (send_to_all lock is_open s exclude)
  pub to_one :
      (id : ℕ)
      → Reaches
          (λ k. s.is_listening && (or_before (latest k acts) false && named is_open lock id k))
          is_open
          (send_to_one lock is_open s (some id))

-- After `run` on a new server and any events of the network and rounds of the service thread, in
-- any order, the actions that came out of the queue are the first of those that the events put
-- in. Data sent to all is for the connections whose last action among these is their opening,
-- which can be locked, and are not the excluded one; data sent to one is for it, if its last
-- action is its opening, and it can be locked; and for nobody unless the server listens. Of
-- those, nobody gets the data twice, and only those do that are open. If no call throws, all get
-- it; a call throws exactly if one of them is not open.
pub happen_all-IsSent :
    (port : ℕ) (bound : Bool) (es : List Event) (lock is_open : ℕ → Bool) (exclude : Option ℕ)
    → let s = (happen_all (run new_server port bound) es).0 in
      (acts : List Action) × (arrivals es ≡ acts ++ s.actions) × IsSent acts lock is_open s exclude
unfolding run mem
happen_all-IsSent port bound es lock is_open exclude =
    let r = happen_all-Run (run new_server port bound) es in
    let s = (happen_all (run new_server port bound) es).0 in
    let unique : Unique s.connections = rw r.settles (Unique-effects [] r.worked_off tt) in
    let last : (k : ℕ) → mem k s.connections ≡ or_before (latest k r.worked_off) false =
      λ k. rw r.settles (mem-effects k [] r.worked_off tt) in
    (
      r.worked_off,
      r.in_order,
      record {
        to_all =
            Reaches-same _ _ is_open _
              (λ k. ap (λ b. s.is_listening && (b && wanted is_open lock exclude k)) (last k))
              (send_to_all-Reaches is_open lock s exclude unique);
        to_one = λ id.
            Reaches-same _ _ is_open _
              (λ k. ap (λ b. s.is_listening && (b && named is_open lock id k)) (last k))
              (send_to_one-Reaches is_open lock s id unique);
      },
    )
