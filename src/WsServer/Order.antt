-- ===== src/WsServer/Order.antt =====
-- Network events and rounds of the service thread, in any order.
use rcp_flext.Prelude.{
  ℕ, ◌≡◌, refl, Bool, true, false, List, [], ◌∷◌, ◌++◌, if◌then◌else◌, Bool-cases, inl, inr,
}
use rcp_flext.WsServer.Sets.{insert, erase}
use rcp_flext.WsServer.Defs.{
  Message, Action, subscribe, unsubscribe, message, Callback, WsServer, push, on_open, on_close,
  on_message, perform, take_front, process_round,
}

-- What happens next: the network thread reports, or the service thread makes a round, in which a
-- handle can be locked or not.
pub data Event : Type 0 where
  opens : ℕ → Event
  closes : ℕ → Event
  sends : ℕ → Message → Event
  round : Bool → Event

unfoldable pub happen : WsServer → Event → WsServer × List Callback
unfolding on_open on_close on_message process_round
happen s (opens h) = (on_open s h, [])
happen s (closes h) = (on_close s h, [])
happen s (sends h msg) = (on_message s h msg, [])
happen s (round alive) = process_round s alive

unfoldable pub happen_all : WsServer → List Event → WsServer × List Callback
unfolding happen
happen_all s [] = (s, [])
happen_all s (e ∷ es) =
    let (s', calls) = happen s e in let (s'', more) = happen_all s' es in (s'', calls ++ more)

-- The set that the connections come to when the queue has been worked off.
abbrev pub effect : List ℕ → Action → List ℕ
effect conns (subscribe h) = insert h conns
effect conns (unsubscribe h) = erase h conns
effect conns (message h msg) = conns

abbrev pub effects : List ℕ → List Action → List ℕ
effects conns [] = conns
effects conns (a ∷ rest) = effects (effect conns a) rest

-- The actions that events put into the queue, in the order of the events.
abbrev pub arrivals : List Event → List Action
arrivals [] = []
arrivals (opens h ∷ es) = subscribe h ∷ arrivals es
arrivals (closes h ∷ es) = unsubscribe h ∷ arrivals es
arrivals (sends h msg ∷ es) = message h msg ∷ arrivals es
arrivals (round alive ∷ es) = arrivals es

pub effects-append :
    (conns : List ℕ) (xs ys : List Action)
    → effects conns (xs ++ ys) ≡ effects (effects conns xs) ys
effects-append conns [] ys = refl
effects-append conns (a ∷ xs) ys = effects-append (effect conns a) xs ys

abbrev pub settled : WsServer → List ℕ
settled s = effects s.connections s.actions

settled-take_front :
    (s : WsServer) (queue : List Action) (alive : Bool)
    → queue ≡ s.actions
    → settled (take_front s queue alive).0 ≡ settled s
unfolding take_front perform
settled-take_front s [] alive e = refl
settled-take_front s (subscribe h ∷ rest) alive e = rw (← e)
settled-take_front s (unsubscribe h ∷ rest) alive e = rw (← e)
settled-take_front s (message h msg ∷ rest) alive e = elim (Bool-cases msg.is_binary) [
  | inl b ↦ rw (b, ← e)
  | inr b ↦ rw (b, ← e)
]

settled-push : (s : WsServer) (a : Action) → settled (push s a) ≡ effect (settled s) a
unfolding push
settled-push s a = effects-append s.connections s.actions (a ∷ [])

settled-round :
    (s : WsServer) (alive b : Bool)
    → settled (if b then take_front s s.actions alive else (s, [])).0 ≡ settled s
settled-round s alive true = settled-take_front s s.actions alive refl
settled-round s alive false = refl

settled-happen :
    (s : WsServer) (e : Event) → settled (happen s e).0 ≡ effects (settled s) (arrivals (e ∷ []))
unfolding happen on_open on_close on_message process_round
settled-happen s (opens h) = settled-push s (subscribe h)
settled-happen s (closes h) = settled-push s (unsubscribe h)
settled-happen s (sends h msg) = settled-push s (message h msg)
settled-happen s (round alive) = settled-round s alive s.run_flag

pub arrivals-cons :
    (e : Event) (es : List Event) → arrivals (e ∷ es) ≡ arrivals (e ∷ []) ++ arrivals es
arrivals-cons (opens h) es = refl
arrivals-cons (closes h) es = refl
arrivals-cons (sends h msg) es = refl
arrivals-cons (round alive) es = refl

-- In whatever order the events of the network and the rounds of the service thread come, the
-- connections to which the queue leads are those to which the events of the network lead alone,
-- in their order.
pub settled-happen_all :
    (s : WsServer) (es : List Event)
    → settled (happen_all s es).0 ≡ effects (settled s) (arrivals es)
unfolding happen_all
settled-happen_all s [] = refl
settled-happen_all s (e ∷ es) =
    rw
      (settled-happen_all (happen s e).0 es, settled-happen s e, arrivals-cons e es, effects-append)
