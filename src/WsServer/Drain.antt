-- ===== src/WsServer/Drain.antt =====
-- websocketServer.h: rounds of the service thread, one after the other.
use rcp_flext.Prelude.{
  ℕ, zero, suc, ◌≤◌, ◌≡◌, refl, Bool, true, List, [], ◌∷◌, length, if◌then◌else◌, Bool-cases, inl,
  inr, arith, ◌∙◌,
}
use rcp_flext.WsServer.Defs.{
  Action, subscribe, unsubscribe, message, WsServer, perform, take_front, process_round,
}
use rcp_flext.WsServer.Order.{Event, round, happen, happen_all}

-- Rounds, in which every connection is there.
abbrev pub rounds : ℕ → List Event
rounds zero = []
rounds (suc n) = round true ∷ rounds n

take_front-shorter :
    (s : WsServer) (queue : List Action) (n : ℕ)
    → queue ≡ s.actions
    → length queue ≤ suc n
    → (length (take_front s queue true).0.actions ≤ n)
      × ((take_front s queue true).0.run_flag ≡ s.run_flag)
unfolding take_front perform
take_front-shorter s [] n e h = (rw (← e) (omega arith), refl)
take_front-shorter s (subscribe k ∷ rest) n e h = (omega arith, refl)
take_front-shorter s (unsubscribe k ∷ rest) n e h = (omega arith, refl)
take_front-shorter s (message k msg ∷ rest) n e h = elim (Bool-cases msg.is_binary) [
  | inl b ↦ rw b (omega arith, refl)
  | inr b ↦ rw b (omega arith, refl)
]

no_actions : (l : List Action) → length l ≤ 0 → l ≡ []
no_actions [] h = refl
no_actions (a ∷ l) h = absurd (omega arith)

if_true : {A : Type 0} (b : Bool) (x y : A) → b ≡ true → (if b then x else y) ≡ x
if_true b x y e = rw e refl

running : (s : WsServer) → s.run_flag ≡ true → happen s (round true) ≡ take_front s s.actions true
unfolding happen process_round
running s e = if_true s.run_flag (take_front s s.actions true) (s, []) e

-- As many rounds of the service thread as there are actions in the queue, or more, empty it,
-- while the server runs.
pub rounds-drain :
    (n : ℕ) (s : WsServer)
    → s.run_flag ≡ true
    → length s.actions ≤ n
    → (happen_all s (rounds n)).0.actions ≡ []
unfolding happen_all
rounds-drain zero s run h = no_actions s.actions h
rounds-drain (suc n) s run h =
    let (shorter, same) = take_front-shorter s s.actions n refl h in
    rw (happen_all, running s run)
      (rounds-drain n (take_front s s.actions true).0 (same ∙ run) shorter)
