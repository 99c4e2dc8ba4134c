-- ===== src/Tests/Queue.antt =====
-- The queue of the websocket server on concrete events.
use rcp_flext.Prelude.{◌≡◌, true, false, List, [], ◌∷◌, ◌++◌, none, ◌==◌}
use rcp_flext.WsServer.Defs.{Message, Action, run, new_server}
use rcp_flext.WsServer.Order.{Event, opens, closes, sends, round, happen_all, arrivals}
use rcp_flext.WsServer.Fifo.{Run, happen_all-Run}
use rcp_flext.WsServer.Members.{IsSent, happen_all-IsSent}

abbrev data_message : Message
data_message = record { is_binary = true; payload = 1 ∷ 2 ∷ [] }

-- A message of a connection that ends before the message is worked off, and one that waits.
abbrev events : List Event
events =
    opens 1 ∷ sends 1 data_message ∷ round true ∷ closes 1 ∷ round false ∷ sends 2 data_message ∷ []

happen_all-Run_example :
    Run new_server events (happen_all new_server events).0 (happen_all new_server events).1
happen_all-Run_example = happen_all-Run new_server events

-- The service thread has worked off the opening of 1 and 2, and not yet the closing of 2, which is not
-- open any more.
happen_all-IsSent_example :
    let es = opens 1 ∷ opens 2 ∷ round true ∷ round true ∷ closes 2 ∷ [] in
    let s = (happen_all (run new_server 10000 true) es).0 in
    (acts : List Action) × (arrivals es ≡ acts ++ s.actions)
    × IsSent acts (λ h. true) (λ h. h == 1) s none
happen_all-IsSent_example =
    happen_all-IsSent 10000 true (opens 1 ∷ opens 2 ∷ round true ∷ round true ∷ closes 2 ∷ [])
      (λ h. true) (λ h. h == 1) none
