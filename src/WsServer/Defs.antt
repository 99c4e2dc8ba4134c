-- ===== src/WsServer/Defs.antt =====
-- websocketServer.h: the queue of actions between the network thread and the service thread, and the
-- calls that send. A `connection_hdl` is a weak pointer to a connection; it is named by a number, and
-- whether it can be locked is an argument, since connections end on their own.
use rcp_flext.Prelude.{
  ℕ, Bool, true, false, ◌&&◌, not, List, [], ◌∷◌, ◌++◌, Option, none, some, ◌==◌, if◌then◌else◌,
}
use rcp_flext.WsServer.Sets.{insert, erase}

pub record Message : Type 0 where
  pub is_binary : Bool
  pub payload : List ℕ

pub data Action : Type 0 where
  subscribe : ℕ → Action
  unsubscribe : ℕ → Action
  message : ℕ → Message → Action

-- What the service thread calls; `printed` is a line on the standard output.
pub data Callback : Type 0 where
  connected disconnected printed : Callback
  received : List ℕ → ℕ → Callback

pub record WsServer : Type 0 where
  pub connections : List ℕ
  pub actions : List Action
  pub port : ℕ
  pub run_flag : Bool
  pub is_listening : Bool

unfoldable pub push : WsServer → Action → WsServer
push s a = record s { actions = s.actions ++ a ∷ [] }

unfoldable pub on_open : WsServer → ℕ → WsServer
unfolding push
on_open s hdl = push s (subscribe hdl)

unfoldable pub on_close : WsServer → ℕ → WsServer
unfolding push
on_close s hdl = push s (unsubscribe hdl)

unfoldable pub on_message : WsServer → ℕ → Message → WsServer
unfolding push
on_message s hdl msg = push s (message hdl msg)

-- The `if` ladder of `process_messages` for one action; `alive` is what `hdl.lock()` gives.
unfoldable pub perform : WsServer → Action → Bool → WsServer × List Callback
unfolding insert erase
perform s (subscribe hdl) alive =
    (record s { connections = insert hdl s.connections }, connected ∷ [])
perform s (unsubscribe hdl) alive =
    (record s { connections = erase hdl s.connections }, disconnected ∷ [])
perform s (message hdl msg) alive =
    if msg.is_binary
    then (s, (if alive then received msg.payload hdl ∷ [] else []))
    else (s, printed ∷ [])

-- The front of the queue, taken by the service thread. It waits while the queue is empty.
unfoldable pub take_front : WsServer → List Action → Bool → WsServer × List Callback
unfolding perform
take_front s [] alive = (s, [])
take_front s (a ∷ rest) alive = perform (record s { actions = rest }) a alive

-- One round of `process_messages`.
unfoldable pub process_round : WsServer → Bool → WsServer × List Callback
unfolding take_front
process_round s alive = if s.run_flag then take_front s s.actions alive else (s, [])

-- stop: the threads are joined, and what is still in the queue stays there.
unfoldable pub stop : WsServer → WsServer
stop s = record s { connections = []; run_flag = false; is_listening = false }

-- run: `bound` says whether the port could be bound; the service thread sets `m_run`.
unfoldable pub run : WsServer → ℕ → Bool → WsServer
run s port bound = record s { port = port; run_flag = true; is_listening = bound }

abbrev pub new_server : WsServer
new_server = record {
  connections = [];
  actions = [];
  port = 0;
  run_flag = true;
  is_listening = false;
}

-- What the calls that send come to: the connections that got the data, and whether websocketpp threw.
-- `m_server.send` without an error code throws for a connection that is not open, also for one that has
-- ended, and nothing here catches that: the connections that come later get nothing.
pub record Sending : Type 0 where
  pub receivers : List ℕ
  pub threw : Bool

-- Nothing was sent, and nothing was thrown.
abbrev pub quiet : Sending
quiet = record { receivers = []; threw = false }

-- `m_server.send(conn, …)`, and what follows it if it does not throw.
abbrev pub send_then : (ℕ → Bool) → ℕ → Sending → Sending
send_then is_open conn later =
    if is_open conn
    then record later { receivers = conn ∷ later.receivers }
    else record { receivers = []; threw = true }

-- WebsocketServerTransporter::sendToOne. `lock` says which handles can be locked, `is_open` which
-- connections are open; `none` is a null id.
unfoldable pub send_to_one_loop : (ℕ → Bool) → (ℕ → Bool) → List ℕ → ℕ → Sending
send_to_one_loop lock is_open [] id = quiet
send_to_one_loop lock is_open (conn ∷ rest) id =
    let later = send_to_one_loop lock is_open rest id in
    if lock conn && (conn == id) then send_then is_open conn later else later

unfoldable pub send_to_one : (ℕ → Bool) → (ℕ → Bool) → WsServer → Option ℕ → Sending
unfolding send_to_one_loop
send_to_one lock is_open s none = quiet
send_to_one lock is_open s (some id) =
    if s.is_listening then send_to_one_loop lock is_open s.connections id else quiet

-- WebsocketServerTransporter::sendToAll. A null `excludeId` is the pointer of no connection.
abbrev pub is_excluded : Option ℕ → ℕ → Bool
is_excluded none conn = false
is_excluded (some id) conn = conn == id

unfoldable pub send_to_all_loop : (ℕ → Bool) → (ℕ → Bool) → List ℕ → Option ℕ → Sending
send_to_all_loop lock is_open [] exclude = quiet
send_to_all_loop lock is_open (conn ∷ rest) exclude =
    let later = send_to_all_loop lock is_open rest exclude in
    if lock conn && not (is_excluded exclude conn) then send_then is_open conn later else later

unfoldable pub send_to_all : (ℕ → Bool) → (ℕ → Bool) → WsServer → Option ℕ → Sending
unfolding send_to_all_loop
send_to_all lock is_open s exclude =
    if s.is_listening then send_to_all_loop lock is_open s.connections exclude else quiet

-- WebsocketServerImpl::send, the loop over the connections, without a lock and without a test.
unfoldable pub send_loop : (ℕ → Bool) → List ℕ → Sending
send_loop is_open [] = quiet
send_loop is_open (conn ∷ rest) = let later = send_loop is_open rest in send_then is_open conn later

unfoldable pub send : (ℕ → Bool) → WsServer → Sending
unfolding send_loop
send is_open s = send_loop is_open s.connections

-- WebsocketServerTransporter::received: what the rcp server gets, with the connection it came from.
unfoldable pub to_library : Callback → List (List ℕ × ℕ)
to_library (received [] hdl) = []
to_library (received (b ∷ bs) hdl) = (b ∷ bs, hdl) ∷ []
to_library _ = []
