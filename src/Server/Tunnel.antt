-- ===== src/Server/Tunnel.antt =====
-- The transporter of RabbitholeServerTransporter.cpp on its websocketClient: what the one asks, the
-- other does, and what the other reports, the one handles.
use rcp_flext.Prelude.{ℕ, Bool, ℤ, Text, List, [], ◌∷◌, Option, none, some}
use rcp_flext.WsClient.Defs.{
  WsClient, Setup, disconnect, connect, Report, Callback, on_failed, on_disconnected, received,
  handle, send,
}
use rcp_flext.Server.Rabbithole.{
  Rabbithole, Ask, connect_to, reset_timer, delay, try_connect_timer_timeout, set_interval, unbind,
}
use rcp_flext.Server.Rabbithole as Hole

-- `timer` is the delay that the timer was started with, until it fires.
pub record Tunnel : Type 0 where
  pub hole : Rabbithole
  pub client : WsClient
  pub timer : Option ℤ

-- What websocketpp says while a call is made.
pub record World : Type 0 where
  pub is_open : ℕ → Bool
  pub setup : Setup

-- The websocketClient and the timer do what is asked.
unfoldable pub serve : World → Tunnel → Ask → Tunnel
unfolding connect disconnect
serve w t (connect_to uri) = record t { client = connect w.is_open w.setup uri t.client }
serve w t Ask.disconnect = record t { client = disconnect w.is_open t.client }
serve w t reset_timer = record t { timer = none }
serve w t (delay i) = record t { timer = some i }
serve w t _ = t

unfoldable pub serve_all : World → Tunnel → List Ask → Tunnel
unfolding serve
serve_all w t [] = t
serve_all w t (a ∷ asks) = serve_all w (serve w t a) asks

abbrev pub answer : World → Tunnel → Rabbithole × List Ask → Tunnel
answer w t (r, asks) = serve_all w (record t { hole = r }) asks

-- The virtual calls of IWebsocketClientListener.
unfoldable pub listen_to : World → Tunnel → Callback → Tunnel
unfolding serve_all
listen_to w t Callback.connected = answer w t (Hole.connected t.hole)
listen_to w t (on_failed code) = answer w t (Hole.failed t.hole code)
listen_to w t (on_disconnected code) = answer w t (Hole.disconnected t.hole code)
listen_to w t _ = t

abbrev pub listen_all : World → Tunnel → List Callback → Tunnel
listen_all w t [] = t
listen_all w t (c ∷ cs) = listen_all w (listen_to w t c) cs

-- What can happen: a message to the object, a report of websocketpp, the timer.
pub data Move : Type 0 where
  connects : Text → Move
  sets_interval : ℤ → Move
  reports : Report → Move
  timer_fires : Move

unfoldable pub move : World → Tunnel → Move → Tunnel
unfolding serve_all listen_to handle
move w t (connects uri) = answer w t (Hole.connect t.hole uri)
move w t (sets_interval i) = answer w t (set_interval t.hole i)
move w t (reports r) = listen_all w t (handle t.client r)
move w t timer_fires = elim t.timer [
  | none ↦ t
  | some i ↦ answer w (record t { timer = none }) (try_connect_timer_timeout t.hole)
]

-- RabbitHoleServerTransporter::received: what the rcp server gets; a text is dropped.
unfoldable pub to_library : Callback → List (List ℕ)
to_library (received []) = []
to_library (received (b ∷ bs)) = (b ∷ bs) ∷ []
to_library _ = []

-- The callbacks for sending to one and to all clients use the one connection.
unfoldable pub send_to_tunnel : Tunnel → List ℕ
unfolding send
send_to_tunnel t = send t.client
