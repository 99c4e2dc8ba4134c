-- ===== src/Client/Object.antt =====
-- ParameterClient.cpp: the object and its transporter, that of WebsocketClientTransporter.cpp or, with
-- the option "-raw", that of PdClientTransporter.cpp.
use rcp_flext.Prelude.{ℕ, Bool, Text, List, [], ◌∷◌, ◌++◌, Option, if◌then◌else◌}
use rcp_flext.Flext.{Flext, Out}
use rcp_flext.WsClient.Defs.{
  WsClient, new_client, Setup, connect, disconnect, Report, handle, Callback, on_failed,
  on_disconnected, received, received_text,
}
use rcp_flext.Client.Defs.{Connection, on_connection}
use rcp_flext.Server.Object.{is_raw, raw_input}

pub record ClientObject : Type 0 where
  pub raw : Bool
  pub client : WsClient

-- What the rcp library is told by the transporter.
pub data LibCall : Type 0 where
  call_connected call_disconnected : LibCall
  call_received : List ℕ → LibCall

module _ (fx : Flext) where
  open fx use {Atom}

  unfoldable pub create_client : List Atom → ClientObject
  unfolding is_raw
  create_client argv = record { raw = is_raw fx argv; client = new_client }

  -- A raw transporter has no connection to open or close.
  unfoldable pub m_open : (ℕ → Bool) → Setup → Text → ClientObject → ClientObject
  unfolding connect
  m_open is_open setup address o =
      if o.raw then o else record o { client = connect is_open setup address o.client }

  unfoldable pub m_close : (ℕ → Bool) → ClientObject → ClientObject
  unfolding disconnect
  m_close is_open o = if o.raw then o else record o { client = disconnect is_open o.client }

  -- The calls of WebsocketClientTransporter: the library first, then the object.
  unfoldable pub on_callback : Callback → List LibCall × List (Out Atom)
  unfolding on_connection
  on_callback Callback.connected = (call_connected ∷ [], on_connection Connection.connected)
  on_callback (on_failed code) = (call_disconnected ∷ [], on_connection (Connection.failed code))
  on_callback (on_disconnected code) =
      (call_disconnected ∷ [], on_connection (Connection.disconnected code))
  on_callback (received bs) = (call_received bs ∷ [], [])
  on_callback (received_text t) = ([], [])

  abbrev pub on_callbacks : List Callback → List LibCall × List (Out Atom)
  on_callbacks [] = ([], [])
  on_callbacks (c ∷ cs) =
      let (told, outs) = on_callback c in
      let (told', outs') = on_callbacks cs in (told ++ told', outs ++ outs')

  unfoldable pub on_report : WsClient → Report → List LibCall × List (Out Atom)
  unfolding on_callback handle
  on_report c r = on_callbacks (handle c r)

  -- `raw_data_list` and `handle_raw_data` with PdClientTransporter::pushData.
  unfoldable pub client_raw_input : List Atom → Option (List (List ℕ))
  unfolding raw_input
  client_raw_input argv = raw_input fx argv
