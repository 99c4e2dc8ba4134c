-- ===== src/Ws/Client.antt =====
-- PdWebsocketClient.cpp, with WebsocketClientImpl.cpp, which passes everything on to the object.
use rcp_flext.Prelude.{
  ℕ, Bool, false, not, pos, Text, List, [], ◌∷◌, Option, some, ◌>>=◌, if◌then◌else◌,
}
use rcp_flext.Flext.{Flext, Out, to_out_int, to_out_list, to_out_symbol, error, post}
use rcp_flext.Bytes.{Read, bytes, refused, strict, data_atoms}
use rcp_flext.WsClient.Defs.{
  WsClient, connect, disconnect, send, is_open_client, Callback, connected, on_failed,
  on_disconnected, received, received_text, Setup,
}
use rcp_flext.Ws.Server.{Sent}

module _ (fx : Flext) where
  open fx use {Atom}

  unfoldable pub on_callback : Callback → List (Out Atom)
  unfolding data_atoms
  on_callback connected = to_out_int 2 (pos 1) ∷ []
  on_callback (on_failed code) = to_out_int 2 (pos 0) ∷ []
  on_callback (on_disconnected code) = to_out_int 2 (pos 0) ∷ []
  on_callback (received bs) = to_out_list 0 (data_atoms fx bs) ∷ []
  on_callback (received_text t) = to_out_symbol 1 t ∷ []

  -- `send` with an error code does not throw.
  abbrev pub send_read : WsClient → Read → List (Out Atom) × List Sent
  send_read c refused = (error ∷ [], [])
  send_read c (bytes bs) =
      ([], record { sending = record { receivers = send c; threw = false }; payload = bs } ∷ [])

  unfoldable pub m_list : (ℕ → Bool) → WsClient → List Atom → Option (List (Out Atom) × List Sent)
  unfolding strict is_open_client send
  m_list is_open c argv =
      if not (is_open_client is_open c)
      then some (post ∷ [], [])
      else (do r ← strict fx argv; some (send_read c r))

unfoldable pub m_open : (ℕ → Bool) → Setup → Text → WsClient → WsClient
unfolding connect
m_open is_open setup uri c = connect is_open setup uri c

unfoldable pub m_close : (ℕ → Bool) → WsClient → WsClient
unfolding disconnect
m_close is_open c = disconnect is_open c
