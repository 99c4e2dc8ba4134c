-- ===== src/Ws/Server.antt =====
-- PdWebsocketServer.cpp, with WebsocketServerImpl.cpp, which passes everything on to the object.
use rcp_flext.Prelude.{
  ℕ, zero, suc, Bool, false, ◌&&◌, ℤ, pos, negsuc, wrap, ltb_ℤ, leb_ℤ, eq_ℤ, List, [], ◌∷◌, Option,
  none, some, ◌>>=◌, if◌then◌else◌, length,
}
use rcp_flext.Flext.{Flext, Out, to_out_int, to_out_list, error}
use rcp_flext.Bytes.{Read, bytes, refused, strict, data_atoms}
use rcp_flext.WsServer.Defs.{WsServer, new_server, run, Sending, send}

-- What m_list does besides its output: data handed to connections, with what comes of it.
pub record Sent : Type 0 where
  pub sending : Sending
  pub payload : List ℕ

-- A new WebsocketServerImpl that runs on a port; `bound` says whether the port could be bound.
abbrev pub started : ℕ → Bool → WsServer
started port bound = run new_server port bound

module _ (fx : Flext) where
  open fx use {Atom, can_be_int, get_a_int}

  abbrev pub argument_port : List Atom → ℕ
  argument_port [] = 0
  argument_port (a ∷ l) =
      let p = get_a_int a (negsuc 0) in
      if can_be_int a
      then (if ltb_ℤ (pos 0) p && leb_ℤ p (pos 65535) then wrap 65536 p else 0)
      else 0

  unfoldable pub start_if : ℕ → Bool → Option WsServer
  unfolding run
  start_if zero bound = none
  start_if (suc p) bound = some (started (suc p) bound)

  unfoldable pub create_ws : List Atom → Bool → Option WsServer
  unfolding start_if
  create_ws argv bound = start_if (argument_port argv) bound

  abbrev pub is_port : Option WsServer → ℤ → Bool
  is_port none p = false
  is_port (some s) p = eq_ℤ p (pos s.port)

  -- m_listen; `run` takes an `uint16_t`.
  unfoldable pub m_listen : Option WsServer → ℤ → Bool → Option WsServer
  unfolding run
  m_listen server p bound =
      if ltb_ℤ (pos 65535) p
      then server
      else (if is_port server p
          then server
          else (if ltb_ℤ (pos 0) p then some (started (wrap 65536 p) bound) else none))

  -- WebsocketServerImpl::connections, which `connected` and `disconnected` show; a null pointer is
  -- read through where there is no server.
  unfoldable pub show_connections : Option WsServer → Option (List (Out Atom))
  show_connections server = do s ← server; some (to_out_int 1 (pos (length s.connections)) ∷ [])

  unfoldable pub received : List ℕ → List (Out Atom)
  unfolding data_atoms
  received bs = to_out_list 0 (data_atoms fx bs) ∷ []

  -- The end of m_list; `is_open` says which connections are open.
  abbrev pub send_read : (ℕ → Bool) → Option WsServer → Read → Option (List (Out Atom) × List Sent)
  send_read is_open server refused = some (error ∷ [], [])
  send_read is_open none (bytes bs) = none
  send_read is_open (some s) (bytes bs) =
      some ([], record { sending = send is_open s; payload = bs } ∷ [])

  unfoldable pub m_list :
      (ℕ → Bool) → Option WsServer → List Atom → Option (List (Out Atom) × List Sent)
  unfolding strict send
  m_list is_open server argv = do r ← strict fx argv; send_read is_open server r
