-- ===== src/Ws/Echo.antt =====
-- Data that a websocket object receives, sent on by another one or by the same.
use rcp_flext.Prelude.{
  ℕ, zero, suc, ◌≤◌, ◌<◌, ◌≡◌, refl, Bool, true, false, ◌&&◌, not, ℤ, pos, negsuc, wrap, ltb_ℤ,
  List, [], ◌∷◌, Option, none, some, if◌then◌else◌, arith, Bool-cases, inl, inr, All, all_some,
}
use rcp_flext.Flext.{Flext, IsFlext, to_out_list, error}
use rcp_flext.Bytes.{data_atoms, IsByte, all_ascii, strict-data_atoms, strict_lem, strict_byte?}
use rcp_flext.WsServer.Defs.{WsServer, Sending, send}
use rcp_flext.WsServer.Sets.{mem, Unique}
use rcp_flext.WsServer.Send.{Reaches, Reaches-same, send_loop-Reaches}
use rcp_flext.WsClient.Defs as WsClient
use rcp_flext.Ws.Server.{m_list, m_listen, create_ws, start_if, argument_port, is_port}
use rcp_flext.Ws.Client

module _ (fx : Flext) (laws : IsFlext fx) where
  open fx use {Atom, char_is_signed}

  -- Data that ws.client receives and that is passed to ws.server is refused if `char` is signed
  -- and some byte is above 127. Otherwise it is sent whole: no connection gets it twice, only
  -- those in the set that are open get it, and all in the set do if no call throws; a call
  -- throws exactly if one in the set is not open. Given bytes, that no connection is in the set
  -- twice, and the documented behaviour of flext's integers.
  pub m_list-received :
      (s : WsServer) (is_open : ℕ → Bool) (bs : List ℕ)
      → All IsByte bs
      → Unique s.connections
      → Client.on_callback fx (WsClient.received bs) ≡ to_out_list 0 (data_atoms fx bs) ∷ []
        × (sending : Sending) × (m_list fx is_open (some s) (data_atoms fx bs)
            ≡ some (
                if char_is_signed && not (all_ascii bs)
                then (error ∷ [], [])
                else ([], record { sending = sending; payload = bs } ∷ [])))
        × Reaches (λ k. mem k s.connections) is_open sending
  unfolding m_list Client.on_callback send
  m_list-received s is_open bs h u =
      let reaches =
        Reaches-same _ _ is_open _ (λ k. ground arith)
          (send_loop-Reaches is_open s.connections u) in
      elim (Bool-cases (char_is_signed && not (all_ascii bs))) [
        | inl b ↦ (refl, send is_open s, rw (m_list, strict-data_atoms fx laws bs h, b), reaches)
        | inr b ↦ (refl, send is_open s, rw (m_list, strict-data_atoms fx laws bs h, b), reaches)
      ]

module _ (fx : Flext) where
  open fx use {Atom, char_is_signed}

  -- Without a server, a list of bytes reads through a null pointer.
  pub m_list_faults :
      (is_open : ℕ → Bool) (argv : List Atom) (bs : List ℕ)
      → all_some (strict_byte? fx) argv ≡ some bs
      → m_list fx is_open none argv ≡ none
  unfolding m_list
  m_list_faults is_open argv bs e = rw (m_list, strict_lem, e)

  -- A server, where there is one, has a port that can be listened on.
  abbrev pub HasPort : Option WsServer → Type 0
  HasPort none = Unit
  HasPort (some s) = (0 < s.port) × (s.port ≤ 65535)

  -- `listen` messages, each with what the system says of the port.
  abbrev pub listens : Option WsServer → List (ℤ × Bool) → Option WsServer
  listens s [] = s
  listens s ((p, bound) ∷ more) = listens (m_listen fx s p bound) more

  fits :
      (p : ℤ)
      → ltb_ℤ (pos 0) p ≡ true
      → ltb_ℤ (pos 65535) p ≡ false
      → (0 < wrap 65536 p) × (wrap 65536 p ≤ 65535)
  fits (pos n) h k = ground arith
  fits (negsuc n) h k = ground arith

  m_listen-HasPort :
      (s : Option WsServer) (p : ℤ) (bound : Bool) → HasPort s → HasPort (m_listen fx s p bound)
  unfolding m_listen
  m_listen-HasPort s p bound h = elim (Bool-cases (ltb_ℤ (pos 65535) p)) [
    | inl large ↦ rw large h
    | inr small ↦ elim (Bool-cases (is_port fx s p)) [
      | inl same ↦ rw (small, same) h
      | inr other ↦ elim (Bool-cases (ltb_ℤ (pos 0) p)) [
        | inl positive ↦ rw (small, other, positive) (fits p positive small)
        | inr gone ↦ rw (small, other, gone) tt
      ]
    ]
  ]

  start_if-HasPort : (p : ℕ) (bound : Bool) → p ≤ 65535 → HasPort (start_if fx p bound)
  unfolding start_if
  start_if-HasPort zero bound h = tt
  start_if-HasPort (suc p) bound h = (omega arith, h)

  argument_port-le : (argv : List Atom) → argument_port fx argv ≤ 65535
  argument_port-le [] = omega arith
  argument_port-le (a ∷ l) = ground arith

  listens-HasPort :
      (s : Option WsServer) (ps : List (ℤ × Bool)) → HasPort s → HasPort (listens s ps)
  listens-HasPort s [] h = h
  listens-HasPort s ((p, bound) ∷ more) h =
      listens-HasPort (m_listen fx s p bound) more (m_listen-HasPort s p bound h)

  -- After the constructor and any sequence of `listen` messages, a server of ws.server, where
  -- there is one, was started on a port from 1 to 65535.
  pub create_ws-HasPort :
      (argv : List Atom) (bound : Bool) (ps : List (ℤ × Bool))
      → HasPort (listens (create_ws fx argv bound) ps)
  unfolding create_ws
  create_ws-HasPort argv bound ps =
      listens-HasPort (start_if fx (argument_port fx argv) bound) ps
        (start_if-HasPort (argument_port fx argv) bound (argument_port-le argv))
