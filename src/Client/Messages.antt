-- ===== src/Client/Messages.antt =====
-- The messages of ParameterClient.h, as `setup` adds them to those of the base class, and the reports
-- of websocketpp, on the object with the parameters of its rcp client.
use rcp_flext.Prelude.{
  ℕ, Bool, true, false, not, ◌&&◌, ◌||◌, pos, eq_ℤ, Text, List, [], ◌∷◌, ◌++◌, Option, none, some,
  ◌>>=◌, if◌then◌else◌,
}
use rcp_flext.Flext.{Flext, Out, error}
use rcp_flext.Bytes.{Read, bytes, refused, raw_data}
use rcp_flext.Manager.{Manager}
use rcp_flext.Base.Messages.{
  BaseMessage, info, id, type, readonly, order, value, min, max, list, anything, bang,
  has_arguments, receive_base, asked, rounds_of,
}
use rcp_flext.Base.Input.{list_id}
use rcp_flext.Base.Query.{parameter_update}
use rcp_flext.WsClient.Defs.{Setup, Report}
use rcp_flext.Client.Defs.{parameter_added, parameter_removed}
use rcp_flext.Client.Object.{
  ClientObject, create_client, m_open, m_close, on_report, LibCall, call_connected,
  call_disconnected, call_received,
}

-- What the library calls back for: a parameter comes, goes, or has a new value or a bang.
pub data Called (P : Type 0) : Type 0 where
  added removed updated : P → Called P

-- What comes to the object. When the library calls back, what the server sent has made its state `S`; a
-- list at the inlet for raw data carries the state that the library makes of its bytes.
pub data ClientMessage (A S P : Type 0) : Type 0 where
  open_to : (ℕ → Bool) → Setup → Text → ClientMessage A S P
  close : (ℕ → Bool) → ClientMessage A S P
  reported : Report → ClientMessage A S P
  on_base : BaseMessage A → ClientMessage A S P
  raw_list : List A → S → ClientMessage A S P
  called_back : S → Called P → ClientMessage A S P

unfoldable pub is_complete : {A S P : Type 0} → ClientMessage A S P → Bool
unfolding has_arguments
is_complete (on_base msg) = has_arguments msg
is_complete _ = true

-- What a message makes the object tell the library, and send.
abbrev pub Effects : Type 0 → Type 0
Effects A = List LibCall × List (Out A)

-- The library is told that the connection is lost.
abbrev pub tells_lost : List LibCall → Bool
tells_lost [] = false
tells_lost (call_disconnected ∷ calls) = true
tells_lost (call_connected ∷ calls) = tells_lost calls
tells_lost (call_received bs ∷ calls) = tells_lost calls

module _ (fx : Flext) (m : Manager fx) where
  open fx use {Atom, is_string}
  open m use {State, Param}

  -- `is_current` says whether `m_manager`, which the constructor sets once, is the manager that the
  -- library has.
  pub record ClientState : Type 0 where
    pub object : ClientObject
    pub parameters : State
    pub is_current : Bool

  -- The object as the constructor leaves it.
  abbrev pub new_object : List Atom → State → ClientState
  new_object argv st = record { object = create_client fx argv; parameters = st; is_current = true }

  -- getParameter asks the manager unless the path is empty or does not begin with a text.
  abbrev pub begins_with_text : List Atom → Bool
  begins_with_text [] = false
  begins_with_text (a ∷ l) = is_string a

  -- The messages whose handler passes `m_manager` to the library.
  unfoldable pub looks_up : BaseMessage Atom → Bool
  unfolding list_id
  looks_up (info []) = true
  looks_up (info (a ∷ l)) = is_string a
  looks_up (list []) = false
  looks_up (list (a ∷ l)) = not (eq_ℤ (list_id fx m a) (pos 0)) || is_string a
  looks_up (id argv) = begins_with_text argv
  looks_up (type argv) = begins_with_text argv
  looks_up (readonly argv) = begins_with_text argv
  looks_up (order argv) = begins_with_text argv
  looks_up (value argv) = begins_with_text argv
  looks_up (min argv) = begins_with_text argv
  looks_up (max argv) = begins_with_text argv
  looks_up (anything t argv) = true
  looks_up bang = true

  -- A transporter for raw data has no connections to report.
  abbrev pub told : ClientObject → Report → Effects Atom
  told o r = elim o.raw [ true ↦ ([], []) | false ↦ on_report fx o.client r ]

  abbrev pub on_parameters :
      ClientState → Option (State × List (Out Atom)) → Option (ClientState × Effects Atom)
  on_parameters s r = do (st, outs) ← r; some (record s { parameters = st }, ([], outs))

  -- client_parameter_added_cb, client_parameter_removed_cb, parameterValueUpdatedCb and
  -- bangParameterBangCb
  unfoldable pub call_back : State → Called Param → Option (List (Out Atom))
  unfolding parameter_added parameter_removed parameter_update
  call_back st (added p) = parameter_added fx m st (rounds_of fx m st) p
  call_back st (removed p) = parameter_removed fx m st (rounds_of fx m st) p
  call_back st (updated p) = parameter_update fx m st (rounds_of fx m st) p

  -- `raw_data_list` and `handle_raw_data`: the library gets the bytes, unless there are none.
  abbrev pub on_raw : ClientState → State → Read → ClientState × Effects Atom
  on_raw s st refused = (s, ([], error ∷ []))
  on_raw s st (bytes []) = (s, ([], []))
  on_raw s st (bytes (b ∷ bs)) = (record s { parameters = st }, (call_received (b ∷ bs) ∷ [], []))

  -- `recreates` says whether the library makes a new manager, and frees the old one, when it is told that
  -- the connection is lost, as the comments in WebsocketClientTransporter.cpp say. `m_manager` stays what
  -- it was, and what is looked up through it is then read from freed memory.
  unfoldable pub receive_client :
      Bool → ClientState → ClientMessage Atom State Param → Option (ClientState × Effects Atom)
  unfolding m_open m_close on_report receive_base call_back looks_up raw_data
  receive_client recreates s (open_to is_open setup address) =
      some (record s { object = m_open fx is_open setup address s.object }, ([], []))
  receive_client recreates s (close is_open) =
      some (record s { object = m_close fx is_open s.object }, ([], []))
  receive_client recreates s (reported r) =
      let effects = told s.object r in
      let lost = recreates && tells_lost effects.0 in
      some (record s { is_current = s.is_current && not lost }, effects)
  receive_client recreates s (on_base msg) =
      if not s.is_current && looks_up msg
      then none
      else on_parameters s (receive_base fx m s.parameters msg)
  receive_client recreates s (raw_list argv st) =
      -- only a raw object has the inlet
      if s.object.raw then (do r ← raw_data fx argv; some (on_raw s st r)) else some (s, ([], []))
  receive_client recreates s (called_back st c) = on_parameters s (asked fx m st (call_back st c))

  unfoldable pub receive_client_all :
      Bool
      → ClientState
      → List (ClientMessage Atom State Param)
      → Option (ClientState × Effects Atom)
  unfolding receive_client
  receive_client_all recreates s [] = some (s, ([], []))
  receive_client_all recreates s (x ∷ xs) = do
    (s', (calls, outs)) ← receive_client recreates s x
    (s'', (more, later)) ← receive_client_all recreates s' xs
    some (s'', (calls ++ more, outs ++ later))
