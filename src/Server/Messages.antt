-- ===== src/Server/Messages.antt =====
-- The messages of ParameterServer.h, as `setup` adds them to those of the base class: which method
-- handles which, on the object with the parameters of its rcp server.
use rcp_flext.Prelude.{
  Bool, true, false, ℤ, List, [], ◌∷◌, ◌++◌, Option, some, ◌>>=◌, if◌then◌else◌,
}
use rcp_flext.Flext.{Flext, Out, error}
use rcp_flext.Bytes.{Read, bytes, refused, raw_data}
use rcp_flext.Manager.{Manager}
use rcp_flext.Base.Messages.{BaseMessage, has_arguments, receive_base, asked, rounds_of}
use rcp_flext.Base.Query.{parameter_update}
use rcp_flext.Server.Port.{step}
use rcp_flext.Server.Expose.{ServerLib, expose_parameter}
use rcp_flext.Server.Limits.{
  remove_parameter, remove_parameter_list, parameter_set_readonly, parameter_set_order,
  parameter_set_min, parameter_set_max, parameter_set_min_max,
}
use rcp_flext.Server.Object.{Object, Message, on_port, message}

-- What concerns the transporters (`listen`, the attributes, clients, the network), the table of the
-- server, that of the base class, a list at the inlet for raw data, and the callbacks of the library:
-- what a client sent has made its state `S`, and the value of a parameter, or a bang, has come. A list
-- of raw data carries the state that the library makes of its bytes.
pub data ServerMessage (A S P : Type 0) : Type 0 where
  on_object : Message → ServerMessage A S P
  expose remove_list setreadonly setorder setmin setmax setminmax : List A → ServerMessage A S P
  remove : ℤ → ServerMessage A S P
  on_base : BaseMessage A → ServerMessage A S P
  raw_list : List A → S → ServerMessage A S P
  updated : S → P → ServerMessage A S P

-- The readonly flag and the order need an atom, and see the base class.
unfoldable pub has_value : {A S P : Type 0} → ServerMessage A S P → Bool
unfolding has_arguments
has_value (setreadonly []) = false
has_value (setorder []) = false
has_value (on_base msg) = has_arguments msg
has_value _ = true

module _ (fx : Flext) (m : Manager fx) (lib : ServerLib fx m) where
  open fx use {Atom}
  open m use {State, Param}

  pub record ServerState : Type 0 where
    pub object : Object
    pub parameters : State

  -- Only a client or `listen` has something sent.
  abbrev pub object_outs : Object → Message → List (Out Atom)
  object_outs o (on_port h) = (step Atom o.port h).1
  object_outs o _ = []

  abbrev pub on_parameters :
      ServerState → Option (State × List (Out Atom)) → Option (ServerState × List (Out Atom))
  on_parameters s r = do (st, outs) ← r; some (record s { parameters = st }, outs)

  -- `raw_data_list` and `handle_raw_data`: the library gets the bytes, unless there are none.
  abbrev pub on_raw : ServerState → State → Read → ServerState × List (Out Atom)
  on_raw s st refused = (s, error ∷ [])
  on_raw s st (bytes []) = (s, [])
  on_raw s st (bytes (b ∷ bs)) = (record s { parameters = st }, [])

  -- parameterValueUpdatedCb and bangCb
  unfoldable pub value_updated : State → Param → Option (List (Out Atom))
  unfolding parameter_update
  value_updated st p = parameter_update fx m st (rounds_of fx m st) p

  unfoldable pub receive_server :
      ServerState → ServerMessage Atom State Param → Option (ServerState × List (Out Atom))
  unfolding message step expose_parameter remove_parameter remove_parameter_list
      parameter_set_readonly parameter_set_order parameter_set_min parameter_set_max
      parameter_set_min_max receive_base raw_data
  receive_server s (on_object x) =
      some (record s { object = message Atom s.object x }, object_outs s.object x)
  receive_server s (expose argv) = on_parameters s (expose_parameter fx m lib s.parameters argv)
  receive_server s (remove_list argv) =
      some (record s { parameters = remove_parameter_list fx m lib s.parameters argv }, [])
  receive_server s (remove i) =
      some (record s { parameters = remove_parameter fx m lib s.parameters i }, [])
  receive_server s (setreadonly argv) =
      on_parameters s (parameter_set_readonly fx m lib s.parameters argv)
  receive_server s (setorder argv) =
      on_parameters s (parameter_set_order fx m lib s.parameters argv)
  receive_server s (setmin argv) = on_parameters s (parameter_set_min fx m lib s.parameters argv)
  receive_server s (setmax argv) = on_parameters s (parameter_set_max fx m lib s.parameters argv)
  receive_server s (setminmax argv) =
      on_parameters s (parameter_set_min_max fx m lib s.parameters argv)
  receive_server s (on_base msg) = on_parameters s (receive_base fx m s.parameters msg)
  receive_server s (raw_list argv st) =
      -- only a raw object has the inlet
      if s.object.port.raw then (do r ← raw_data fx argv; some (on_raw s st r)) else some (s, [])
  receive_server s (updated st p) = on_parameters s (asked fx m st (value_updated st p))

  unfoldable pub receive_all :
      ServerState → List (ServerMessage Atom State Param) → Option (ServerState × List (Out Atom))
  unfolding receive_server
  receive_all s [] = some (s, [])
  receive_all s (x ∷ xs) = do
    (s', outs) ← receive_server s x
    (s'', more) ← receive_all s' xs
    some (s'', outs ++ more)
