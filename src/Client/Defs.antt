-- ===== src/Client/Defs.antt =====
-- ParameterClient.cpp: what `rcp.client` sends when a parameter comes or goes, and when its
-- connection opens or ends.
use rcp_flext.Prelude.{
  ℕ, ◌+◌, pos, to_uint16, Text, text, List, [], ◌∷◌, ◌++◌, map, Option, some, ◌>>=◌, reverse,
  length, if◌then◌else◌,
}
use rcp_flext.Flext.{Flext, Out, to_out_int, to_out_list, emit}
use rcp_flext.Rcp.{boolean, int32, float32, string, bang, group}
use rcp_flext.Manager.{Manager}
use rcp_flext.Base.Lookup.{get_parents, label_or}

-- What a connection does; failures and closures have a code.
pub data Connection : Type 0 where
  connected : Connection
  failed disconnected : ℕ → Connection

-- The calls of IWebsocketClientListener that ParameterClient answers on outlet 2.
unfoldable pub on_connection : {A : Type 0} → Connection → List (Out A)
on_connection connected = to_out_int 2 (pos 1) ∷ []
on_connection (failed code) = to_out_int 2 (pos 0) ∷ []
on_connection (disconnected code) = to_out_int 2 (pos 0) ∷ []

module _ (fx : Flext) (m : Manager fx) (st : m.State) where
  open fx use {Atom, set_int, set_float, set_bool, set_string, set_symbol, blank}
  open m use {Param, is_value, type_id, id, value_bool, value_int32, value_float, value_string}

  -- The ladder for a value parameter; a null string is sent as an empty one.
  unfoldable pub added_value : Param → List Atom
  added_value p = elim (type_id st p) [
    | boolean ↦ set_bool (value_bool st p) ∷ []
    | int32 ↦ set_int (value_int32 st p) ∷ []
    | float32 ↦ set_float (value_float st p) ∷ []
    | string ↦ set_string (label_or [] (value_string st p)) ∷ []
    | _ ↦ []
  ]

  -- The ladder for the other parameters.
  unfoldable pub added_other : Param → List Atom
  added_other p = elim (type_id st p) [
    | bang ↦ set_symbol (text "[bang]") ∷ []
    | group ↦ set_symbol (text "[group]") ∷ []
    | _ ↦ []
  ]

  abbrev pub added_atoms : Param → List Atom
  added_atoms p = if is_value st p then added_value p else added_other p

  -- The word, the groups, outermost first, and the label.
  abbrev pub message : Text → Param → List Text → List Atom → List Atom
  message word p groups rest =
      set_symbol word
      ∷ (map set_string (reverse groups)
          ++ set_symbol (label_or (text "<nolabel>") (m.label st p)) ∷ rest)

  unfoldable pub parameter_added : ℕ → Param → Option (List (Out Atom))
  parameter_added rounds p = do
    groups ← get_parents fx m st rounds p
    list ← emit blank (3 + length groups) (message (text "add") p groups (added_atoms p))
    some (to_out_int 1 (to_uint16 (id st p)) ∷ to_out_list 0 list ∷ [])

  unfoldable pub parameter_removed : ℕ → Param → Option (List (Out Atom))
  parameter_removed rounds p = do
    groups ← get_parents fx m st rounds p
    list ← emit blank (2 + length groups) (message (text "remove") p groups [])
    some (to_out_int 1 (to_uint16 (id st p)) ∷ to_out_list 0 list ∷ [])
