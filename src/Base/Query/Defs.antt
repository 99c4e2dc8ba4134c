-- ===== src/Base/Query/Defs.antt =====
-- ParameterServerClientBase.cpp: parameterId, parameterType, parameterReadonly, parameterOrder,
-- parameterValue, parameterMin, parameterMax and parameterInfo.
use rcp_flext.Prelude.{
  ℕ, ◌+◌, Bool, true, false, ◌&&◌, ℤ, pos, Text, text, List, [], ◌∷◌, ◌++◌, map, Option, none, some,
  ◌>>=◌, if◌then◌else◌, length, reverse,
}
use rcp_flext.Flext.{Flext, Out, to_out_int, to_out_list, emit}
use rcp_flext.Rcp.{Datatype, boolean, int32, float32, string, bang, group}
use rcp_flext.Manager.{Manager}
use rcp_flext.Base.Lookup.{get_parameter, get_parents, label_or}

unfoldable pub type_to_string : Datatype → Text
type_to_string float32 = text "float"
type_to_string int32 = text "int"
type_to_string boolean = text "toggle"
type_to_string bang = text "bang"
type_to_string string = text "string"
type_to_string group = text "group"
type_to_string _ = text "unknown"

abbrev pub is_number : Datatype → Bool
is_number float32 = true
is_number int32 = true
is_number _ = false

module _ (fx : Flext) (m : Manager fx) (st : m.State) where
  open fx use {Atom, set_int, set_float, set_bool, set_string, set_symbol, blank}
  open m use {
    Param, is_value, type_id, id, readonly, order, value_bool, value_int32, value_float,
    value_string, has_min, has_max, min_int32, max_int32, min_float, max_float, parameters,
  }

  -- SetString of what rcp_parameter_get_value_string returns. A null pointer is read there.
  abbrev pub string_atom : Option Text → Option (List Atom)
  string_atom none = none
  string_atom (some t) = some (set_string t ∷ [])

  -- The value of a parameter by its type, in the ladder that several handlers share.
  unfoldable pub value_atoms : Param → Option (List Atom)
  value_atoms p = elim (type_id st p) [
    | boolean ↦ some (set_bool (value_bool st p) ∷ [])
    | int32 ↦ some (set_int (value_int32 st p) ∷ [])
    | float32 ↦ some (set_float (value_float st p) ∷ [])
    | string ↦ string_atom (value_string st p)
    | _ ↦ some []
  ]

  -- A list of `len` atoms: the question, the path, and the answer.
  abbrev pub answer : ℕ → Text → List Atom → List Atom → Option (List (Out Atom))
  answer len question argv rest = do
    list ← emit blank len (set_symbol question ∷ (argv ++ rest))
    some (to_out_list 3 list ∷ [])

  -- What `handle` says of the parameter of the path, and nothing if there is none.
  abbrev pub ask : List Atom → (Param → Option (List (Out Atom))) → Option (List (Out Atom))
  ask argv handle = elim (get_parameter fx m st argv none) [ none ↦ some [] | some p ↦ handle p ]

  unfoldable pub parameter_id : List Atom → Option (List (Out Atom))
  unfolding get_parameter emit
  parameter_id argv =
      ask argv λ p. answer (2 + length argv) (text "id") argv (set_int (id st p) ∷ [])

  unfoldable pub parameter_type : List Atom → Option (List (Out Atom))
  unfolding get_parameter emit type_to_string
  parameter_type argv = ask argv λ p.
      answer (2 + length argv) (text "type") argv (set_string (type_to_string (type_id st p)) ∷ [])

  unfoldable pub parameter_readonly : List Atom → Option (List (Out Atom))
  unfolding get_parameter emit
  parameter_readonly argv = ask argv λ p.
      answer (2 + length argv) (text "readonly") argv
        (set_int (if readonly st p then pos 1 else pos 0) ∷ [])

  unfoldable pub parameter_order : List Atom → Option (List (Out Atom))
  unfolding get_parameter emit
  parameter_order argv =
      ask argv λ p. answer (2 + length argv) (text "order") argv (set_int (order st p) ∷ [])

  unfoldable pub parameter_value : List Atom → Option (List (Out Atom))
  unfolding get_parameter emit value_atoms
  parameter_value argv = ask argv λ p. do
    value ← value_atoms p
    answer (1 + length argv + (if is_value st p then 1 else 0)) (text "value") argv value

  abbrev pub limit_atoms : Param → ℤ → fx.Float → List Atom
  limit_atoms p i f = elim (type_id st p) [
    | int32 ↦ set_int i ∷ []
    | float32 ↦ set_float f ∷ []
    | _ ↦ []
  ]

  unfoldable pub parameter_min : List Atom → Option (List (Out Atom))
  unfolding get_parameter emit
  parameter_min argv = ask argv λ p.
      if has_min st p
      then answer (1 + length argv + 1) (text "min") argv
          (limit_atoms p (min_int32 st p) (min_float st p))
      else some []

  unfoldable pub parameter_max : List Atom → Option (List (Out Atom))
  unfolding get_parameter emit
  parameter_max argv = ask argv λ p.
      if has_max st p
      then answer (1 + length argv + 1) (text "max") argv
          (limit_atoms p (max_int32 st p) (max_float st p))
      else some []

  -- `has_min` and `has_max` of `_outputInfo`: only a value parameter with a number has limits.
  abbrev pub shows_min : Param → Bool
  shows_min p = is_value st p && is_number (type_id st p) && has_min st p

  abbrev pub shows_max : Param → Bool
  shows_max p = is_value st p && is_number (type_id st p) && has_max st p

  abbrev pub one_if : Bool → ℕ
  one_if b = if b then 1 else 0

  abbrev pub atom_if : Bool → Atom → List Atom
  atom_if b a = if b then a ∷ [] else []

  -- The value and the limits, in the ladder of `_outputInfo`.
  unfoldable pub info_atoms : Param → Option (List Atom)
  info_atoms p = elim (type_id st p) [
    | boolean ↦ some (set_bool (value_bool st p) ∷ [])
    | int32 ↦ some (
        set_int (value_int32 st p)
        ∷ (atom_if (shows_min p) (set_int (min_int32 st p))
            ++ atom_if (shows_max p) (set_int (max_int32 st p))))
    | float32 ↦ some (
        set_float (value_float st p)
        ∷ (atom_if (shows_min p) (set_float (min_float st p))
            ++ atom_if (shows_max p) (set_float (max_float st p))))
    | string ↦ string_atom (value_string st p)
    | _ ↦ some []
  ]

  -- _outputInfo of a parameter that is not null
  unfoldable pub output_info : Param → List Atom → Option (List (Out Atom))
  unfolding info_atoms emit type_to_string
  output_info p argv = do
    value ← info_atoms p
    let len = 3 + length argv + one_if (is_value st p) + one_if (shows_min p) + one_if (shows_max p)
    answer len (text "info") argv
        (value ++ set_int (id st p) ∷ set_string (type_to_string (type_id st p)) ∷ [])

  -- The loop over all parameters, each under the path of its groups.
  unfoldable pub info_loop : ℕ → List Param → Option (List (Out Atom))
  unfolding output_info get_parents
  info_loop rounds [] = some []
  info_loop rounds (p ∷ l) = do
    groups ← get_parents fx m st rounds p
    out ← output_info p (map set_string (reverse groups))
    outs ← info_loop rounds l
    some (out ++ outs)

  unfoldable pub parameter_info : ℕ → List Atom → Option (List (Out Atom))
  unfolding info_loop get_parameter output_info
  parameter_info rounds [] = info_loop rounds (parameters st)
  parameter_info rounds (a ∷ l) = ask (a ∷ l) λ p. output_info p (a ∷ l)

  -- parameterUpdate: the id on outlet 1, then `update`, the groups, the label and the value.
  unfoldable pub parameter_update : ℕ → Param → Option (List (Out Atom))
  unfolding get_parents value_atoms
  parameter_update rounds p = do
    groups ← get_parents fx m st rounds p
    value ← value_atoms p
    list ← emit blank (3 + length groups) (
        set_symbol (text "update")
        ∷ (map set_string (reverse groups)
            ++ set_symbol (label_or (text "<nolabel>") (m.label st p)) ∷ value))
    some (to_out_int 1 (id st p) ∷ to_out_list 0 list ∷ [])
