-- ===== src/Base/Input.antt =====
-- ParameterServerClientBase.cpp: messages that set a value or look at the list of parameters.
use rcp_flext.Prelude.{
  ℕ, Bool, true, false, ℤ, pos, ltb_ℤ, eq_ℤ, ◌&&◌, to_int16, Text, List, [], ◌∷◌, Option, none,
  some, ◌>>=◌, if◌then◌else◌,
}
use rcp_flext.Flext.{Flext, Out, post, to_out_list}
use rcp_flext.Rcp.{Datatype, boolean, int32, float32, string, bang}
use rcp_flext.Manager.{Manager}
use rcp_flext.Base.Lookup.{get_parameter}
use rcp_flext.Bytes.{data_atoms}

-- `argv[argc-1]`, which is out of bounds if there is no atom.
unfoldable pub last_atom : {A : Type 0} → List A → Option A
last_atom [] = none
last_atom (a ∷ []) = some a
last_atom (a ∷ b ∷ l) = last_atom (b ∷ l)

-- The first `argc-1` atoms.
unfoldable pub but_last : {A : Type 0} → List A → List A
but_last [] = []
but_last (a ∷ []) = []
but_last (a ∷ b ∷ l) = a ∷ but_last (b ∷ l)

-- The types for which `setAtomValue` reads the atom.
abbrev pub takes_atom : Datatype → Bool
takes_atom boolean = true
takes_atom int32 = true
takes_atom float32 = true
takes_atom string = true
takes_atom _ = false

abbrev pub is_bang : Datatype → Bool
is_bang bang = true
is_bang _ = false

module _ (fx : Flext) (m : Manager fx) where
  open fx use {Atom, is_string, can_be_int, can_be_float, get_a_int, get_a_float, get_string}
  open m use {
    State, Param, find_parameter, is_group, is_value, type_id, set_value_bool, set_value_int32,
    set_value_float, set_value_string, set_dirty, update,
  }

  abbrev pub when : Bool → State → State → State × Bool
  when test st' st = if test then (st', true) else (st, false)

  -- The branches on the type of a value parameter.
  unfoldable pub set_typed : State → Param → Atom → State × Bool
  set_typed st p atom = elim (type_id st p) [
    | boolean ↦
        when (can_be_int atom) (set_value_bool st p (ltb_ℤ (pos 0) (get_a_int atom (pos 0)))) st
    | int32 ↦ when (can_be_int atom) (set_value_int32 st p (get_a_int atom (pos 0))) st
    | float32 ↦ when (can_be_float atom) (set_value_float st p (get_a_float atom)) st
    | string ↦ when (is_string atom) (set_value_string st p (get_string atom)) st
    | _ ↦ (st, false)
  ]

  -- setAtomValue
  unfoldable pub set_atom_value : State → Option Param → Atom → State × Bool
  unfolding set_typed
  set_atom_value st none atom = (st, false)
  set_atom_value st (some p) atom = if is_value st p then set_typed st p atom else (st, false)

  -- The end of `_input`: set the value and, if that was done, send the update. The reference to
  -- `argv[argc-1]` is read only for a value parameter of one of four types.
  unfoldable pub set_and_update : State → Param → List Atom → Option (State × List (Out Atom))
  unfolding last_atom set_atom_value
  set_and_update st p argv = elim (last_atom argv) [
    | none ↦ if is_value st p && takes_atom (type_id st p) then none else some (st, [])
    | some atom ↦
        let (st', was_set) = set_atom_value st (some p) atom in
        some ((if was_set then update st' else st'), [])
  ]

  abbrev said : State → Option (State × List (Out Atom))
  said st = some (st, post ∷ [])

  -- A message to a group: a path below it, and the value.
  unfoldable pub input_group : State → Param → List Atom → Option (State × List (Out Atom))
  unfolding get_parameter but_last set_and_update
  input_group st g [] = said st
  input_group st g (a ∷ []) = said st
  input_group st g (a ∷ b ∷ l) = elim (get_parameter fx m st (but_last (a ∷ b ∷ l)) (some g)) [
    | none ↦ said st
    | some p ↦ if is_group st p then said st else set_and_update st p (a ∷ b ∷ l)
  ]

  -- _input
  unfoldable pub input : State → Option Param → List Atom → Option (State × List (Out Atom))
  unfolding input_group set_and_update
  input st none argv = some (st, [])
  input st (some p) argv =
      if is_group st p
      then input_group st p argv
      else (if is_bang (type_id st p)
          then some (update (set_dirty st p), [])
          else set_and_update st p argv)

  -- The part of `m_list` for a list that begins with a name.
  abbrev pub list_by_name : State → Atom → List Atom → Option (State × List (Out Atom))
  list_by_name st a l =
      if is_string a then input st (find_parameter st (get_string a) none) l else some (st, [])

  -- The id that the first atom is, in an `int16_t`; 0 if it is no number.
  unfoldable pub list_id : Atom → ℤ
  unfolding to_int16
  list_id a = if can_be_int a then to_int16 (get_a_int a (pos 0)) else pos 0

  unfoldable pub m_list : State → List Atom → Option (State × List (Out Atom))
  unfolding input list_id last_atom set_atom_value
  m_list st [] = none
  m_list st (a ∷ l) = if eq_ℤ (list_id a) (pos 0) then list_by_name st a l else do
    atom ← last_atom (a ∷ l)
    let (st', was_set) = set_atom_value st (m.get_parameter st (list_id a)) atom
    if was_set then some (update st', []) else list_by_name st' a l

  unfoldable pub m_any : State → Text → List Atom → Option (State × List (Out Atom))
  unfolding input
  m_any st sym argv = input st (find_parameter st sym none) argv

  -- A line on the console for each parameter, with its label, whose text is read. A null pointer is
  -- read there.
  unfoldable pub post_labels : State → List Param → Option (List (Out Atom))
  post_labels st [] = some []
  post_labels st (p ∷ l) = do label ← m.label st p; outs ← post_labels st l; some (post ∷ outs)

  unfoldable pub m_bang : State → Option (List (Out Atom))
  unfolding post_labels
  m_bang st = do outs ← post_labels st (m.parameters st); some (post ∷ outs)

  -- dataOut
  unfoldable pub data_out : List ℕ → List (Out Atom)
  unfolding data_atoms
  data_out bs = to_out_list 4 (data_atoms fx bs) ∷ []
