-- ===== src/Base/Query/Values.antt =====
-- The value in the answers to `value` and `info`.
use rcp_flext.Prelude.{
  ℕ, ◌≡◌, refl, false, ap, sym, Text, text, List, [], ◌∷◌, ◌++◌, none, some, ◌∙◌, append_assoc,
}
use rcp_flext.Flext.{Flext}
use rcp_flext.Rcp.{Datatype, boolean, int32, float32, string}
use rcp_flext.Manager.{Manager, IsTyped}
use rcp_flext.Base.Lookup.{get_parameter}
use rcp_flext.Base.Input.{takes_atom}
use rcp_flext.Base.Query.Defs.{
  type_to_string, value_atoms, info_atoms, parameter_value, parameter_info, atom_if, shows_min,
  shows_max, ask,
}
use rcp_flext.Base.Query.Answers.{says, parameter_value-ask, output_info_lem}

-- The atoms that stand for the value of a parameter, by what the library has under its type.
pub data IsValue {fx : Flext} (m : Manager fx) (st : m.State) (p : m.Param)
    : List fx.Atom → Type 0 where
  a_toggle : m.type_id st p ≡ boolean → IsValue m st p (fx.set_bool (m.value_bool st p) ∷ [])
  a_number : m.type_id st p ≡ int32 → IsValue m st p (fx.set_int (m.value_int32 st p) ∷ [])
  a_float : m.type_id st p ≡ float32 → IsValue m st p (fx.set_float (m.value_float st p) ∷ [])
  a_text :
      (t : Text)
      → m.type_id st p ≡ string
      → m.value_string st p ≡ some t
      → IsValue m st p (fx.set_string t ∷ [])
  no_value : takes_atom (m.type_id st p) ≡ false → IsValue m st p []

module _ (fx : Flext) (m : Manager fx) (st : m.State) where
  open fx use {Atom, set_int, set_string}
  open m use {Param, type_id, id}

  none_of_four :
      (p : Param) (t : Datatype)
      → type_id st p ≡ t
      → takes_atom t ≡ false
      → (value_atoms fx m st p ≡ some []) × (info_atoms fx m st p ≡ some [])
  unfolding value_atoms info_atoms
  none_of_four p boolean e h = cc
  none_of_four p int32 e h = cc
  none_of_four p float32 e h = cc
  none_of_four p string e h = cc
  none_of_four p _ e h = rw (value_atoms, info_atoms, e) (refl, refl)

  IsValue-value_atoms :
      (p : Param) (xs : List Atom) → IsValue m st p xs → value_atoms fx m st p ≡ some xs
  unfolding value_atoms
  IsValue-value_atoms p _ (a_toggle e) = rw (value_atoms, e) refl
  IsValue-value_atoms p _ (a_number e) = rw (value_atoms, e) refl
  IsValue-value_atoms p _ (a_float e) = rw (value_atoms, e) refl
  IsValue-value_atoms p _ (a_text t e f) = rw (value_atoms, e, f) refl
  IsValue-value_atoms p _ (no_value h) = (none_of_four p (type_id st p) refl h).0

  -- The limits that a number has.
  abbrev number_limits : Param → List Atom
  number_limits p =
      atom_if fx m st (shows_min fx m st p) (set_int (m.min_int32 st p))
      ++ atom_if fx m st (shows_max fx m st p) (set_int (m.max_int32 st p))

  abbrev float_limits : Param → List Atom
  float_limits p =
      atom_if fx m st (shows_min fx m st p) (fx.set_float (m.min_float st p))
      ++ atom_if fx m st (shows_max fx m st p) (fx.set_float (m.max_float st p))

  info_number :
      (p : Param) (limits : List Atom)
      → limits ≡ number_limits p
      → type_id st p ≡ int32
      → info_atoms fx m st p ≡ some (set_int (m.value_int32 st p) ∷ limits)
  unfolding info_atoms
  info_number p limits h e =
      rw (info_atoms, e) (ap (λ r. some (set_int (m.value_int32 st p) ∷ r)) (sym h))

  info_float :
      (p : Param) (limits : List Atom)
      → limits ≡ float_limits p
      → type_id st p ≡ float32
      → info_atoms fx m st p ≡ some (fx.set_float (m.value_float st p) ∷ limits)
  unfolding info_atoms
  info_float p limits h e =
      rw (info_atoms, e) (ap (λ r. some (fx.set_float (m.value_float st p) ∷ r)) (sym h))

  IsValue-info_atoms :
      (p : Param) (xs : List Atom)
      → IsValue m st p xs
      → (limits : List Atom) × (info_atoms fx m st p ≡ some (xs ++ limits))
  unfolding info_atoms
  IsValue-info_atoms p _ (a_toggle e) = ([], rw (info_atoms, e) refl)
  IsValue-info_atoms p _ (a_number e) = (number_limits p, info_number p _ refl e)
  IsValue-info_atoms p _ (a_float e) = (float_limits p, info_float p _ refl e)
  IsValue-info_atoms p _ (a_text t e f) = ([], rw (info_atoms, e, f) refl)
  IsValue-info_atoms p _ (no_value h) = ([], (none_of_four p (type_id st p) refl h).1)

  -- A path that leads to a parameter is answered, within the vectors: to `value` by the path
  -- and the value, to `info` by the path, the same value, some more atoms, the id and the type.
  -- The value is a Boolean, an integer, a float or a text by the type of the parameter, as the
  -- library has it, and nothing for the other types. Given that a text is no null pointer, and
  -- that parameters of the four value types are value parameters.
  pub parameter_value_lem :
      (typed : IsTyped m st) (rounds : ℕ) (a : Atom) (l : List Atom) (p : Param) (xs : List Atom)
      → get_parameter fx m st (a ∷ l) none ≡ some p
      → IsValue m st p xs
      → (parameter_value fx m st (a ∷ l) ≡ says fx m st (text "value") (a ∷ l) xs)
        × (limits : List Atom) × (parameter_info fx m st rounds (a ∷ l)
            ≡ says fx m st (text "info") (a ∷ l) (
                xs
                ++ limits
                ++ set_int (id st p) ∷ set_string (type_to_string (type_id st p)) ∷ []))
  unfolding parameter_info
  parameter_value_lem typed rounds a l p xs found v =
      let (limits, shown) = IsValue-info_atoms p xs v in
      (
        parameter_value-ask fx m st typed (a ∷ l)
            ∙ rw (ask, found, IsValue-value_atoms p xs v) refl,
        limits,
        rw
            (
              parameter_info,
              ask,
              found,
              output_info_lem fx m st typed p (a ∷ l),
              shown,
              append_assoc,
            )
            refl,
      )
