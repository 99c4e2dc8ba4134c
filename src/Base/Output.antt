-- ===== src/Base/Output.antt =====
-- What an object sends when a parameter has changed (ParameterServerClientBase::parameterUpdate).
use mathlib.Core.List.{reverse-cons, append_assoc}
use rcp_flext.Prelude.{
  ℕ, ◌+◌, ◌<◌, ◌≤◌, ◌≡◌, ◌≢◌, refl, Text, text, List, [], ◌∷◌, ◌++◌, map, none, some, reverse,
  arith, length, length-append, length-map, ap,
}
use rcp_flext.Flext.{Flext, IsFlext, to_out_int, to_out_list, emit, emit_fits}
use rcp_flext.Manager.{Manager, IsTree, IsNamed}
use rcp_flext.Base.Lookup.{get_parameter, get_parents, label_or}
use rcp_flext.Base.Paths.{get_parents_total, get_parameter-get_parents}
use rcp_flext.Base.Query.{value_atoms, parameter_update}

pub length-reverse : {A : Type 0} (xs : List A) → length (reverse xs) ≡ length xs
length-reverse [] = refl
length-reverse (x ∷ xs) =
    omega
      (arith, ap length (reverse-cons x xs), length-append (reverse xs) (x ∷ []), length-reverse xs)

module _ (fx : Flext) (m : Manager fx) (st : m.State) where
  open fx use {Atom, set_string, set_symbol, blank}
  open m use {Param, id, label}

  pub value_atoms-le :
      (p : Param) (xs : List Atom) → value_atoms fx m st p ≡ some xs → length xs ≤ 1
  unfolding value_atoms
  value_atoms-le p xs e = ground arith

  -- The path by which an update names its parameter.
  abbrev pub path_atoms : List Text → Text → List Atom
  path_atoms groups t = map set_string (reverse groups) ++ set_symbol t ∷ []

  update_fits :
      (label_atom : Atom) (groups : List Text) (p : Param) (value : List Atom)
      → value_atoms fx m st p ≡ some value
      → let xs =
          set_symbol (text "update") ∷ (map set_string (reverse groups) ++ label_atom ∷ value) in
        emit blank (3 + length groups) xs ≡ some xs
  update_fits label_atom groups p value e = emit_fits blank (3 + length groups) _ (
      omega (
        arith,
        length-append (map set_string (reverse groups)) (label_atom ∷ value),
        length-map set_string (reverse groups),
        length-reverse groups,
        value_atoms-le p value e,
      ))

  -- The report is not written beyond its vector.
  pub parameter_update_total :
      (rounds : ℕ) (p : Param) (groups : List Text) (value : List Atom)
      → get_parents fx m st rounds p ≡ some groups
      → value_atoms fx m st p ≡ some value
      → parameter_update fx m st rounds p ≢ none
  unfolding parameter_update
  parameter_update_total rounds p groups value around e =
      rw
        (
          around,
          e,
          update_fits (set_symbol (label_or (text "<nolabel>") (label st p))) groups p value e,
        )
        (λ h. cc)

  -- An update is reported as the id on outlet 1 and then, on outlet 0, a list of "update", a
  -- path, and the value. The path is one by which the object finds that parameter again. Given
  -- that the parents form a tree, with more rounds than the parameter is deep, that flext keeps
  -- texts and numbers as documented, that parameters have labels and are found by them in their
  -- groups, and that the value of the parameter is defined.
  pub parameter_update_lem :
      {depth : Param → ℕ} (tree : IsTree m st depth) (laws : IsFlext fx) (names : IsNamed m st)
      (rounds : ℕ) (p : Param) (value : List Atom)
      → depth p < rounds
      → value_atoms fx m st p ≡ some value
      → (path : List Atom) × (parameter_update fx m st rounds p
          ≡ some (
              to_out_int 1 (id st p)
              ∷ to_out_list 0 (set_symbol (text "update") ∷ (path ++ value))
              ∷ []))
        × (get_parameter fx m st path none ≡ some p)
  unfolding parameter_update
  parameter_update_lem tree laws names rounds p value deep e =
      let (groups, around) = get_parents_total fx m st tree rounds p deep in
      let (t, name) = names.named p in
      (
        path_atoms groups t,
        rw (around, e, name, update_fits (set_symbol t) groups p value e) (simp append_assoc),
        get_parameter-get_parents fx m st tree laws names rounds p groups t around name,
      )
