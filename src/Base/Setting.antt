-- ===== src/Base/Setting.antt =====
-- ParameterServerClientBase.cpp: a message that sets a value, and the answer to `value` after it.
use rcp_flext.Prelude.{
  ◌≡◌, refl, true, false, Text, text, List, [], ◌∷◌, ◌++◌, Option, none, some, ◌⊎◌, inl, inr, ◌∙◌,
  sym, Option-cases,
}
use mathlib.Core.Option.{some-injective}
use rcp_flext.Flext.{Flext, IsFlext}
use rcp_flext.Manager.{Manager, IsTyped}
use rcp_flext.Base.Lookup.{lookup_path, get_parameter, next_group}
use rcp_flext.Base.Input.{
  but_last, set_atom_value, set_and_update, input_group, input, m_any, is_bang,
}
use rcp_flext.Base.Query.{parameter_value, ask}
use rcp_flext.Base.Query.Answers.{says, parameter_value-ask}
use rcp_flext.Base.Store.{
  IsStore, takes, shown, Stored, stored, takes-is_value, get_parameter-Same, last_atom-snoc,
  but_last-snoc,
}

module _ (fx : Flext) (m : Manager fx) (store : IsStore m) where
  open fx use {Atom, set_symbol}
  open m use {State, Param, find_parameter, is_group, is_value, type_id, update}

  set_and_update-snoc :
      (st : State) (p : Param) (l : List Atom) (a : Atom)
      → is_value st p ≡ true
      → (s : Stored fx m store st p a)
      → set_and_update fx m st p (l ++ a ∷ []) ≡ some (update s.state, [])
  unfolding set_and_update set_atom_value
  set_and_update-snoc st p l a v s = rw (set_and_update, last_atom-snoc fx m l a, v, s.is_set) refl

  input_group-more :
      (st : State) (g p : Param) (b c : Atom) (l : List Atom)
      → get_parameter fx m st (but_last (b ∷ c ∷ l)) (some g) ≡ some p
      → is_group st p ≡ false
      → input_group fx m st g (b ∷ c ∷ l) ≡ set_and_update fx m st p (b ∷ c ∷ l)
  unfolding input_group but_last
  input_group-more st g p b c l e n = rw (input_group, e, n) refl

  input_group-snoc :
      (st : State) (g p : Param) (b : Atom) (l : List Atom) (a : Atom)
      → get_parameter fx m st (b ∷ l) (some g) ≡ some p
      → is_group st p ≡ false
      → input_group fx m st g (b ∷ (l ++ a ∷ [])) ≡ set_and_update fx m st p (b ∷ (l ++ a ∷ []))
  input_group-snoc st g p b [] a e n =
      input_group-more st g p b a [] (rw (but_last-snoc fx m (b ∷ []) a) e) n
  input_group-snoc st g p b (c ∷ l) a e n =
      input_group-more st g p b c (l ++ a ∷ []) (rw (but_last-snoc fx m (b ∷ c ∷ l) a) e) n

  first_found :
      (laws : IsFlext fx) (st : State) (name : Text) (l : List Atom) (g : Option Param)
      → find_parameter st name none ≡ g
      → get_parameter fx m st (set_symbol name ∷ l) none ≡ elim g [
        | none ↦ none
        | some q ↦ lookup_path fx m st l (some q) (next_group fx m st q none)
      ]
  unfolding get_parameter lookup_path
  first_found laws st name l g e =
      rw (laws.is_string-set_symbol name, laws.get_string-set_symbol name, e) refl

  below_group :
      (laws : IsFlext fx) (st : State) (name : Text) (l : List Atom) (g : Param)
      → find_parameter st name none ≡ some g
      → is_group st g ≡ true
      → get_parameter fx m st (set_symbol name ∷ l) none ≡ lookup_path fx m st l (some g) (some g)
  unfolding get_parameter lookup_path
  below_group laws st name l g e is_one =
      rw (laws.is_string-set_symbol name, laws.get_string-set_symbol name, e, is_one) refl

  -- The parameter that the message reaches is the one at the end of the path.
  reaches :
      (laws : IsFlext fx) (st : State) (name : Text) (l : List Atom) (a : Atom) (p : Param)
      → (l ≡ []) ⊎ ((g : Param) × (find_parameter st name none ≡ some g) × (is_group st g ≡ true))
      → get_parameter fx m st (set_symbol name ∷ l) none ≡ some p
      → is_group st p ≡ false
      → is_bang (type_id st p) ≡ false
      → m_any fx m st name (l ++ a ∷ []) ≡ set_and_update fx m st p (l ++ a ∷ [])
  unfolding m_any input get_parameter lookup_path
  reaches laws st name [] a p first found n b = elim (Option-cases (find_parameter st name none)) [
    | inl e ↦ let f = rw (first_found laws st name [] none e) at found in cc
    | inr (q, e) ↦
        let same = some-injective _ _ (rw (first_found laws st name [] (some q) e) at found) in
        rw (m_any, e, same, input, n, b) refl
  ]
  reaches laws st name (c ∷ l) a p (inl e) found n b = cc
  reaches laws st name (c ∷ l) a p (inr (g, e, is_one)) found n b =
      rw (m_any, e, input, is_one)
        (input_group-snoc st g p c l a (sym (below_group laws st name (c ∷ l) g e is_one) ∙ found)
          n)

  -- A message of a path and an atom that the type of the parameter takes, a number for a number
  -- or a toggle and a text for a string, sets the parameter at the end of the path; the answer
  -- to `value` for that path is then the path and the value as the type keeps it. Given that
  -- the path leads to a parameter that is not a group, and begins with a group unless it is one
  -- name long, the documented behaviour of flext's texts, that parameters of the four value
  -- types are value parameters, and that the library keeps a value that is set.
  pub m_any-parameter_value :
      (laws : IsFlext fx) (typed : (st : State) → IsTyped m st)
      → (st : State) (name : Text) (l : List Atom) (a : Atom) (p : Param)
      → (l ≡ []) ⊎ ((g : Param) × (find_parameter st name none ≡ some g) × (is_group st g ≡ true))
      → get_parameter fx m st (set_symbol name ∷ l) none ≡ some p
      → is_group st p ≡ false
      → takes fx m (type_id st p) a ≡ true
      → (st' : State) × (m_any fx m st name (l ++ a ∷ []) ≡ some (st', []))
        × (parameter_value fx m st' (set_symbol name ∷ l)
            ≡ says fx m st' (text "value") (set_symbol name ∷ l) (shown fx m (type_id st p) a))
  m_any-parameter_value laws typed st name l a p first found single h =
      let s = stored fx m store st p a (type_id st p) refl h in
      let (v, not_bang) = takes-is_value fx m store st p a (type_id st p) (typed st) refl h in
      (
        update s.state,
        reaches laws st name l a p first found single not_bang ∙ set_and_update-snoc st p l a v s,
        parameter_value-ask fx m (update s.state) (typed (update s.state)) (set_symbol name ∷ l)
            ∙ rw (ask, get_parameter-Same fx m s.same (set_symbol name ∷ l), found, s.is_shown)
                refl,
      )
