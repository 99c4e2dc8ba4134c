-- ===== src/Base/Within.antt =====
-- What the messages that set a value leave behind, by any relation that the calls of the library
-- respect.
use rcp_flext.Prelude.{
  ◌≡◌, refl, inl, inr, Bool, true, false, pos, eq_ℤ, List, [], ◌∷◌, Option, none, some, Bool-cases,
  Option-cases, if◌then◌else◌,
}
use rcp_flext.Flext.{Flext, Out}
use rcp_flext.Manager.{Manager}
use rcp_flext.Base.Lookup.{get_parameter}
use rcp_flext.Base.Input.{
  last_atom, but_last, is_bang, set_atom_value, set_and_update, input_group, input, list_id,
  list_by_name, m_list,
}
use rcp_flext.Base.Closed.{Managed, Within, set_atom_value_within}

pub last_atom_total : {A : Type 0} (a : A) (l : List A) → (b : A) × (last_atom (a ∷ l) ≡ some b)
unfolding last_atom
last_atom_total a [] = (a, refl)
last_atom_total a (b ∷ l) = last_atom_total b l

module _ (fx : Flext) (m : Manager fx) {R : m.State → m.State → Type 0}
    (managed : Managed m R) where
  open fx use {Atom, is_string, get_string}
  open m use {State, Param, find_parameter, is_group, type_id, update}
  open managed use {values, at_dirty, at_update}
  open values use {stays, joins}

  updated_within :
      (st st' : State) (was_set : Bool) → R st st' → R st (if was_set then update st' else st')
  updated_within st st' true h = joins h (at_update st')
  updated_within st st' false h = h

  set_and_update_within :
      (st : State) (p : Param) (a : Atom) (l : List Atom)
      → Within R st (set_and_update fx m st p (a ∷ l))
  unfolding set_and_update
  set_and_update_within st p a l =
      let (b, e) = last_atom_total a l in
      rw (set_and_update, e)
        (updated_within st _ _ (set_atom_value_within fx m values st (some p) b))

  input_group_within :
      (st : State) (p : Param) (argv : List Atom) → Within R st (input_group fx m st p argv)
  unfolding input_group
  input_group_within st p [] = stays st
  input_group_within st p (a ∷ []) = stays st
  input_group_within st p (a ∷ b ∷ l) =
      elim (Option-cases (get_parameter fx m st (but_last (a ∷ b ∷ l)) (some p))) [
        | inl missing ↦ rw (missing, input_group) (stays st)
        | inr (q, found) ↦ elim (Bool-cases (is_group st q)) [
          | inl g ↦ rw (found, input_group, g) (stays st)
          | inr v ↦ rw (found, input_group, v) (set_and_update_within st q a (b ∷ l))
        ]
      ]

  pub input_within :
      (st : State) (p : Option Param) (a : Atom) (l : List Atom)
      → Within R st (input fx m st p (a ∷ l))
  unfolding input
  input_within st none a l = stays st
  input_within st (some p) a l = elim (Bool-cases (is_group st p)) [
    | inl g ↦ rw g (input_group_within st p (a ∷ l))
    | inr v ↦ elim (Bool-cases (is_bang (type_id st p))) [
      | inl b ↦ rw (v, b) (joins (at_dirty st p) (at_update _))
      | inr n ↦ rw (v, n) (set_and_update_within st p a l)
    ]
  ]

  list_by_name_within :
      (st : State) (a b : Atom) (l : List Atom) → Within R st (list_by_name fx m st a (b ∷ l))
  list_by_name_within st a b l = elim (Bool-cases (is_string a)) [
    | inl named ↦ rw named (input_within st (find_parameter st (get_string a) none) b l)
    | inr unnamed ↦ rw unnamed (stays st)
  ]

  later :
      (st st' : State) (r : Option (State × List (Out Atom)))
      → R st st'
      → Within R st' r
      → Within R st r
  later st st' none h w = w
  later st st' (some r) h w = joins h w

  pub m_list_within :
      (st : State) (a b : Atom) (l : List Atom) → Within R st (m_list fx m st (a ∷ b ∷ l))
  unfolding m_list
  m_list_within st a b l = elim (Bool-cases (eq_ℤ (list_id fx m a) (pos 0))) [
    | inl named ↦ rw named (list_by_name_within st a b l)
    | inr numbered ↦
        let (c, e) = last_atom_total b l in
        let target = m.get_parameter st (list_id fx m a) in
        let r = set_atom_value fx m st target c in
        let w = set_atom_value_within fx m values st target c in
        elim (Bool-cases r.1) [
          | inl done ↦ rw (numbered, e, done) (joins w (at_update _))
          | inr failed ↦ rw (numbered, e, failed) (later st r.0 _ w (list_by_name_within r.0 a b l))
        ]
  ]
