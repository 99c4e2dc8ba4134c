-- ===== src/Base/Readable.antt =====
-- Questions about parameters that are well-formed have an answer, and so has an update.
use rcp_flext.Prelude.{
  ◌≡◌, refl, ◌≢◌, inl, inr, Bool, true, false, Text, text, List, [], ◌∷◌, map, reverse, Option,
  none, some, ◌>>=◌, Option-cases, arith, if◌then◌else◌,
}
use rcp_flext.Flext.{Flext, Out}
use rcp_flext.Rcp.{Datatype, string}
use rcp_flext.Manager.{Manager}
use rcp_flext.Base.Input.{post_labels, m_bang}
use rcp_flext.Base.Lookup.{get_parameter, get_parents}
use rcp_flext.Base.Query.{
  info_atoms, value_atoms, output_info, info_loop, ask, string_atom, parameter_update,
}
use rcp_flext.Base.Query.Answers.{output_info_lem, says}
use rcp_flext.Base.Output.{parameter_update_total}
use rcp_flext.Base.Paths.{get_parents_total}
use rcp_flext.Base.Messages.{rounds_of, IsReadable}

module _ (fx : Flext) (m : Manager fx) (st : m.State) (readable : IsReadable m st) where
  open fx use {Atom}
  open m use {Param, type_id}
  open readable use {typed, depth, tree, shallow, whole, labelled}

  pub ask_total :
      (argv : List Atom) (f : Param → Option (List (Out Atom)))
      → ((p : Param) → f p ≢ none)
      → ask fx m st argv f ≢ none
  ask_total argv f h = elim (Option-cases (get_parameter fx m st argv none)) [
    | inl missing ↦ rw (missing, ask) (λ e. cc)
    | inr (p, found) ↦ rw (found, ask) (h p)
  ]

  string_atom_total : (t : Option Text) → t ≢ none → string_atom fx m st t ≢ none
  string_atom_total none h = λ e. h refl
  string_atom_total (some t) h = λ e. cc

  value_atoms_total : (p : Param) (t : Datatype) → type_id st p ≡ t → value_atoms fx m st p ≢ none
  unfolding value_atoms
  value_atoms_total p string e =
      rw (value_atoms, e) (string_atom_total (m.value_string st p) (whole p))
  value_atoms_total p _ e = rw (value_atoms, e) (λ h. cc)

  info_atoms_total : (p : Param) (t : Datatype) → type_id st p ≡ t → info_atoms fx m st p ≢ none
  unfolding info_atoms
  info_atoms_total p string e =
      rw (info_atoms, e) (string_atom_total (m.value_string st p) (whole p))
  info_atoms_total p _ e = rw (info_atoms, e) (λ h. cc)

  pub output_info_total : (p : Param) (argv : List Atom) → output_info fx m st p argv ≢ none
  output_info_total p argv = elim (Option-cases (info_atoms fx m st p)) [
    | inl null ↦ absurd (info_atoms_total p (type_id st p) refl null)
    | inr (xs, e) ↦ rw (output_info_lem fx m st typed p argv, e) (λ h. cc)
  ]

  pub info_loop_total : (ps : List Param) → info_loop fx m st (rounds_of fx m st) ps ≢ none
  unfolding info_loop
  info_loop_total [] = λ e. cc
  info_loop_total (p ∷ ps) =
      let (groups, e) =
        get_parents_total fx m st tree (rounds_of fx m st) p (omega (arith, shallow p)) in
      elim (Option-cases (output_info fx m st p (map fx.set_string (reverse groups)))) [
        | inl none_of_it ↦ absurd (output_info_total p _ none_of_it)
        | inr (out, f) ↦ elim (Option-cases (info_loop fx m st (rounds_of fx m st) ps)) [
          | inl stuck ↦ absurd (info_loop_total ps stuck)
          | inr (outs, g) ↦ rw (e, f, g) (λ h. cc)
        ]
      ]

  post_labels_total : (ps : List Param) → post_labels fx m st ps ≢ none
  unfolding post_labels
  post_labels_total [] = λ e. cc
  post_labels_total (p ∷ ps) = elim (Option-cases (m.label st p)) [
    | inl null ↦ absurd (labelled p null)
    | inr (t, e) ↦ elim (Option-cases (post_labels fx m st ps)) [
      | inl stuck ↦ absurd (post_labels_total ps stuck)
      | inr (outs, f) ↦ rw (e, f) (λ h. cc)
    ]
  ]

  pub m_bang_total : m_bang fx m st ≢ none
  unfolding m_bang
  m_bang_total = elim (Option-cases (post_labels fx m st (m.parameters st))) [
    | inl stuck ↦ absurd (post_labels_total (m.parameters st) stuck)
    | inr (outs, f) ↦ rw f (λ h. cc)
  ]

  pub said_value_total :
      (p : Param) (argv : List Atom)
      → (value_atoms fx m st p >>= λ xs. says fx m st (text "value") argv xs) ≢ none
  said_value_total p argv = elim (Option-cases (value_atoms fx m st p)) [
    | inl null ↦ absurd (value_atoms_total p (type_id st p) refl null)
    | inr (xs, e) ↦ rw e (λ h. cc)
  ]

  pub limit_total :
      (b : Bool) (question : Text) (argv rest : List Atom)
      → (if b then says fx m st question argv rest else some []) ≢ none
  limit_total true question argv rest = λ e. cc
  limit_total false question argv rest = λ e. cc

  -- The groups around a parameter are found within the rounds.
  pub groups_around :
      (p : Param) → (groups : List Text) × (get_parents fx m st (rounds_of fx m st) p ≡ some groups)
  groups_around p = get_parents_total fx m st tree (rounds_of fx m st) p (omega (arith, shallow p))

  pub updated_total : (p : Param) → parameter_update fx m st (rounds_of fx m st) p ≢ none
  updated_total p =
      let (groups, around) = groups_around p in
      elim (Option-cases (value_atoms fx m st p)) [
        | inl null ↦ absurd (value_atoms_total p (type_id st p) refl null)
        | inr (xs, e) ↦ parameter_update_total fx m st (rounds_of fx m st) p groups xs around e
      ]
