-- ===== src/Base/Safety.antt =====
-- Messages with a value are safe, and what they change.
use rcp_flext.Prelude.{
  ◌≡◌, ◌≢◌, ◌↔◌, refl, inl, inr, Bool, Bool-cases, not, ◌&&◌, true, false, Text, List, [], ◌∷◌,
  Option, none, some,
}
use rcp_flext.Flext.{Flext, Out}
use rcp_flext.Manager.{Manager}
use rcp_flext.Base.Input.{
  is_bang, input, m_list, m_any, takes_atom, input_group, set_and_update, last_atom,
}
use rcp_flext.Base.Closed.{Managed, Within}
use rcp_flext.Base.Within.{input_within, m_list_within}

module _ (fx : Flext) (m : Manager fx) where
  open fx use {Atom}
  open m use {State, Param, find_parameter, is_group, type_id, is_value}

  -- Of what is left, nothing is asked.
  abbrev Any : State → State → Type 0
  Any st st' = Unit

  Any-Managed : Managed m Any
  Any-Managed = record {
    values = record {
      stays = λ st. tt;
      joins = λ {st} {st'} {st''} h k. tt;
      at_bool = λ st p b. tt;
      at_int32 = λ st p i. tt;
      at_float = λ st p f. tt;
      at_string = λ st p t. tt;
    };
    at_dirty = λ st p. tt;
    at_update = λ st. tt;
  }

  within-handled : (st : State) (r : Option (State × List (Out Atom))) → Within Any st r → r ≢ none
  within-handled st none w = absurd (w tt)
  within-handled st (some r) w = λ e. cc

  -- A message with an argument at least, to a name that may stand for a group, a parameter or
  -- nothing, is handled without a read out of bounds.
  pub m_any_total :
      (st : State) (sym : Text) (a : Atom) (l : List Atom) → m_any fx m st sym (a ∷ l) ≢ none
  unfolding m_any
  m_any_total st sym a l =
      within-handled st _ (input_within fx m Any-Managed st (find_parameter st sym none) a l)

  -- A list of two atoms or more, by id or by name, is handled without a read out of bounds.
  pub m_list_total : (st : State) (a b : Atom) (l : List Atom) → m_list fx m st (a ∷ b ∷ l) ≢ none
  m_list_total st a b l = within-handled st _ (m_list_within fx m Any-Managed st a b l)

  -- A parameter for which `_input` reads the atom in front of an empty list.
  abbrev pub reads_before : State → Option Param → Bool
  reads_before st none = false
  reads_before st (some p) =
      not (is_group st p)
      && (not (is_bang (type_id st p)) && (is_value st p && takes_atom (type_id st p)))

  empty_input :
      (st : State) (p : Option Param) → (input fx m st p [] ≡ none) ↔ (reads_before st p ≡ true)
  unfolding input input_group set_and_update last_atom
  empty_input st none = (λ e. cc, λ e. cc)
  empty_input st (some p) = elim (Bool-cases (is_group st p)) [
    | inl g ↦ rw g (λ e. cc, λ e. cc)
    | inr v ↦ elim (Bool-cases (is_bang (type_id st p))) [
      | inl b ↦ rw (v, b) (λ e. cc, λ e. cc)
      | inr n ↦ elim (Bool-cases (is_value st p && takes_atom (type_id st p))) [
        | inl t ↦ rw (v, n, t) (λ e. refl, λ e. refl)
        | inr f ↦ rw (v, n, f) (λ e. cc, λ e. cc)
      ]
    ]
  ]

  -- A message that is a word in no table, with any arguments, reads beyond its arguments
  -- exactly if it has none, and the word is the name of a value parameter of one of the four
  -- value types that is neither a group nor a bang.
  pub m_any_faults :
      (st : State) (sym : Text) (argv : List Atom)
      → (m_any fx m st sym argv ≡ none)
        ↔ ((argv ≡ []) × (reads_before st (find_parameter st sym none) ≡ true))
  unfolding m_any
  m_any_faults st sym [] =
      let (there, back) = empty_input st (find_parameter st sym none) in
      (λ e. (refl, there e), λ h. back h.1)
  m_any_faults st sym (a ∷ l) = (λ e. absurd (m_any_total st sym a l e), λ h. cc)
