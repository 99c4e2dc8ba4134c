-- ===== src/Base/Paths.antt =====
-- The path of a parameter: the labels of its groups, which `getParents` collects, and its own label.
use rcp_flext.Prelude.{
  ℕ, zero, suc, ◌+◌, ◌<◌, ◌≡◌, refl, true, Text, text, List, [], ◌∷◌, ◌++◌, map, Option, none, some,
  reverse, arith, Option-cases, inl, inr, append_assoc, map-append, ◌∙◌,
}
use mathlib.Core.Option.{some-injective}
use mathlib.Core.List.{reverse-cons}
use rcp_flext.Flext.{Flext, IsFlext}
use rcp_flext.Manager.{Manager, IsTree, IsNamed}
use rcp_flext.Base.Lookup.{
  lookup_path, get_parameter, parents_loop, get_parents, next_group, label_or,
}

no_labels : (labels : List Text) → ¬ (none ≡ some labels)
no_labels labels e = cc

module _ (fx : Flext) (m : Manager fx) (st : m.State) where
  open fx use {Atom, set_string, set_symbol}
  open m use {Param, find_parameter, is_group, label, parent}

  module _ {depth : Param → ℕ} (tree : IsTree m st depth) where
    open tree use {parent_depth, parent-is_group}

    parents_loop_total :
        (rounds : ℕ) (g : Option Param)
        → ((p : Param) → g ≡ some p → depth p + 1 < rounds)
        → 0 < rounds
        → (labels : List Text) × (parents_loop fx m st rounds g ≡ some labels)
    unfolding parents_loop
    parents_loop_total zero g h k = absurd (omega arith)
    parents_loop_total (suc rounds) none h k = ([], refl)
    parents_loop_total (suc rounds) (some g) h k =
        let (labels, e) =
          parents_loop_total rounds (parent st g)
            (λ p q. omega (arith, parent_depth g p q, h g refl)) (omega (arith, h g refl)) in
        (label_or (text "null") (label st g) ∷ labels, rw e)

    -- The loop over the parents of a parameter ends within as many rounds as one more than
    -- the parameter is deep. Given that the parents form a tree.
    pub get_parents_total :
        (rounds : ℕ) (p : Param)
        → depth p < rounds
        → (labels : List Text) × (get_parents fx m st rounds p ≡ some labels)
    unfolding get_parents
    get_parents_total rounds p h =
        parents_loop_total rounds (parent st p) (λ q e. omega (arith, parent_depth p q e))
          (omega arith)

    module _ (laws : IsFlext fx) (names : IsNamed m st) where
      open laws use {
        is_string-set_string, get_string-set_string, is_string-set_symbol, get_string-set_symbol,
      }
      open names use {named, found}

      step_string :
          (p : Param) (t : Text) (rest : List Atom) (param : Option Param)
          → label st p ≡ some t
          → lookup_path fx m st (set_string t ∷ rest) param (parent st p)
            ≡ lookup_path fx m st rest (some p) (next_group fx m st p (parent st p))
      unfolding lookup_path
      step_string p t rest param e = rw (is_string-set_string, get_string-set_string, found p t e)

      step_symbol :
          (p : Param) (t : Text) (rest : List Atom) (param : Option Param)
          → label st p ≡ some t
          → lookup_path fx m st (set_symbol t ∷ rest) param (parent st p)
            ≡ lookup_path fx m st rest (some p) (next_group fx m st p (parent st p))
      unfolding lookup_path
      step_symbol p t rest param e = rw (is_string-set_symbol, get_string-set_symbol, found p t e)

      -- The labels around a group, outermost first, lead to it.
      lookup_groups :
          (rounds : ℕ) (g : Option Param) (labels : List Text) (rest : List Atom)
          → ((q : Param) → g ≡ some q → is_group st q ≡ true)
          → parents_loop fx m st rounds g ≡ some labels
          → lookup_path fx m st (map set_string (reverse labels) ++ rest) none none
            ≡ lookup_path fx m st rest g g
      unfolding parents_loop
      lookup_groups zero g labels rest k e = cc
      lookup_groups (suc rounds) none labels rest k e = rw (← some-injective _ _ e)
      lookup_groups (suc rounds) (some g) labels rest k e =
          let (t, name) = named g in
          elim (Option-cases (parents_loop fx m st rounds (parent st g))) [
            | inl stuck ↦ absurd (no_labels labels (rw stuck at e))
            | inr (inner, deeper) ↦
                let all : t ∷ inner ≡ labels = some-injective _ _ (rw (deeper, name) at e) in
                rw (← all, reverse-cons t inner, map-append)
                  (simp append_assoc (
                    lookup_groups rounds (parent st g) inner (set_string t ∷ rest)
                      (parent-is_group g) deeper
                    ∙ step_string g t rest (parent st g) name
                    ∙ rw (k g refl)))
          ]

      -- The labels of the groups around a parameter, outermost first, and then its own
      -- label, are a path by which the object finds that parameter. Given that the parents
      -- form a tree, that flext keeps texts as documented, that parameters have labels and
      -- are found by them in their groups, and that the labels were collected within the
      -- bound on the rounds.
      pub get_parameter-get_parents :
          (rounds : ℕ) (p : Param) (groups : List Text) (t : Text)
          → get_parents fx m st rounds p ≡ some groups
          → label st p ≡ some t
          → get_parameter fx m st (map set_string (reverse groups) ++ set_symbol t ∷ []) none
            ≡ some p
      unfolding get_parameter get_parents
      get_parameter-get_parents rounds p groups t e name =
          lookup_groups rounds (parent st p) groups (set_symbol t ∷ []) (parent-is_group p) e
          ∙ step_symbol p t [] (parent st p) name
