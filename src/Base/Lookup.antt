-- ===== src/Base/Lookup.antt =====
-- ParameterServerClientBase.cpp: `getParameter` and `getParents`.
use rcp_flext.Prelude.{
  ℕ, zero, suc, Text, text, List, [], ◌∷◌, Option, none, some, ◌>>=◌, if◌then◌else◌,
}
use rcp_flext.Flext.{Flext}
use rcp_flext.Manager.{Manager}

-- `label != NULL ? label : other`
abbrev pub label_or : Text → Option Text → Text
label_or other none = other
label_or other (some t) = t

module _ (fx : Flext) (m : Manager fx) (st : m.State) where
  open fx use {Atom, is_string, get_string}
  open m use {Param, find_parameter, is_group, label, parent}

  -- The group in which the next name of a path is looked up.
  abbrev pub next_group : Param → Option Param → Option Param
  next_group p last_group = if is_group st p then some p else last_group

  -- The loop of `getParameter`: the atoms left, `param` and `last_group`.
  unfoldable pub lookup_path : List Atom → Option Param → Option Param → Option Param
  lookup_path [] param last_group = param
  lookup_path (a ∷ l) param last_group =
      let found = find_parameter st (get_string a) last_group in
      let next : Option Param = elim found [
        | none ↦ none
        | some p ↦ lookup_path l (some p) (next_group p last_group)
      ] in
      if is_string a then next else none

  unfoldable pub get_parameter : List Atom → Option Param → Option Param
  unfolding lookup_path
  get_parameter argv group = lookup_path argv none group

  -- The `while` of `getParents`, with a bound on the rounds; `none` means that it was reached.
  unfoldable pub parents_loop : ℕ → Option Param → Option (List Text)
  parents_loop zero last_group = none
  parents_loop (suc rounds) none = some []
  parents_loop (suc rounds) (some g) = do
    rest ← parents_loop rounds (parent st g)
    some (label_or (text "null") (label st g) ∷ rest)

  -- The labels of the groups around a parameter, the nearest first.
  unfoldable pub get_parents : ℕ → Param → Option (List Text)
  unfolding parents_loop
  get_parents rounds p = parents_loop rounds (parent st p)
