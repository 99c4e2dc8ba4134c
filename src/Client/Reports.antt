-- ===== src/Client/Reports.antt =====
-- The reports of ParameterClient.cpp name the parameter by a path that leads to it.
use mathlib.Core.List.{append_assoc}
use rcp_flext.Prelude.{
  ℕ, ◌+◌, ◌<◌, ◌≤◌, ◌≡◌, ◌≢◌, Text, text, List, [], ◌∷◌, ◌++◌, map, none, some, reverse, arith,
  length, length-append, length-map, to_uint16,
}
use rcp_flext.Flext.{Flext, IsFlext, to_out_int, to_out_list, emit, emit_fits}
use rcp_flext.Manager.{Manager, IsTree, IsNamed}
use rcp_flext.Base.Lookup.{get_parameter, get_parents, label_or}
use rcp_flext.Base.Paths.{get_parents_total, get_parameter-get_parents}
use rcp_flext.Base.Output.{path_atoms, length-reverse}
use rcp_flext.Client.Defs.{
  added_value, added_other, added_atoms, message, parameter_added, parameter_removed,
}

module _ (fx : Flext) (m : Manager fx) (st : m.State) where
  open fx use {Atom, set_string, set_symbol, blank}
  open m use {Param, id, label, is_value}

  length-added_atoms : (p : Param) → length (added_atoms fx m st p) ≤ 1
  unfolding added_value added_other
  length-added_atoms p = ground arith

  -- A message fits a vector of two entries more than the groups and the rest.
  message_fits :
      (word : Text) (p : Param) (groups : List Text) (rest : List Atom) (len : ℕ)
      → length rest + 2 + length groups ≤ len
      → emit blank len (message fx m st word p groups rest)
        ≡ some (message fx m st word p groups rest)
  message_fits word p groups rest len h =
      let label_atom = set_symbol (label_or (text "<nolabel>") (label st p)) in
      emit_fits blank len (message fx m st word p groups rest) (
        omega (
          arith,
          length-append (map set_string (reverse groups)) (label_atom ∷ rest),
          length-map set_string (reverse groups),
          length-reverse groups,
        ))

  -- Neither report is written beyond its vector.
  pub parameter_added_total :
      (rounds : ℕ) (p : Param) (groups : List Text)
      → get_parents fx m st rounds p ≡ some groups
      → parameter_added fx m st rounds p ≢ none
  unfolding parameter_added
  parameter_added_total rounds p groups around =
      let sent =
        message_fits (text "add") p groups (added_atoms fx m st p) (3 + length groups)
          (omega (arith, length-added_atoms p)) in
      rw (around, sent) (λ e. cc)

  pub parameter_removed_total :
      (rounds : ℕ) (p : Param) (groups : List Text)
      → get_parents fx m st rounds p ≡ some groups
      → parameter_removed fx m st rounds p ≢ none
  unfolding parameter_removed
  parameter_removed_total rounds p groups around =
      let sent = message_fits (text "remove") p groups [] (2 + length groups) (omega arith) in
      rw (around, sent) (λ e. cc)

  module _ {depth : Param → ℕ} (tree : IsTree m st depth) (laws : IsFlext fx)
      (names : IsNamed m st) where
    -- A parameter that goes is reported as its id modulo 2^16 on outlet 1 and then, on outlet
    -- 0, a list of "remove" and a path by which the object finds the parameter. Given that
    -- the parents form a tree, with more rounds than the parameter is deep, that flext keeps
    -- texts as documented, and that parameters have labels and are found by them in their
    -- groups.
    pub parameter_removed_lem :
        (rounds : ℕ) (p : Param)
        → depth p < rounds
        → (path : List Atom) × (parameter_removed fx m st rounds p
            ≡ some (
                to_out_int 1 (to_uint16 (id st p))
                ∷ to_out_list 0 (set_symbol (text "remove") ∷ path)
                ∷ []))
          × (get_parameter fx m st path none ≡ some p)
    unfolding parameter_removed
    parameter_removed_lem rounds p deep =
        let (groups, around) = get_parents_total fx m st tree rounds p deep in
        let (t, name) = names.named p in
        let sent = message_fits (text "remove") p groups [] (2 + length groups) (omega arith) in
        (
          path_atoms fx m st groups t,
          rw (around, sent, name),
          get_parameter-get_parents fx m st tree laws names rounds p groups t around name,
        )

    -- A parameter that comes is reported as its id modulo 2^16 on outlet 1 and then, on
    -- outlet 0, a list of "add", a path, and the value or the kind. The path is one by which
    -- the object finds the parameter. Given that the parents form a tree, with more rounds
    -- than the parameter is deep, that flext keeps texts as documented, and that parameters
    -- have labels and are found by them in their groups.
    pub parameter_added_lem :
        (rounds : ℕ) (p : Param)
        → depth p < rounds
        → (path : List Atom) × (parameter_added fx m st rounds p
            ≡ some (
                to_out_int 1 (to_uint16 (id st p))
                ∷ to_out_list 0 (set_symbol (text "add") ∷ (path ++ added_atoms fx m st p))
                ∷ []))
          × (get_parameter fx m st path none ≡ some p)
    unfolding parameter_added
    parameter_added_lem rounds p deep =
        let (groups, around) = get_parents_total fx m st tree rounds p deep in
        let (t, name) = names.named p in
        let sent =
          message_fits (text "add") p groups (added_atoms fx m st p) (3 + length groups)
            (omega (arith, length-added_atoms p)) in
        (
          path_atoms fx m st groups t,
          rw (around, sent, name) (simp append_assoc),
          get_parameter-get_parents fx m st tree laws names rounds p groups t around name,
        )
