-- ===== src/Tests/Base.antt =====
-- A group `g` with an integer parameter `n`, asked and set by messages.
use rcp_flext.Prelude.{◌≡◌, refl, true, pos, text, List, [], ◌∷◌, ◌++◌, none, some, arith, text_eq}
use rcp_flext.Flext.{PlainAtom, int, symbol, plain-IsFlext, to_out_list, to_out_int}
use rcp_flext.Base.Lookup.{get_parents, get_parameter}
use rcp_flext.Base.Paths.{get_parameter-get_parents}
use rcp_flext.Base.Output.{parameter_update_lem}
use rcp_flext.Base.Query.{
  parameter_update, type_to_string, parameter_value, parameter_info, value_atoms,
}
use rcp_flext.Base.Query.Answers.{says}
use rcp_flext.Base.Query.Values.{a_number, parameter_value_lem}
use rcp_flext.Tests.Samples.{fx}
use rcp_flext.Tests.Nodes.{nodes, inner, nodes-IsTree, nodes-IsNamed, nodes-IsTyped}

abbrev path : List PlainAtom
path = symbol (text "g") ∷ symbol (text "n") ∷ []

get_parameter-get_parents_example : get_parameter fx nodes (pos 5) path none ≡ some inner
unfolding get_parents
get_parameter-get_parents_example =
    get_parameter-get_parents fx nodes (pos 5) (nodes-IsTree (pos 5)) (plain-IsFlext true)
      (nodes-IsNamed (pos 5)) 2 inner (text "g" ∷ []) (text "n") refl refl

parameter_update_lem_example :
    (p : List PlainAtom) × (parameter_update fx nodes (pos 5) 2 inner
      ≡ some (
          to_out_int 1 (pos 2)
          ∷ to_out_list 0 (symbol (text "update") ∷ (p ++ int (pos 5) ∷ []))
          ∷ []))
    × (get_parameter fx nodes (pos 5) p none ≡ some inner)
unfolding value_atoms
parameter_update_lem_example =
    parameter_update_lem fx nodes (pos 5) (nodes-IsTree (pos 5)) (plain-IsFlext true)
      (nodes-IsNamed (pos 5)) 2 inner (int (pos 5) ∷ []) (omega arith) refl

parameter_value_lem_example :
    (parameter_value fx nodes (pos 5) path
      ≡ some (to_out_list 3 (symbol (text "value") ∷ path ++ int (pos 5) ∷ []) ∷ []))
    × (limits : List PlainAtom) × (parameter_info fx nodes (pos 5) 3 path
        ≡ says fx nodes
            (pos 5)
            (text "info")
            path
            (int (pos 5) ∷ limits ++ int (pos 2) ∷ symbol (text "int") ∷ []))
unfolding get_parameter text_eq text type_to_string
parameter_value_lem_example =
    parameter_value_lem fx nodes (pos 5) (nodes-IsTyped (pos 5)) 3 (symbol (text "g"))
      (symbol (text "n") ∷ []) inner (int (pos 5) ∷ []) refl (a_number refl)
