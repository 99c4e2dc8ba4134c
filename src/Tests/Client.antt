-- ===== src/Tests/Client.antt =====
-- rcp.client and rcp.parse on concrete data.
use rcp_flext.Prelude.{
  ℕ, ◌<◌, ◌≡◌, true, pos, to_uint16, text, List, [], ◌∷◌, ◌++◌, Option, none, some, arith, length,
  subst,
}
use rcp_flext.Flext.{Out, PlainAtom, int, symbol, plain-IsFlext, to_out_list, to_out_int}
use rcp_flext.Base.Lookup.{get_parameter}
use rcp_flext.Format.Defs.{returned}
use rcp_flext.Client.Defs.{parameter_added, added_value}
use rcp_flext.Client.Reports.{parameter_added_lem}
use rcp_flext.Parse.Defs.{Parser, parse_list, initialize}
use rcp_flext.Parse.Loop.{parse_list_total}
use rcp_flext.Tests.Samples.{fx}
use rcp_flext.Tests.Nodes.{nodes, Node, inner, nodes-IsTree, nodes-IsNamed}

parameter_added_lem_example :
    (path : List PlainAtom) × (parameter_added fx nodes (pos 5) 2 inner
      ≡ some (
          to_out_int 1 (pos 2)
          ∷ to_out_list 0 (symbol (text "add") ∷ (path ++ int (pos 5) ∷ []))
          ∷ []))
    × (get_parameter fx nodes (pos 5) path none ≡ some inner)
unfolding to_uint16 added_value
parameter_added_lem_example =
    parameter_added_lem fx nodes (pos 5) (nodes-IsTree (pos 5)) (plain-IsFlext true)
      (nodes-IsNamed (pos 5)) 2 inner (omega arith)

-- Each byte is a packet that asks for a parameter's data.
abbrev parse : Parser Node
parse [] = (none, none)
parse (b ∷ bs) = (some bs, some (initialize (pos b)))

takes : (bs rest : List ℕ) → (parse bs).0 ≡ some rest → length rest < length bs
takes [] rest e = cc
takes (b ∷ bs) rest e =
    subst (λ o. elim o [ none ↦ Unit | some l ↦ length l < length (b ∷ bs) ]) e (omega arith)

parse_list_total_example :
    (r : Option (List (Out PlainAtom))) × (parse_list fx nodes
        (pos 5)
        parse
        3
        (int (pos 4) ∷ int (pos 9) ∷ [])
      ≡ returned r)
parse_list_total_example =
    parse_list_total fx nodes (pos 5) (record { takes = takes }) 3 (int (pos 4) ∷ int (pos 9) ∷ [])
      (omega arith)
