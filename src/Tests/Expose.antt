-- ===== src/Tests/Expose.antt =====
-- `expose` messages to the concrete server.
use rcp_flext.Prelude.{
  ℕ, ◌≡◌, refl, true, false, text, text_eq, ◌++◌, pos, List, [], ◌∷◌, none, some,
}
use rcp_flext.Flext.{PlainAtom, int, symbol, error}
use rcp_flext.Base.Lookup.{get_parameter}
use rcp_flext.Server.Options.{arguments}
use rcp_flext.Server.Expose.{expose_parameter, get_as_string}
use rcp_flext.Server.Keeping.{expose_all}
use rcp_flext.Server.Library.{Keeps}
use rcp_flext.Server.Exposed.{expose_parameter-get_parameter}
use rcp_flext.Tests.Samples.{fx}
use rcp_flext.Tests.Tree.{Entry, tree, tree_lib, tree-IsServer}

-- The path `g n`, and a message that exposes an integer there.
abbrev rest : List PlainAtom
rest = symbol (text "n") ∷ symbol (text "@min") ∷ int (pos 4) ∷ []

abbrev two_entries : List Entry
two_entries =
    record { name = 0; owner = none; label = text "g"; is_group = true }
    ∷ record { name = 1; owner = some 0; label = text "n"; is_group = false }
    ∷ []

-- A message for the group itself, which is refused, and one for another parameter.
abbrev more_messages : List (List PlainAtom)
more_messages =
    (symbol (text "b") ∷ symbol (text "g") ∷ [])
    ∷ (symbol (text "s") ∷ symbol (text "g") ∷ symbol (text "m") ∷ [])
    ∷ []

abbrev three_entries : List Entry
three_entries =
    two_entries ++ record { name = 2; owner = some 0; label = text "m"; is_group = false } ∷ []

expose_parameter-get_parameter_example :
    ((p : ℕ) × (get_parameter fx tree three_entries
          (symbol (text "g") ∷ symbol (text "n") ∷ [])
          none
        ≡ some p))
    × (expose_parameter fx tree tree_lib three_entries
          (symbol (text "i") ∷ symbol (text "g") ∷ rest)
        ≡ some (three_entries, error ∷ []))
    × Keeps tree [] three_entries
unfolding text expose_parameter arguments get_as_string text_eq expose_all
expose_parameter-get_parameter_example =
    expose_parameter-get_parameter fx tree tree_lib tree-IsServer [] two_entries three_entries
      (symbol (text "i")) (symbol (text "g")) rest more_messages refl (λ e. refl, tt) refl refl
