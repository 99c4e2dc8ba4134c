-- ===== src/Tests/Store.antt =====
-- A concrete manager that keeps values of each type, and a message that sets one.
use rcp_flext.Prelude.{
  ◌≡◌, refl, Bool, true, false, ℤ, pos, Text, text, text_eq, [], ◌∷◌, some, inr,
}
use rcp_flext.Flext.{int, symbol, plain-IsFlext, to_out_list}
use rcp_flext.Manager.{Manager, IsTyped}
use rcp_flext.Base.Lookup.{get_parameter}
use rcp_flext.Base.Input.{m_any}
use rcp_flext.Base.Query.{parameter_value}
use rcp_flext.Base.Store.{Same, IsStore}
use rcp_flext.Base.Setting.{m_any-parameter_value}
use rcp_flext.Tests.Samples.{fx}
use rcp_flext.Tests.Nodes.{Node, inner, outer, nodes, nodes-IsTyped}

record Values : Type 0 where
  flag : Bool
  number : ℤ
  float : ℤ
  string : Text

-- The group `g` and its parameter `n`, as in `nodes`.
abbrev values : Manager fx
values = record {
  State = Values;
  Param = Node;
  find_parameter = λ v. nodes.find_parameter (pos 0);
  get_parameter = λ v. nodes.get_parameter (pos 0);
  parameters = λ v. nodes.parameters (pos 0);
  is_group = λ v. nodes.is_group (pos 0);
  is_value = λ v. nodes.is_value (pos 0);
  type_id = λ v. nodes.type_id (pos 0);
  label = λ v. nodes.label (pos 0);
  id = λ v. nodes.id (pos 0);
  parent = λ v. nodes.parent (pos 0);
  readonly = λ v p. false;
  order = λ v p. pos 0;
  value_bool = λ v p. v.flag;
  value_int32 = λ v p. v.number;
  value_float = λ v p. v.float;
  value_string = λ v p. some v.string;
  has_min = λ v p. false;
  has_max = λ v p. false;
  min_int32 = λ v p. pos 0;
  max_int32 = λ v p. pos 0;
  min_float = λ v p. pos 0;
  max_float = λ v p. pos 0;
  set_value_bool = λ v p b. record v { flag = b };
  set_value_int32 = λ v p i. record v { number = i };
  set_value_float = λ v p f. record v { float = f };
  set_value_string = λ v p t. record v { string = t };
  set_dirty = λ v p. v;
  update = λ v. v;
}

abbrev same : (v w : Values) → Same values v w
same v w = record { same_found = λ n g. refl; same_group = λ p. refl; same_type = λ p. refl }

values-IsStore : IsStore values
values-IsStore = record {
  set_bool_same = λ v p b. same v _;
  set_int32_same = λ v p i. same v _;
  set_float_same = λ v p f. same v _;
  set_string_same = λ v p t. same v _;
  bool_kept = λ v p b. refl;
  int32_kept = λ v p i. refl;
  float_kept = λ v p f. refl;
  string_kept = λ v p t. refl;
}

values-IsTyped : (v : Values) → IsTyped values v
values-IsTyped v =
    let t = nodes-IsTyped (pos 0) in
    record {
      boolean-is_value = t.boolean-is_value;
      int32-is_value = t.int32-is_value;
      float32-is_value = t.float32-is_value;
      string-is_value = t.string-is_value;
    }

abbrev zeros : Values
zeros = record { flag = false; number = pos 0; float = pos 0; string = [] }

m_any-parameter_value_example :
    (v : Values) × (m_any fx values zeros (text "g") (symbol (text "n") ∷ int (pos 7) ∷ [])
      ≡ some (v, []))
    × (parameter_value fx values v (symbol (text "g") ∷ symbol (text "n") ∷ [])
        ≡ some (
            to_out_list 3
              (symbol (text "value") ∷ symbol (text "g") ∷ symbol (text "n") ∷ int (pos 7) ∷ [])
            ∷ []))
unfolding text text_eq get_parameter
m_any-parameter_value_example =
    m_any-parameter_value fx values values-IsStore (plain-IsFlext true) values-IsTyped zeros
      (text "g") (symbol (text "n") ∷ []) (int (pos 7)) inner (inr (outer, refl, refl)) refl refl
      refl
