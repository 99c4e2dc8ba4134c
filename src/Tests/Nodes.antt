-- ===== src/Tests/Nodes.antt =====
-- Concrete parameters, on which the definitions run.
use rcp_flext.Prelude.{
  ℕ, ◌<◌, ◌≡◌, refl, subst, Bool, true, false, ℤ, pos, wrap, Text, text, text_eq, [], ◌∷◌, Option,
  none, some, if◌then◌else◌, arith,
}
use rcp_flext.Rcp.{Datatype, int32, group, boolean, float32, string}
use rcp_flext.Manager.{Manager, IsTree, IsTyped, IsNamed}
use rcp_flext.Tests.Samples.{fx}

-- A group `g` with an integer parameter `n`, whose value is the state.
pub data Node : Type 0 where
  outer inner : Node

abbrev find_node : ℤ → Text → Option Node → Option Node
find_node v t none = if text_eq t (text "g") then some outer else none
find_node v t (some outer) = if text_eq t (text "n") then some inner else none
find_node v t (some inner) = none

abbrev node_parent : ℤ → Node → Option Node
node_parent v outer = none
node_parent v inner = some outer

abbrev node_type : ℤ → Node → Datatype
node_type v outer = group
node_type v inner = int32

abbrev is_outer : ℤ → Node → Bool
is_outer v outer = true
is_outer v inner = false

abbrev is_inner : ℤ → Node → Bool
is_inner v outer = false
is_inner v inner = true

abbrev node_label : ℤ → Node → Option Text
node_label v outer = some (text "g")
node_label v inner = some (text "n")

abbrev node_id : ℤ → Node → ℤ
node_id v outer = pos 1
node_id v inner = pos 2

abbrev node_of_id : ℤ → ℤ → Option Node
node_of_id v i = if text_eq (wrap 256 i ∷ []) (2 ∷ []) then some inner else none

abbrev pub nodes : Manager fx
nodes = record {
  State = ℤ;
  Param = Node;
  find_parameter = find_node;
  get_parameter = node_of_id;
  parameters = λ v. outer ∷ inner ∷ [];
  is_group = is_outer;
  is_value = is_inner;
  type_id = node_type;
  label = node_label;
  id = node_id;
  parent = node_parent;
  readonly = λ v p. false;
  order = λ v p. pos 0;
  value_bool = λ v p. false;
  value_int32 = λ v p. v;
  value_float = λ v p. v;
  value_string = λ v p. some [];
  has_min = is_inner;
  has_max = λ v p. false;
  min_int32 = λ v p. pos 0;
  max_int32 = λ v p. pos 100;
  min_float = λ v p. pos 0;
  max_float = λ v p. pos 100;
  set_value_bool = λ v p b. v;
  set_value_int32 = λ v p w. w;
  set_value_float = λ v p w. v;
  set_value_string = λ v p t. v;
  set_dirty = λ v p. v;
  update = λ v. v;
}

abbrev pub node_depth : Node → ℕ
node_depth outer = 0
node_depth inner = 1

parent_depth : (v : ℤ) (p q : Node) → node_parent v p ≡ some q → node_depth q < node_depth p
parent_depth v outer q e = cc
parent_depth v inner outer e = omega arith
parent_depth v inner inner e = cc

parent-is_group : (v : ℤ) (p q : Node) → node_parent v p ≡ some q → is_outer v q ≡ true
parent-is_group v outer q e = cc
parent-is_group v inner outer e = refl
parent-is_group v inner inner e = cc

pub nodes-IsTree : (v : ℤ) → IsTree nodes v node_depth
nodes-IsTree v = record { parent_depth = parent_depth v; parent-is_group = parent-is_group v }

pub nodes-IsTyped : (v : ℤ) → IsTyped nodes v
nodes-IsTyped v = record {
  boolean-is_value = λ p e.
      elim p as (λ p. node_type v p ≡ boolean → is_inner v p ≡ true) [
        | outer ↦ λ e. cc
        | inner ↦ λ e. refl
      ]
        e;
  int32-is_value = λ p e.
      elim p as (λ p. node_type v p ≡ int32 → is_inner v p ≡ true) [
        | outer ↦ λ e. cc
        | inner ↦ λ e. refl
      ]
        e;
  float32-is_value = λ p e.
      elim p as (λ p. node_type v p ≡ float32 → is_inner v p ≡ true) [
        | outer ↦ λ e. cc
        | inner ↦ λ e. refl
      ]
        e;
  string-is_value = λ p e.
      elim p as (λ p. node_type v p ≡ string → is_inner v p ≡ true) [
        | outer ↦ λ e. cc
        | inner ↦ λ e. refl
      ]
        e;
}

nodes_found :
    (v : ℤ) (p : Node) (t : Text)
    → node_label v p ≡ some t
    → find_node v t (node_parent v p) ≡ some p
unfolding text text_eq
nodes_found v outer t e =
    subst (λ o. elim o [ none ↦ Unit | some t ↦ find_node v t none ≡ some outer ]) e refl
nodes_found v inner t e =
    subst (λ o. elim o [ none ↦ Unit | some t ↦ find_node v t (some outer) ≡ some inner ]) e refl

nodes_named : (v : ℤ) (p : Node) → (t : Text) × (node_label v p ≡ some t)
nodes_named v outer = (text "g", refl)
nodes_named v inner = (text "n", refl)

pub nodes-IsNamed : (v : ℤ) → IsNamed nodes v
nodes-IsNamed v = record { named = nodes_named v; found = nodes_found v }
