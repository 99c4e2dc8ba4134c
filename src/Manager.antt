-- ===== src/Manager.antt =====
-- The parameters and their manager, which the rcp library (a git submodule) keeps, as parameters. A
-- `Param` is a pointer that is not null; a group is a parameter too.
use rcp_flext.Prelude.{ℕ, ◌<◌, ◌≡◌, Bool, true, ℤ, Text, List, Option, some}
use rcp_flext.Flext.{Flext}
use rcp_flext.Rcp.{Datatype, boolean, int32, float32, string}

pub record Manager (fx : Flext) : Type 1 where
  pub State : Type 0
  pub Param : Type 0
  -- rcp_manager_find_parameter, rcp_manager_get_parameter, rcp_manager_get_paramter_list
  pub find_parameter : State → Text → Option Param → Option Param
  pub get_parameter : State → ℤ → Option Param
  pub parameters : State → List Param
  -- rcp_parameter_is_group, …_is_value, …_get_type_id, …_get_label, …_get_id, …_get_parent
  pub is_group : State → Param → Bool
  pub is_value : State → Param → Bool
  pub type_id : State → Param → Datatype
  pub label : State → Param → Option Text
  pub id : State → Param → ℤ
  pub parent : State → Param → Option Param
  pub readonly : State → Param → Bool
  pub order : State → Param → ℤ
  -- rcp_parameter_get_value_…; a string may be NULL
  pub value_bool : State → Param → Bool
  pub value_int32 : State → Param → ℤ
  pub value_float : State → Param → fx.Float
  pub value_string : State → Param → Option Text
  -- rcp_typedefinition_has_option of the minimum and the maximum, and the limits
  pub has_min : State → Param → Bool
  pub has_max : State → Param → Bool
  pub min_int32 : State → Param → ℤ
  pub max_int32 : State → Param → ℤ
  pub min_float : State → Param → fx.Float
  pub max_float : State → Param → fx.Float
  -- rcp_parameter_set_value_…, rcp_manager_set_dirty, rcp_manager_update
  pub set_value_bool : State → Param → Bool → State
  pub set_value_int32 : State → Param → ℤ → State
  pub set_value_float : State → Param → fx.Float → State
  pub set_value_string : State → Param → Text → State
  pub set_dirty : State → Param → State
  pub update : State → State

-- The parents of a parameter are finitely many: `depth` counts them.
pub record IsTree {fx : Flext} (m : Manager fx) (st : m.State) (depth : m.Param → ℕ) : Type 0 where
  pub parent_depth : (p q : m.Param) → m.parent st p ≡ some q → depth q < depth p
  pub parent-is_group : (p q : m.Param) → m.parent st p ≡ some q → m.is_group st q ≡ true

-- A parameter with one of the four value types is a value parameter.
pub record IsTyped {fx : Flext} (m : Manager fx) (st : m.State) : Type 0 where
  pub boolean-is_value : (p : m.Param) → m.type_id st p ≡ boolean → m.is_value st p ≡ true
  pub int32-is_value : (p : m.Param) → m.type_id st p ≡ int32 → m.is_value st p ≡ true
  pub float32-is_value : (p : m.Param) → m.type_id st p ≡ float32 → m.is_value st p ≡ true
  pub string-is_value : (p : m.Param) → m.type_id st p ≡ string → m.is_value st p ≡ true

-- Every parameter has a label, and is found by it in its group.
pub record IsNamed {fx : Flext} (m : Manager fx) (st : m.State) : Type 0 where
  pub named : (p : m.Param) → (t : Text) × (m.label st p ≡ some t)
  pub found :
      (p : m.Param) (t : Text)
      → m.label st p ≡ some t
      → m.find_parameter st t (m.parent st p) ≡ some p
