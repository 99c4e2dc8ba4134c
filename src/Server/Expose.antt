-- ===== src/Server/Expose.antt =====
-- ParameterServer.cpp: `exposeParameter`, `createGroups`, and the messages that remove a parameter or
-- set its readonly flag, order and limits.
use rcp_flext.Prelude.{
  ◌≡◌, refl, Bool, true, false, not, ℤ, pos, Text, List, [], ◌∷◌, ◌++◌, Option, none, some, ◌>>=◌,
  if◌then◌else◌, Bool-cases, inl, inr, to_text,
}
use rcp_flext.Flext.{Flext, Out, error, post}
use rcp_flext.Rcp.{Datatype, invalid, boolean, int32, float32, string, bang}
use rcp_flext.Manager.{Manager}
use rcp_flext.Format.Settings.{type_of_letter, first_char}
use rcp_flext.Server.Options.{Options, no_options, option_loop, arguments}

-- The server of the rcp library (a git submodule), as parameters.
pub record ServerLib (fx : Flext) (m : Manager fx) : Type 0 where
  -- rcp_server_find_group, rcp_server_create_group: a null group is none
  pub find_group : m.State → Text → Option m.Param → Option m.Param
  pub create_group : m.State → Text → Option m.Param → m.State × Option m.Param
  -- rcp_server_expose_f32, …_i32, …_bool, …_string, …_bang
  pub expose : m.State → Datatype → Text → Option m.Param → m.State × Option m.Param
  -- rcp_server_remove_parameter_id, rcp_server_update
  pub remove_parameter_id : m.State → ℤ → m.State × Bool
  pub update : m.State → m.State
  -- rcp_parameter_set_…
  pub set_min_float : m.State → m.Param → fx.Float → m.State
  pub set_max_float : m.State → m.Param → fx.Float → m.State
  pub set_min_int32 : m.State → m.Param → ℤ → m.State
  pub set_max_int32 : m.State → m.Param → ℤ → m.State
  pub set_order : m.State → m.Param → ℤ → m.State
  pub set_readonly : m.State → m.Param → Bool → m.State
  -- rcp_parameter_set_user with rcp_parameter_set_value_updated_cb or rcp_bang_parameter_set_bang_cb
  pub watch : m.State → m.Param → m.State

module _ (fx : Flext) (m : Manager fx) (lib : ServerLib fx m) where
  open fx use {
    Atom, Float, is_string, is_float, get_string, can_be_int, can_be_float, get_a_int, get_a_float,
    float_to_int, int_to_float,
  }
  open m use {State, Param, find_parameter, type_id, id}
  open lib use {
    find_group, create_group, expose, remove_parameter_id, update, set_min_float, set_max_float,
    set_min_int32, set_max_int32, set_order, set_readonly, watch,
  }

  -- ParameterServerClientBase::GetAsString
  unfoldable pub get_as_string : Atom → Text
  unfolding to_text
  get_as_string a =
      if is_string a
      then get_string a
      else (if fx.is_int a
          then to_text (fx.get_int a)
          else (if is_float a then fx.float_text (get_a_float a) else []))

  -- The group of a name, which is made if it is not there.
  abbrev pub enter_group : State → Text → Option Param → State × Option Param
  enter_group st name last_group = elim (find_group st name last_group) [
    | none ↦ create_group st name last_group
    | some g ↦ (st, some g)
  ]

  -- The groups entered, the label, and a failure; an empty label when a name is no string.
  pub record Place : Type 0 where
    pub state : State
    pub group : Option Param
    pub label : Text
    pub outs : List (Out Atom)

  -- createGroups, which reads `argv[argc-1]`; `argc` is 1 at least where it is called.
  unfoldable pub create_groups : State → List Atom → Option Param → Option Place
  create_groups st [] g = none
  create_groups st (a ∷ []) g =
      some (record { state = st; group = g; label = get_as_string a; outs = [] })
  create_groups st (a ∷ b ∷ l) g = elim (is_string a) [
    | false ↦ some (record { state = st; group = none; label = []; outs = post ∷ [] })
    | true ↦ let (st', g') = enter_group st (get_as_string a) g in create_groups st' (b ∷ l) g'
  ]

  abbrev pub if_set : {B : Type 0} → Option B → (B → State → State) → State → State
  if_set none f st = st
  if_set (some b) f st = f b st

  abbrev pub set_common : Options fx → Param → State → State
  set_common o p st =
      if_set o.readonly (λ b s. set_readonly s p b) (if_set o.order (λ i s. set_order s p i) st)

  -- The `switch` on the type, once the parameter `p` is exposed.
  unfoldable pub set_up : Datatype → Options fx → Param → State → State
  set_up float32 o p st =
      let st1 = watch st p in
      let st2 = if_set o.min (λ f s. set_min_float s p f) st1 in
      let st3 = if_set o.max (λ f s. set_max_float s p f) st2 in
      m.set_value_float (set_common o p st3) p (int_to_float (pos 0))
  set_up int32 o p st =
      let st1 = watch st p in
      let st2 = if_set o.min (λ f s. set_min_int32 s p (float_to_int f)) st1 in
      let st3 = if_set o.max (λ f s. set_max_int32 s p (float_to_int f)) st2 in
      m.set_value_int32 (set_common o p st3) p (pos 0)
  set_up boolean o p st = m.set_value_bool (set_common o p (watch st p)) p false
  set_up string o p st = m.set_value_string (set_common o p (watch st p)) p []
  set_up bang o p st = watch (set_common o p st) p
  set_up _ o p st = st

  abbrev pub is_empty : Text → Bool
  is_empty [] = true
  is_empty (c ∷ t) = false

  -- From the label on: look for the parameter, and expose it.
  unfoldable pub expose_at : Datatype → Options fx → Place → State × List (Out Atom)
  unfolding set_up
  expose_at type o place =
      if is_empty place.label
      then (place.state, place.outs ++ error ∷ [])
      else elim (find_parameter place.state place.label place.group) [
        | some p ↦ (place.state, place.outs ++ error ∷ [])
        | none ↦
            let (st', made) = expose place.state type place.label place.group in
            elim made [
              | none ↦ (update st', place.outs ++ post ∷ [])
              | some p ↦ (update (set_up type o p st'), place.outs)
            ]
      ]

  abbrev pub is_invalid : Datatype → Bool
  is_invalid invalid = true
  is_invalid _ = false

  -- exposeParameter
  unfoldable pub expose_parameter : State → List Atom → Option (State × List (Out Atom))
  unfolding type_of_letter option_loop arguments create_groups expose_at
  expose_parameter st [] = some (st, post ∷ [])
  expose_parameter st (a ∷ []) = some (st, post ∷ [])
  expose_parameter st (a ∷ b ∷ l) =
      let type = type_of_letter (first_char (get_string a)) in
      let o = option_loop fx l (no_options fx) in
      if not (is_string a)
      then some (st, post ∷ [])
      else (if is_invalid type then some (st, post ∷ []) else (do
        place ← create_groups st (b ∷ arguments fx l) none
        let (st', outs) = expose_at type o place
        some (st', o.errors ++ outs)))

  create_groups_total :
      (st : State) (a : Atom) (l : List Atom) (g : Option Param)
      → (p : Place) × (create_groups st (a ∷ l) g ≡ some p)
  unfolding create_groups
  create_groups_total st a [] g = (_, refl)
  create_groups_total st a (b ∷ l) g = elim (Bool-cases (is_string a)) [
    | inl e ↦
        let r = enter_group st (get_as_string a) g in
        let (p, h) = create_groups_total r.0 b l r.1 in (p, rw (create_groups, e, h))
    | inr e ↦
        (record { state = st; group = none; label = []; outs = post ∷ [] }, rw (create_groups, e))
  ]

  expose_rest :
      (st : State) (type : Datatype) (o : Options fx) (b : Atom) (l : List Atom)
      → (r : State × List (Out Atom)) × ((do
        place ← create_groups st (b ∷ arguments fx l) none
        let (st', outs) = expose_at type o place
        some (st', o.errors ++ outs))
          ≡ some r)
  expose_rest st type o b l =
      let (place, h) = create_groups_total st b (arguments fx l) none in
      (((expose_at type o place).0, o.errors ++ (expose_at type o place).1), rw h)

  -- Every `expose` message, of any atoms and any number of them, is handled without a read out
  -- of bounds.
  pub expose_parameter_total :
      (st : State) (argv : List Atom)
      → (r : State × List (Out Atom)) × (expose_parameter st argv ≡ some r)
  unfolding expose_parameter
  expose_parameter_total st [] = (_, refl)
  expose_parameter_total st (a ∷ []) = (_, refl)
  expose_parameter_total st (a ∷ b ∷ l) = elim (Bool-cases (not (is_string a))) [
    | inl e ↦ ((st, post ∷ []), rw e)
    | inr e ↦ elim (Bool-cases (is_invalid (type_of_letter (first_char (get_string a))))) [
      | inl e' ↦ ((st, post ∷ []), rw (e, e'))
      | inr e' ↦
          let (r, h) =
            expose_rest st (type_of_letter (first_char (get_string a)))
              (option_loop fx l (no_options fx)) b l in
          (r, rw (e, e') h)
    ]
  ]
