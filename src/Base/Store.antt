-- ===== src/Base/Store.antt =====
-- A value that a message sets, and the answer to `value` after it.
use rcp_flext.Prelude.{
  ◌≡◌, refl, Bool, true, false, ℤ, pos, ltb_ℤ, Text, List, [], ◌∷◌, ◌++◌, Option, none, some, inl,
  inr, ap, Option-cases,
}
use rcp_flext.Flext.{Flext}
use rcp_flext.Rcp.{Datatype, boolean, int32, float32, string}
use rcp_flext.Manager.{Manager, IsTyped}
use rcp_flext.Base.Lookup.{lookup_path, get_parameter, next_group}
use rcp_flext.Base.Input.{last_atom, but_last, set_typed, is_bang}
use rcp_flext.Base.Query.{value_atoms}

-- Two states with the same parameters, whatever their values.
pub record Same {fx : Flext} (m : Manager fx) (st st' : m.State) : Type 0 where
  pub same_found :
      (n : Text) (g : Option m.Param) → m.find_parameter st' n g ≡ m.find_parameter st n g
  pub same_group : (p : m.Param) → m.is_group st' p ≡ m.is_group st p
  pub same_type : (p : m.Param) → m.type_id st' p ≡ m.type_id st p

-- What the rcp library (a git submodule) promises of values: one that is set is kept, and the
-- parameters stay as they are.
pub record IsStore {fx : Flext} (m : Manager fx) : Type 0 where
  pub set_bool_same :
      (st : m.State) (p : m.Param) (b : Bool) → Same m st (m.update (m.set_value_bool st p b))
  pub set_int32_same :
      (st : m.State) (p : m.Param) (i : ℤ) → Same m st (m.update (m.set_value_int32 st p i))
  pub set_float_same :
      (st : m.State) (p : m.Param) (f : fx.Float) → Same m st (m.update (m.set_value_float st p f))
  pub set_string_same :
      (st : m.State) (p : m.Param) (t : Text) → Same m st (m.update (m.set_value_string st p t))
  pub bool_kept :
      (st : m.State) (p : m.Param) (b : Bool)
      → m.value_bool (m.update (m.set_value_bool st p b)) p ≡ b
  pub int32_kept :
      (st : m.State) (p : m.Param) (i : ℤ)
      → m.value_int32 (m.update (m.set_value_int32 st p i)) p ≡ i
  pub float_kept :
      (st : m.State) (p : m.Param) (f : fx.Float)
      → m.value_float (m.update (m.set_value_float st p f)) p ≡ f
  pub string_kept :
      (st : m.State) (p : m.Param) (t : Text)
      → m.value_string (m.update (m.set_value_string st p t)) p ≡ some t

module _ (fx : Flext) (m : Manager fx) where
  open fx use {
    Atom, is_string, can_be_int, can_be_float, get_a_int, get_a_float, get_string, set_bool,
    set_int, set_float, set_string, set_symbol,
  }
  open m use {State, Param, find_parameter, is_group, is_value, type_id, update}

  -- Whether a parameter of the type takes the atom, and as what it shows it.
  abbrev pub takes : Datatype → Atom → Bool
  takes boolean a = can_be_int a
  takes int32 a = can_be_int a
  takes float32 a = can_be_float a
  takes string a = is_string a
  takes _ a = false

  abbrev pub shown : Datatype → Atom → List Atom
  shown boolean a = set_bool (ltb_ℤ (pos 0) (get_a_int a (pos 0))) ∷ []
  shown int32 a = set_int (get_a_int a (pos 0)) ∷ []
  shown float32 a = set_float (get_a_float a) ∷ []
  shown string a = set_string (get_string a) ∷ []
  shown _ a = []

  lookup_path-Same :
      {st st' : State}
      → Same m st st'
      → (path : List Atom) (param g : Option Param)
      → lookup_path fx m st' path param g ≡ lookup_path fx m st path param g
  unfolding lookup_path
  lookup_path-Same same [] param g = refl
  lookup_path-Same {st} {st'} same (a ∷ l) param g =
      elim (Option-cases (find_parameter st (get_string a) g)) [
        | inl e ↦ rw (lookup_path, same.same_found (get_string a) g, e) refl
        | inr (q, e) ↦
            rw
              (
                lookup_path,
                same.same_found (get_string a) g,
                e,
                same.same_group q,
                lookup_path-Same same l (some q) (next_group fx m st q g),
              )
              refl
      ]

  pub get_parameter-Same :
      {st st' : State}
      → Same m st st'
      → (path : List Atom) → get_parameter fx m st' path none ≡ get_parameter fx m st path none
  unfolding get_parameter
  get_parameter-Same same path = lookup_path-Same same path none none

  pub last_atom-snoc : (l : List Atom) (a : Atom) → last_atom (l ++ a ∷ []) ≡ some a
  unfolding last_atom
  last_atom-snoc [] a = refl
  last_atom-snoc (b ∷ []) a = refl
  last_atom-snoc (b ∷ c ∷ l) a = last_atom-snoc (c ∷ l) a

  pub but_last-snoc : (l : List Atom) (a : Atom) → but_last (l ++ a ∷ []) ≡ l
  unfolding but_last
  but_last-snoc [] a = refl
  but_last-snoc (b ∷ []) a = refl
  but_last-snoc (b ∷ c ∷ l) a = ap (λ t. b ∷ t) (but_last-snoc (c ∷ l) a)

  module _ (store : IsStore m) where
    -- What setting a value leaves.
    pub record Stored (st : State) (p : Param) (a : Atom) : Type 0 where
      pub state : State
      pub is_set : set_typed fx m st p a ≡ (state, true)
      pub same : Same m st (update state)
      pub is_shown : value_atoms fx m (update state) p ≡ some (shown (type_id st p) a)

    pub stored :
        (st : State) (p : Param) (a : Atom) (type : Datatype)
        → type_id st p ≡ type
        → takes type a ≡ true
        → Stored st p a
    unfolding set_typed value_atoms
    stored st p a boolean e h =
        let v = ltb_ℤ (pos 0) (get_a_int a (pos 0)) in
        let same = store.set_bool_same st p v in
        record {
          state = m.set_value_bool st p v;
          is_set = rw (set_typed, e, h);
          same = same;
          is_shown = rw (value_atoms, same.same_type p, e, store.bool_kept st p v);
        }
    stored st p a int32 e h =
        let v = get_a_int a (pos 0) in
        let same = store.set_int32_same st p v in
        record {
          state = m.set_value_int32 st p v;
          is_set = rw (set_typed, e, h);
          same = same;
          is_shown = rw (value_atoms, same.same_type p, e, store.int32_kept st p v);
        }
    stored st p a float32 e h =
        let v = get_a_float a in
        let same = store.set_float_same st p v in
        record {
          state = m.set_value_float st p v;
          is_set = rw (set_typed, e, h);
          same = same;
          is_shown = rw (value_atoms, same.same_type p, e, store.float_kept st p v);
        }
    stored st p a string e h =
        let v = get_string a in
        let same = store.set_string_same st p v in
        record {
          state = m.set_value_string st p v;
          is_set = rw (set_typed, e, h);
          same = same;
          is_shown = rw (value_atoms, same.same_type p, e, store.string_kept st p v);
        }
    stored st p a _ e h = cc

    pub takes-is_value :
        (st : State) (p : Param) (a : Atom) (type : Datatype)
        → IsTyped m st
        → type_id st p ≡ type
        → takes type a ≡ true
        → (is_value st p ≡ true) × (is_bang type ≡ false)
    takes-is_value st p a boolean typed e h = (typed.boolean-is_value p e, refl)
    takes-is_value st p a int32 typed e h = (typed.int32-is_value p e, refl)
    takes-is_value st p a float32 typed e h = (typed.float32-is_value p e, refl)
    takes-is_value st p a string typed e h = (typed.string-is_value p e, refl)
    takes-is_value st p a _ typed e h = cc
