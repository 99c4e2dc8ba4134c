-- ===== src/Base/Closed.antt =====
-- Relations between the states of the rcp library that its operations respect, and what the handlers
-- of ParameterServerClientBase.cpp then leave behind.
use rcp_flext.Prelude.{
  ◌≡◌, refl, inl, inr, Bool, true, false, ℤ, Text, Option, none, some, Bool-cases,
}
use rcp_flext.Flext.{Flext}
use rcp_flext.Rcp.{Datatype, boolean, int32, float32, string}
use rcp_flext.Manager.{Manager}
use rcp_flext.Base.Input.{when, set_typed, set_atom_value}

-- A relation that setting a value respects.
pub record Values {fx : Flext} (m : Manager fx) (R : m.State → m.State → Type 0) : Type 0 where
  pub stays : (st : m.State) → R st st
  pub joins : {st st' st'' : m.State} → R st st' → R st' st'' → R st st''
  pub at_bool : (st : m.State) (p : m.Param) (b : Bool) → R st (m.set_value_bool st p b)
  pub at_int32 : (st : m.State) (p : m.Param) (i : ℤ) → R st (m.set_value_int32 st p i)
  pub at_float : (st : m.State) (p : m.Param) (f : fx.Float) → R st (m.set_value_float st p f)
  pub at_string : (st : m.State) (p : m.Param) (t : Text) → R st (m.set_value_string st p t)

-- A relation that all that the base class calls respects.
pub record Managed {fx : Flext} (m : Manager fx) (R : m.State → m.State → Type 0) : Type 0 where
  pub values : Values m R
  pub at_dirty : (st : m.State) (p : m.Param) → R st (m.set_dirty st p)
  pub at_update : (st : m.State) → R st (m.update st)

-- The code has a result, and the result is related to the state before.
abbrev pub Within : {S X : Type 0} → (S → S → Type 0) → S → Option (S × X) → Type 0
Within R st none = ¬ Unit
Within R st (some r) = R st r.0

module _ (fx : Flext) (m : Manager fx) {R : m.State → m.State → Type 0} (values : Values m R) where
  open fx use {Atom, can_be_int, can_be_float, is_string}
  open m use {State, Param, type_id, is_value}
  open values use {stays, at_bool, at_int32, at_float, at_string}

  when_within : (test : Bool) (st st' : State) → R st st' → R st (when fx m test st' st).0
  when_within true st st' h = h
  when_within false st st' h = stays st

  set_typed_within :
      (st : State) (p : Param) (a : Atom) (t : Datatype)
      → type_id st p ≡ t
      → R st (set_typed fx m st p a).0
  unfolding set_typed
  set_typed_within st p a boolean e =
      rw (set_typed, e) (when_within (can_be_int a) st _ (at_bool st p _))
  set_typed_within st p a int32 e =
      rw (set_typed, e) (when_within (can_be_int a) st _ (at_int32 st p _))
  set_typed_within st p a float32 e =
      rw (set_typed, e) (when_within (can_be_float a) st _ (at_float st p _))
  set_typed_within st p a string e =
      rw (set_typed, e) (when_within (is_string a) st _ (at_string st p _))
  set_typed_within st p a _ e = rw (set_typed, e) (stays st)

  pub set_atom_value_within :
      (st : State) (p : Option Param) (a : Atom) → R st (set_atom_value fx m st p a).0
  unfolding set_atom_value
  set_atom_value_within st none a = stays st
  set_atom_value_within st (some p) a = elim (Bool-cases (is_value st p)) [
    | inl v ↦ rw v (set_typed_within st p a (type_id st p) refl)
    | inr v ↦ rw v (stays st)
  ]
