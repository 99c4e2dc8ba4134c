-- ===== src/Server/Within.antt =====
-- What the messages of ParameterServer.cpp leave behind, by any relation that the calls of the library
-- respect.
use rcp_flext.Prelude.{
  ◌≡◌, refl, inl, inr, Bool, true, false, ◌&&◌, ℤ, pos, ltb_ℤ, le→not-ltb, length, arith, List, [],
  ◌∷◌, Option, none, some, Bool-cases, Option-cases, if◌then◌else◌,
}
use rcp_flext.Flext.{Flext, Out, error}
use rcp_flext.Rcp.{Datatype, int32, float32}
use rcp_flext.Manager.{Manager}
use rcp_flext.Base.Input.{but_last}
use rcp_flext.Base.Within.{last_atom_total}
use rcp_flext.Base.Closed.{Within}
use rcp_flext.Server.Expose.{ServerLib, expose_parameter, expose_parameter_total}
use rcp_flext.Server.Library.{Exposing}
use rcp_flext.Server.Keeping.{expose_parameter_within}
use rcp_flext.Server.Limits.{
  found, on_found, remove_parameter, parameter_set_readonly, parameter_set_order, set_limit,
  parameter_set_min, parameter_set_max, set_limits, parameter_set_min_max, found-last_atom,
  with_int,
}

module _ (fx : Flext) (m : Manager fx) (lib : ServerLib fx m) {R : m.State → m.State → Type 0}
    (exposing : Exposing m lib R)
    (at_remove : (st : m.State) (i : ℤ) → R st (lib.remove_parameter_id st i).0) where
  open fx use {Atom, can_be_int, can_be_float, is_float, get_a_int}
  open m use {State, Param, type_id, id}
  open exposing use {
    values, at_update, at_min_float, at_max_float, at_min_int32, at_max_int32, at_order,
    at_readonly,
  }
  open values use {stays, joins}

  pub expose_within :
      (st : State) (argv : List Atom) → Within R st (expose_parameter fx m lib st argv)
  expose_within st argv =
      let (r, e) = expose_parameter_total fx m lib st argv in
      rw e (expose_parameter_within fx m lib exposing st argv r e)

  if_within : (b : Bool) (st st' : State) → R st st' → R st (if b then lib.update st' else st')
  if_within true st st' h = joins h (at_update st')
  if_within false st st' h = h

  pub remove_within : (st : State) (i : ℤ) → R st (remove_parameter fx m lib st i)
  unfolding remove_parameter
  remove_within st i = if_within _ st _ (at_remove st i)

  pub on_found_within :
      (st : State) (o : Option Param) (f : Param → State)
      → ((p : Param) → R st (f p))
      → R st (on_found fx m lib st o f)
  on_found_within st none f h = stays st
  on_found_within st (some p) f h = h p

  with_int_within :
      (st : State) (a : Atom) (st' : State) → R st st' → R st (with_int fx m lib st a st').0
  with_int_within st a st' h = elim (Bool-cases (can_be_int a)) [
    | inl b ↦ rw (with_int, b) h
    | inr b ↦ rw (with_int, b) (stays st)
  ]

  pub readonly_within :
      (st : State) (a : Atom) (l : List Atom)
      → Within R st (parameter_set_readonly fx m lib st (a ∷ l))
  unfolding parameter_set_readonly
  readonly_within st a l =
      let (b, e) = last_atom_total a l in
      rw e (
        with_int_within st b _ (
          on_found_within st _ _
            (λ p. joins (at_readonly st p (ltb_ℤ (pos 0) (get_a_int b (pos 0)))) (at_update _))))

  pub order_within :
      (st : State) (a : Atom) (l : List Atom)
      → Within R st (parameter_set_order fx m lib st (a ∷ l))
  unfolding parameter_set_order
  order_within st a l =
      let (b, e) = last_atom_total a l in
      rw e (
        with_int_within st b _
          (on_found_within st _ _ (λ p. joins (at_order st p (get_a_int b (pos 0))) (at_update _))))

  then_update : (b : Bool) (st st' : State) → R st st' → R st (if b then lib.update st' else st)
  then_update true st st' h = joins h (at_update st')
  then_update false st st' h = stays st

  set_limit_within :
      (f : State → Param → fx.Float → State) (g : State → Param → ℤ → State) (st : State)
      (p : Param) (a : Atom) (t : Datatype)
      → ((x : fx.Float) → R st (f st p x))
      → ((i : ℤ) → R st (g st p i))
      → type_id st p ≡ t
      → R st (set_limit fx m lib f g st p a)
  unfolding set_limit
  set_limit_within f g st p a float32 hf hg e =
      rw (set_limit, e) (then_update (can_be_float a) st _ (hf _))
  set_limit_within f g st p a int32 hf hg e =
      rw (set_limit, e) (then_update (can_be_int a) st _ (hg _))
  set_limit_within f g st p a _ hf hg e = rw (set_limit, e) (stays st)

  pub min_within :
      (st : State) (argv : List Atom) → Within R st (parameter_set_min fx m lib st argv)
  unfolding parameter_set_min
  min_within st argv = elim (Option-cases (found fx m lib st (but_last argv))) [
    | inl e ↦ rw (parameter_set_min, e) (stays st)
    | inr (p, e) ↦
        let (a, last) = found-last_atom fx m lib st argv p e in
        rw (parameter_set_min, e, last)
          (set_limit_within lib.set_min_float lib.set_min_int32 st p a (type_id st p)
            (at_min_float st p) (at_min_int32 st p) refl)
  ]

  pub max_within :
      (st : State) (argv : List Atom) → Within R st (parameter_set_max fx m lib st argv)
  unfolding parameter_set_max
  max_within st argv = elim (Option-cases (found fx m lib st (but_last argv))) [
    | inl e ↦ rw (parameter_set_max, e) (stays st)
    | inr (p, e) ↦
        let (a, last) = found-last_atom fx m lib st argv p e in
        rw (parameter_set_max, e, last)
          (set_limit_within lib.set_max_float lib.set_max_int32 st p a (type_id st p)
            (at_max_float st p) (at_max_int32 st p) refl)
  ]

  set_limits_within :
      (st : State) (p : Param) (lo hi : Atom) (t : Datatype)
      → type_id st p ≡ t
      → R st (set_limits fx m lib st p lo hi)
  unfolding set_limits
  set_limits_within st p lo hi float32 e =
      rw (set_limits, e) (joins (at_min_float st p _) (joins (at_max_float _ p _) (at_update _)))
  set_limits_within st p lo hi int32 e =
      rw (set_limits, e) (joins (at_min_int32 st p _) (joins (at_max_int32 _ p _) (at_update _)))
  set_limits_within st p lo hi _ e = rw (set_limits, e) (stays st)

  either_within :
      (b : Bool) (st st' : State) (outs outs' : List (Out Atom))
      → R st st'
      → Within R st (some (if b then (st', outs) else (st, outs')))
  either_within true st st' outs outs' h = h
  either_within false st st' outs outs' h = stays st

  pub min_max_within :
      (st : State) (argv : List Atom) → Within R st (parameter_set_min_max fx m lib st argv)
  unfolding parameter_set_min_max but_last
  min_max_within st [] = stays st
  min_max_within st (a ∷ []) = stays st
  min_max_within st (a ∷ b ∷ []) = stays st
  min_max_within st (a ∷ b ∷ c ∷ l) =
      let argv = a ∷ b ∷ c ∷ l in
      let (lo, e) = last_atom_total a (but_last (b ∷ c ∷ l)) in
      let (hi, f) = last_atom_total a (b ∷ c ∷ l) in
      rw (parameter_set_min_max, le→not-ltb (length argv) 3 (omega arith), e, f)
        (either_within (is_float lo && is_float hi) st _ [] (error ∷ [])
          (on_found_within st _ _ (λ p. set_limits_within st p lo hi (type_id st p) refl)))
