-- ===== src/Server/Keeping.antt =====
-- ParameterServer.cpp: what `exposeParameter` leaves behind is related to what was there, by any
-- relation that the calls of the library respect.
use rcp_flext.Prelude.{
  ◌≡◌, refl, not, Text, List, [], ◌∷◌, Option, none, some, ◌>>=◌, Bool-cases, Option-cases, inl,
  inr, subst,
}
use mathlib.Core.Option.{some-injective}
use rcp_flext.Flext.{Flext, Out, post}
use rcp_flext.Rcp.{Datatype, boolean, int32, float32, string, bang}
use rcp_flext.Manager.{Manager}
use rcp_flext.Format.Settings.{type_of_letter, first_char}
use rcp_flext.Server.Options.{Options, arguments}
use rcp_flext.Server.Expose.{
  ServerLib, get_as_string, enter_group, Place, create_groups, is_empty, is_invalid, if_set,
  set_common, set_up, expose_at, expose_parameter, expose_parameter_total,
}
use rcp_flext.Server.Library.{Exposing}

module _ (fx : Flext) (m : Manager fx) (lib : ServerLib fx m) where
  -- `expose` messages, one after the other.
  unfoldable pub expose_all : m.State → List (List fx.Atom) → Option m.State
  expose_all st [] = some st
  expose_all st (argv ∷ more) = do
    (st', outs) ← expose_parameter fx m lib st argv
    expose_all st' more

module _ (fx : Flext) (m : Manager fx) (lib : ServerLib fx m) {R : m.State → m.State → Type 0}
    (exposing : Exposing m lib R) where
  open fx use {Atom, is_string, get_string}
  open m use {State, Param, find_parameter}
  open exposing use {
    values, at_create_group, at_expose, at_update, at_watch, at_min_float, at_max_float,
    at_min_int32, at_max_int32, at_order, at_readonly,
  }
  open values use {stays, joins, at_bool, at_int32, at_float, at_string}

  if_set_within :
      {B : Type 0} (o : Option B) (f : B → State → State) (st : State)
      → ((b : B) (s : State) → R s (f b s))
      → R st (if_set fx m lib o f st)
  if_set_within none f st h = stays st
  if_set_within (some b) f st h = h b st

  set_common_within : (o : Options fx) (p : Param) (st : State) → R st (set_common fx m lib o p st)
  set_common_within o p st =
      joins (if_set_within o.order (λ i s. lib.set_order s p i) st (λ i s. at_order s p i))
        (if_set_within o.readonly (λ b s. lib.set_readonly s p b) _ (λ b s. at_readonly s p b))

  pub set_up_within :
      (type : Datatype) (o : Options fx) (p : Param) (st : State)
      → R st (set_up fx m lib type o p st)
  unfolding set_up
  set_up_within float32 o p st = joins (at_watch st p) (
      joins (if_set_within o.min (λ f s. lib.set_min_float s p f) _ (λ f s. at_min_float s p f)) (
        joins (if_set_within o.max (λ f s. lib.set_max_float s p f) _ (λ f s. at_max_float s p f))
          (joins (set_common_within o p _) (at_float _ p _))))
  set_up_within int32 o p st = joins (at_watch st p) (
      joins
        (if_set_within o.min (λ f s. lib.set_min_int32 s p (fx.float_to_int f)) _
          (λ f s. at_min_int32 s p (fx.float_to_int f)))
        (joins
          (if_set_within o.max (λ f s. lib.set_max_int32 s p (fx.float_to_int f)) _
            (λ f s. at_max_int32 s p (fx.float_to_int f)))
          (joins (set_common_within o p _) (at_int32 _ p _))))
  set_up_within boolean o p st =
      joins (at_watch st p) (joins (set_common_within o p _) (at_bool _ p _))
  set_up_within string o p st =
      joins (at_watch st p) (joins (set_common_within o p _) (at_string _ p _))
  set_up_within bang o p st = joins (set_common_within o p st) (at_watch _ p)
  set_up_within _ o p st = stays st

  enter_group_within :
      (st : State) (n : Text) (g : Option Param) → R st (enter_group fx m lib st n g).0
  enter_group_within st n g = elim (Option-cases (lib.find_group st n g)) [
    | inl e ↦ rw (enter_group, e) (at_create_group st n g)
    | inr (q, e) ↦ rw (enter_group, e) (stays st)
  ]

  create_groups_within :
      (st : State) (a : Atom) (l : List Atom) (g : Option Param)
      → (place : Place fx m lib) × (create_groups fx m lib st (a ∷ l) g ≡ some place)
        × R st place.state
  unfolding create_groups
  create_groups_within st a [] g = (_, refl, stays st)
  create_groups_within st a (b ∷ l) g = elim (Bool-cases (is_string a)) [
    | inl s ↦
        let r = enter_group fx m lib st (get_as_string fx m lib a) g in
        let (place, e, k) = create_groups_within r.0 b l r.1 in
        (place, rw (create_groups, s) e, joins (enter_group_within st _ g) k)
    | inr s ↦ (
      record { state = st; group = none; label = []; outs = post ∷ [] },
      rw (create_groups, s) refl,
      stays st,
    )
  ]

  expose_at_within :
      (type : Datatype) (o : Options fx) (place : Place fx m lib)
      → R place.state (expose_at fx m lib type o place).0
  unfolding expose_at
  expose_at_within type o place =
      let made = at_expose place.state type place.label place.group in
      elim (Bool-cases (is_empty fx m lib place.label)) [
        | inl empty ↦ rw (expose_at, empty) (stays place.state)
        | inr full ↦ elim (Option-cases (find_parameter place.state place.label place.group)) [
          | inr (p, there) ↦ rw (expose_at, full, there) (stays place.state)
          | inl free ↦ elim (Option-cases (lib.expose place.state type place.label place.group).1) [
            | inl failed ↦ rw (expose_at, full, free, failed) (joins made (at_update _))
            | inr (p, is_made) ↦
                rw (expose_at, full, free, is_made)
                  (joins made (joins (set_up_within type o p _) (at_update _)))
          ]
        ]
      ]

  kept_by :
      (st st' : State) (outs : List (Out Atom)) (r : State × List (Out Atom))
      → some (st', outs) ≡ some r
      → R st st'
      → R st r.0
  kept_by st st' outs r e k = subst (λ r. R st r.0) (some-injective _ _ e) k

  -- What an `expose` message of any atoms leaves.
  pub expose_parameter_within :
      (st : State) (argv : List Atom) (r : State × List (Out Atom))
      → expose_parameter fx m lib st argv ≡ some r
      → R st r.0
  unfolding expose_parameter
  expose_parameter_within st [] r e = kept_by st st _ r e (stays st)
  expose_parameter_within st (a ∷ []) r e = kept_by st st _ r e (stays st)
  expose_parameter_within st (a ∷ b ∷ l) r e = elim (Bool-cases (not (is_string a))) [
    | inl s ↦ kept_by st st _ r (rw s at e) (stays st)
    | inr s ↦ elim (Bool-cases (is_invalid fx m lib (type_of_letter (first_char (get_string a))))) [
      | inl t ↦ kept_by st st _ r (rw (s, t) at e) (stays st)
      | inr t ↦
          let (place, f, k) = create_groups_within st b (arguments fx l) none in
          kept_by st _ _ r (rw (s, t, f) at e) (joins k (expose_at_within _ _ place))
    ]
  ]

  pub expose_all_within :
      (st st' : State) (messages : List (List Atom))
      → expose_all fx m lib st messages ≡ some st'
      → R st st'
  unfolding expose_all
  expose_all_within st st' [] e = subst (R st) (some-injective _ _ e) (stays st)
  expose_all_within st st' (argv ∷ more) e =
      let ((st1, outs), f) = expose_parameter_total fx m lib st argv in
      joins (expose_parameter_within st argv (st1, outs) f)
        (expose_all_within st1 st' more (rw (expose_all, f) at e))
