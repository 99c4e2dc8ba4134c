-- ===== src/Server/Exposed.antt =====
-- What an `expose` message leaves behind: its path leads to the parameter.
use rcp_flext.Prelude.{
  ◌≡◌, refl, true, false, not, List, [], ◌∷◌, ◌++◌, Option, none, some, ◌>>=◌, Bool-cases,
  Option-cases, inl, inr, ◌∙◌, ap, subst,
}
use rcp_flext.Flext.{Flext, Out, error, post}
use rcp_flext.Rcp.{Datatype}
use rcp_flext.Manager.{Manager}
use rcp_flext.Format.Settings.{type_of_letter, first_char}
use mathlib.Core.Option.{some-injective}
use rcp_flext.Base.Lookup.{get_parameter}
use rcp_flext.Server.Options.{Options, no_options, option_loop, arguments}
use rcp_flext.Server.Expose.{
  ServerLib, Place, create_groups, is_empty, is_invalid, set_up, expose_at, expose_parameter,
}
use rcp_flext.Server.Library.{Keeps, IsServer, keeps_trans, Keeps-Exposing}
use rcp_flext.Server.Keeping.{set_up_within, expose_all, expose_all_within}
use rcp_flext.Server.Groups.{all_strings, IsFree, lead}

module _ (fx : Flext) (m : Manager fx) (lib : ServerLib fx m) (laws : IsServer m lib) where
  open fx use {Atom, is_string, get_string}
  open m use {State, Param, find_parameter, is_group}

  -- What `expose_at` leaves when it prints nothing.
  record Exposes (type : Datatype) (o : Options fx) (place : Place fx m lib) (st : State)
      : Type 0 where
    param : Param
    is_found : find_parameter st place.label place.group ≡ some param
    kept : Keeps m place.state st
    again :
        (later : State)
        → Keeps m st later
        → expose_at fx m lib type o (record place { state = later }) ≡ (later, error ∷ [])

  no_message : {A : Type 0} (x : A) (xs : List A) → ¬ (xs ++ x ∷ [] ≡ [])
  no_message x [] e = cc
  no_message x (y ∷ xs) e = cc

  again_lem :
      (type : Datatype) (o : Options fx) (place : Place fx m lib) (p : Param)
      → place.outs ≡ []
      → is_empty fx m lib place.label ≡ false
      → find_parameter place.state place.label place.group ≡ some p
      → expose_at fx m lib type o place ≡ (place.state, error ∷ [])
  unfolding expose_at
  again_lem type o place p silent full e = rw (expose_at, full, e, silent)

  made-Exposes :
      (type : Datatype) (o : Options fx) (place : Place fx m lib) (p : Param)
      → place.outs ≡ []
      → is_empty fx m lib place.label ≡ false
      → find_parameter place.state place.label place.group ≡ none
      → (lib.expose place.state type place.label place.group).1 ≡ some p
      → Exposes type o place (
          lib.update
            (set_up fx m lib type o p (lib.expose place.state type place.label place.group).0))
  made-Exposes type o place p silent full free made =
      let st1 = (lib.expose place.state type place.label place.group).0 in
      let later : Keeps m st1 (lib.update (set_up fx m lib type o p st1)) =
        keeps_trans m (set_up_within fx m lib (Keeps-Exposing m lib laws) type o p st1)
          (laws.update_keeps _) in
      let found =
        later.still_found _ _ p
          (laws.expose_made place.state type place.label place.group p free made) in
      record {
        param = p;
        is_found = found;
        kept = keeps_trans m (laws.expose_keeps place.state type place.label place.group) later;
        again = λ st' k.
            again_lem type o (record place { state = st' }) p silent full
              (k.still_found _ _ p found);
      }

  exposes :
      (type : Datatype) (o : Options fx) (place : Place fx m lib) (st : State)
      → place.outs ≡ []
      → expose_at fx m lib type o place ≡ (st, [])
      → Exposes type o place st
  unfolding expose_at
  exposes type o place st silent e = elim (Bool-cases (is_empty fx m lib place.label)) [
    | inl empty ↦ absurd (no_message error place.outs (ap (λ r. r.1) (rw (expose_at, empty) at e)))
    | inr full ↦ elim (Option-cases (find_parameter place.state place.label place.group)) [
      | inr (p, there) ↦
          absurd (no_message error place.outs (ap (λ r. r.1) (rw (expose_at, full, there) at e)))
      | inl free ↦ elim (Option-cases (lib.expose place.state type place.label place.group).1) [
        | inl failed ↦
            absurd
              (no_message post place.outs (ap (λ r. r.1) (rw (expose_at, full, free, failed) at e)))
        | inr (p, made) ↦
            subst (Exposes type o place) (ap (λ r. r.0) (rw (expose_at, full, free, made) at e))
              (made-Exposes type o place p silent full free made)
      ]
    ]
  ]

  -- The end of `exposeParameter`, for a type that is valid.
  abbrev expose_path : Datatype → Options fx → State → List Atom → Option (State × List (Out Atom))
  expose_path type o st path = do
    place ← create_groups fx m lib st path none
    let (st', outs) = expose_at fx m lib type o place
    some (st', o.errors ++ outs)

  -- A path that was exposed in `st'`, in a later state.
  record Result (type : Datatype) (o : Options fx) (st st' : State) (path : List Atom)
      : Type 0 where
    kept : Keeps m st st'
    param : Param
    is_found : (later : State) → Keeps m st' later → get_parameter fx m later path none ≡ some param
    again :
        (later : State)
        → Keeps m st' later
        → expose_path type o later path ≡ some (later, error ∷ [])

  append-nil_left : {A : Type 0} (xs ys : List A) → xs ++ ys ≡ [] → xs ≡ []
  append-nil_left [] ys e = refl
  append-nil_left (x ∷ xs) ys e = cc

  append-nil_right : {A : Type 0} (xs ys : List A) → xs ++ ys ≡ [] → ys ≡ []
  append-nil_right [] ys e = e
  append-nil_right (x ∷ xs) ys e = cc

  result :
      (type : Datatype) (o : Options fx) (st st' : State) (a : Atom) (l : List Atom)
      → all_strings fx m lib laws (a ∷ l) ≡ true
      → IsFree fx m lib laws st (a ∷ l) none
      → expose_path type o st (a ∷ l) ≡ some (st', [])
      → Result type o st st' (a ∷ l)
  unfolding get_parameter
  result type o st st' a l strings free e =
      let w = lead fx m lib laws st a l none strings free in
      let ends = some-injective _ _ (rw w.is_entered at e) in
      let outs = ap (λ r. r.1) ends in
      let at_place : expose_at fx m lib type o w.place ≡ (st', []) =
        λ i. ((ends i).0, append-nil_right o.errors (expose_at fx m lib type o w.place).1 outs i) in
      let no_errors : o.errors ≡ [] =
        append-nil_left o.errors (expose_at fx m lib type o w.place).1 outs in
      let x = exposes type o w.place st' w.is_silent at_place in
      record {
        kept = keeps_trans m w.kept x.kept;
        param = x.param;
        is_found = λ later k.
            w.is_found later x.param none (keeps_trans m x.kept k)
              (k.still_found _ _ x.param x.is_found);
        again =
            λ later k. rw (w.again later (keeps_trans m x.kept k), x.again later k, no_errors) refl;
      }

  expose_parameter-path :
      (st : State) (a b : Atom) (l : List Atom)
      → not (is_string a) ≡ false
      → is_invalid fx m lib (type_of_letter (first_char (get_string a))) ≡ false
      → expose_parameter fx m lib st (a ∷ b ∷ l)
        ≡ expose_path
            (type_of_letter (first_char (get_string a)))
            (option_loop fx l (no_options fx))
            st
            (b ∷ arguments fx l)
  unfolding expose_parameter
  expose_parameter-path st a b l s t = rw (expose_parameter, s, t)

  -- After an `expose` message that prints nothing, and any further `expose` messages, whatever
  -- comes of them, the groups and the label of the message are a path by which the object finds
  -- a parameter; the same message again prints an error and changes nothing; and what was found
  -- before is still found. Given that the groups and the label are texts, that no value
  -- parameter stands where a group is named, and the documented behaviour of the library's
  -- server.
  pub expose_parameter-get_parameter :
      (st st' st'' : State) (a b : Atom) (l : List Atom) (messages : List (List Atom))
      → all_strings fx m lib laws (b ∷ arguments fx l) ≡ true
      → IsFree fx m lib laws st (b ∷ arguments fx l) none
      → expose_parameter fx m lib st (a ∷ b ∷ l) ≡ some (st', [])
      → expose_all fx m lib st' messages ≡ some st''
      → ((p : Param) × (get_parameter fx m st'' (b ∷ arguments fx l) none ≡ some p))
        × (expose_parameter fx m lib st'' (a ∷ b ∷ l) ≡ some (st'', error ∷ []))
        × Keeps m st st''
  unfolding expose_parameter
  expose_parameter-get_parameter st st' st'' a b l messages strings free e more =
      let type = type_of_letter (first_char (get_string a)) in
      let later = expose_all_within fx m lib (Keeps-Exposing m lib laws) st' st'' messages more in
      elim (Bool-cases (not (is_string a))) [
        | inl s ↦ absurd (no_message post [] (ap (λ r. r.1) (some-injective _ _ (rw s at e))))
        | inr s ↦ elim (Bool-cases (is_invalid fx m lib type)) [
          | inl t ↦
              absurd (no_message post [] (ap (λ r. r.1) (some-injective _ _ (rw (s, t) at e))))
          | inr t ↦
              let r =
                result type (option_loop fx l (no_options fx)) st st' b (arguments fx l) strings
                  free (rw (expose_parameter-path st a b l s t) at e) in
              (
                (r.param, r.is_found st'' later),
                expose_parameter-path st'' a b l s t ∙ r.again st'' later,
                keeps_trans m r.kept later,
              )
        ]
      ]
