-- ===== src/Server/Limits.antt =====
-- ParameterServer.cpp: the messages that remove a parameter or set its readonly flag, its order and
-- its limits. `none` is a read of `argv[argc-1]` without an atom.
use rcp_flext.Prelude.{
  ◌≡◌, ◌&&◌, ℤ, pos, ltb_ℤ, List, [], ◌∷◌, Option, none, some, ◌>>=◌, if◌then◌else◌, length, ltb,
  Option-cases, inl, inr,
}
use rcp_flext.Flext.{Flext, Out, error}
use rcp_flext.Rcp.{int32, float32}
use rcp_flext.Manager.{Manager}
use rcp_flext.Base.Lookup.{get_parameter, lookup_path}
use rcp_flext.Base.Input.{last_atom, but_last}
use rcp_flext.Base.Within.{last_atom_total}
use rcp_flext.Server.Expose.{ServerLib}

module _ (fx : Flext) (m : Manager fx) (lib : ServerLib fx m) where
  open fx use {Atom, Float, is_float, can_be_int, can_be_float, get_a_int, get_a_float}
  open m use {State, Param, type_id, id}
  open lib use {
    remove_parameter_id, update, set_min_float, set_max_float, set_min_int32, set_max_int32,
    set_order, set_readonly,
  }

  abbrev pub Result : Type 0
  Result = Option (State × List (Out Atom))

  abbrev pub found : State → List Atom → Option Param
  found st argv = get_parameter fx m st argv none

  -- What is done to a parameter if it is found.
  abbrev pub on_found : State → Option Param → (Param → State) → State
  on_found st none f = st
  on_found st (some p) f = f p

  unfoldable pub remove_parameter : State → ℤ → State
  remove_parameter st i =
      let (st', removed) = remove_parameter_id st i in if removed then update st' else st'

  unfoldable pub remove_parameter_list : State → List Atom → State
  unfolding remove_parameter
  remove_parameter_list st argv = on_found st (found st argv) (λ p. remove_parameter st (id st p))

  -- The test of the last atom, and the state `st'` behind it.
  abbrev pub with_int : State → Atom → State → State × List (Out Atom)
  with_int st a st' = if can_be_int a then (st', []) else (st, error ∷ [])

  unfoldable pub parameter_set_readonly : State → List Atom → Result
  parameter_set_readonly st argv = do
    a ← last_atom argv
    some (
        with_int st a (
          on_found st (found st (but_last argv))
            (λ p. update (set_readonly st p (ltb_ℤ (pos 0) (get_a_int a (pos 0)))))))

  unfoldable pub parameter_set_order : State → List Atom → Result
  parameter_set_order st argv = do
    a ← last_atom argv
    some (
        with_int st a (
          on_found st (found st (but_last argv))
            (λ p. update (set_order st p (get_a_int a (pos 0))))))

  -- The branches of `parameterSetMin` and `parameterSetMax`, which differ in the setters.
  unfoldable pub set_limit :
      (State → Param → Float → State) → (State → Param → ℤ → State) → State → Param → Atom → State
  set_limit set_float set_int st p a = elim (type_id st p) [
    | float32 ↦ if can_be_float a then update (set_float st p (get_a_float a)) else st
    | int32 ↦ if can_be_int a then update (set_int st p (get_a_int a (pos 0))) else st
    | _ ↦ st
  ]

  unfoldable pub parameter_set_min : State → List Atom → Result
  unfolding set_limit
  parameter_set_min st argv = elim (found st (but_last argv)) [
    | none ↦ some (st, [])
    | some p ↦ do a ← last_atom argv; some (set_limit set_min_float set_min_int32 st p a, [])
  ]

  unfoldable pub parameter_set_max : State → List Atom → Result
  unfolding set_limit
  parameter_set_max st argv = elim (found st (but_last argv)) [
    | none ↦ some (st, [])
    | some p ↦ do a ← last_atom argv; some (set_limit set_max_float set_max_int32 st p a, [])
  ]

  unfoldable pub set_limits : State → Param → Atom → Atom → State
  set_limits st p lo hi = elim (type_id st p) [
    | float32 ↦ update (set_max_float (set_min_float st p (get_a_float lo)) p (get_a_float hi))
    | int32 ↦
        update (set_max_int32 (set_min_int32 st p (get_a_int lo (pos 0))) p (get_a_int hi (pos 0)))
    | _ ↦ st
  ]

  -- parameterSetMinMax
  unfoldable pub parameter_set_min_max : State → List Atom → Result
  unfolding set_limits
  parameter_set_min_max st argv = if ltb (length argv) 3 then some (st, error ∷ []) else (do
    lo ← last_atom (but_last argv)
    hi ← last_atom argv
    let st' = on_found st (found st (but_last (but_last argv))) (λ p. set_limits st p lo hi)
    some (if is_float lo && is_float hi then (st', []) else (st, error ∷ [])))

  -- A path that leads to a parameter has a name at least.
  pub found-last_atom :
      (st : State) (argv : List Atom) (p : Param)
      → found st (but_last argv) ≡ some p
      → (b : Atom) × (last_atom argv ≡ some b)
  unfolding but_last get_parameter lookup_path
  found-last_atom st [] p e = cc
  found-last_atom st (a ∷ l) p e = last_atom_total a l

  -- Every `setmin` message, even one without atoms, is handled without a read out of bounds.
  pub parameter_set_min_total :
      (st : State) (argv : List Atom)
      → (r : State × List (Out Atom)) × (parameter_set_min st argv ≡ some r)
  unfolding parameter_set_min
  parameter_set_min_total st argv = elim (Option-cases (found st (but_last argv))) [
    | inl e ↦ ((st, []), rw (parameter_set_min, e))
    | inr h ↦
        let (a, last) = found-last_atom st argv h.0 h.1 in
        ((set_limit set_min_float set_min_int32 st h.0 a, []), rw (parameter_set_min, h.1, last))
  ]
