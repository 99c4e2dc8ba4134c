-- ===== src/Base/Query/Answers.antt =====
-- What the questions answer, and that the vectors of the answers are long enough.
use rcp_flext.Prelude.{
  ℕ, ◌+◌, ◌≤◌, ◌≡◌, refl, Bool, true, false, Text, text, List, [], ◌∷◌, ◌++◌, Option, some, ◌>>=◌,
  if◌then◌else◌, length, length-append, arith, Option-cases, inl, inr, pos, ap, fun_ext, ℤ,
}
use rcp_flext.Flext.{Flext, Out, to_out_list, emit_fits}
use rcp_flext.Manager.{Manager, IsTyped}
use rcp_flext.Base.Query.Defs.{
  type_to_string, value_atoms, answer, ask, parameter_id, parameter_type, parameter_readonly,
  parameter_order, parameter_value, parameter_min, parameter_max, one_if, shows_min, shows_max,
  info_atoms, output_info, limit_atoms,
}

module _ (fx : Flext) (m : Manager fx) (st : m.State) where
  open fx use {Atom, set_int, set_string, set_symbol, blank}
  open m use {Param, is_value, type_id, id, readonly, order, has_min, has_max}

  -- One list on outlet 3: the question, the path that was asked for, and the answer.
  abbrev pub says : Text → List Atom → List Atom → Option (List (Out Atom))
  says question argv rest = some (to_out_list 3 (set_symbol question ∷ (argv ++ rest)) ∷ [])

  answer_lem :
      (len : ℕ) (question : Text) (argv rest : List Atom)
      → 1 + length argv + length rest ≤ len
      → answer fx m st len question argv rest ≡ says question argv rest
  answer_lem len question argv rest h = rw (
      emit_fits blank len (set_symbol question ∷ (argv ++ rest))
        (omega (arith, length-append argv rest)))

  ask_lem :
      (argv : List Atom) (f g : Param → Option (List (Out Atom)))
      → ((p : Param) → f p ≡ g p)
      → ask fx m st argv f ≡ ask fx m st argv g
  ask_lem argv f g h = ap (ask fx m st argv) (fun_ext h)

  -- The id, the type, the readonly flag and the order of the parameter of a path, each behind the
  -- path; nothing for a path that leads to no parameter.
  pub parameter_id_lem :
      (argv : List Atom)
      → (parameter_id fx m st argv
          ≡ ask fx m st argv λ p. says (text "id") argv (set_int (id st p) ∷ []))
        × (parameter_type fx m st argv
            ≡ ask fx m st argv
                λ p. says (text "type") argv (set_string (type_to_string (type_id st p)) ∷ []))
        × (parameter_readonly fx m st argv
            ≡ ask fx m st argv λ p.
              says (text "readonly") argv (set_int (if readonly st p then pos 1 else pos 0) ∷ []))
        × (parameter_order fx m st argv
            ≡ ask fx m st argv λ p. says (text "order") argv (set_int (order st p) ∷ []))
  unfolding parameter_id parameter_type parameter_readonly parameter_order
  parameter_id_lem argv = (
    ask_lem argv _ _ (λ p. answer_lem _ _ argv _ (omega arith)),
    ask_lem argv _ _ (λ p. answer_lem _ _ argv _ (omega arith)),
    ask_lem argv _ _ (λ p. answer_lem _ _ argv _ (omega arith)),
    ask_lem argv _ _ (λ p. answer_lem _ _ argv _ (omega arith)),
  )

  length-limit_atoms : (p : Param) (i : ℤ) (f : fx.Float) → length (limit_atoms fx m st p i f) ≤ 1
  length-limit_atoms p i f = ground arith

  limit_lem :
      (argv : List Atom) (question : Text) (has : Bool) (p : Param) (i : ℤ) (f : fx.Float)
      → (if has
          then answer fx m st (1 + length argv + 1) question argv (limit_atoms fx m st p i f)
          else some [])
        ≡ (if has then says question argv (limit_atoms fx m st p i f) else some [])
  limit_lem argv question true p i f =
      answer_lem (1 + length argv + 1) question argv (limit_atoms fx m st p i f)
        (omega (arith, length-limit_atoms p i f))
  limit_lem argv question false p i f = refl

  -- The minimum and the maximum of a parameter that has one.
  pub parameter_min_lem :
      (argv : List Atom)
      → (parameter_min fx m st argv
          ≡ ask fx m st argv λ p.
            if has_min st p
            then says
                (text "min")
                argv
                (limit_atoms fx m st p (m.min_int32 st p) (m.min_float st p))
            else some [])
        × (parameter_max fx m st argv
            ≡ ask fx m st argv λ p.
              if has_max st p
              then says
                  (text "max")
                  argv
                  (limit_atoms fx m st p (m.max_int32 st p) (m.max_float st p))
              else some [])
  unfolding parameter_min parameter_max
  parameter_min_lem argv = (
    ask_lem argv _ _
        (λ p. limit_lem argv (text "min") (has_min st p) p (m.min_int32 st p) (m.min_float st p)),
    ask_lem argv _ _
        (λ p. limit_lem argv (text "max") (has_max st p) p (m.max_int32 st p) (m.max_float st p)),
  )

  module _ (typed : IsTyped m st) where
    open typed use {boolean-is_value, int32-is_value, float32-is_value, string-is_value}

    -- A value fits the vectors, which have room for one only in a value parameter.
    pub length-value_atoms :
        (p : Param) (xs : List Atom)
        → value_atoms fx m st p ≡ some xs
        → length xs ≤ one_if fx m st (is_value st p)
    unfolding value_atoms
    length-value_atoms p xs e =
        ground (arith, boolean-is_value p, int32-is_value p, float32-is_value p, string-is_value p)

    length-info_atoms :
        (p : Param) (xs : List Atom)
        → info_atoms fx m st p ≡ some xs
        → length xs
          ≤ one_if fx m st (is_value st p)
            + one_if fx m st (shows_min fx m st p)
            + one_if fx m st (shows_max fx m st p)
    unfolding info_atoms
    length-info_atoms p xs e =
        ground (arith, boolean-is_value p, int32-is_value p, float32-is_value p, string-is_value p)

    -- The answer to `value` is the path and the value, within the vector, and only the path
    -- where a parameter has no value; a path that leads to no parameter is not answered.
    -- Given that parameters of the four value types are value parameters.
    pub parameter_value-ask :
        (argv : List Atom)
        → parameter_value fx m st argv
          ≡ ask fx m st argv λ p. value_atoms fx m st p >>= λ value. says (text "value") argv value
    unfolding parameter_value
    parameter_value-ask argv = ask_lem argv _ _ λ p. elim (Option-cases (value_atoms fx m st p)) [
      | inl null ↦ rw null
      | inr (xs, e) ↦ rw e (answer_lem _ _ argv xs (omega (arith, length-value_atoms p xs e)))
    ]

    -- What `info` says of one parameter: the path, the value, the limits that it has, the id and the
    -- type. The vector is never too short.
    pub output_info_lem :
        (p : Param) (argv : List Atom)
        → output_info fx m st p argv ≡ (do
          value ← info_atoms fx m st p
          says
              (text "info")
              argv
              (value ++ set_int (id st p) ∷ set_string (type_to_string (type_id st p)) ∷ []))
    unfolding output_info
    output_info_lem p argv = elim (Option-cases (info_atoms fx m st p)) [
      | inl null ↦ rw null
      | inr (xs, e) ↦
          let end = set_int (id st p) ∷ set_string (type_to_string (type_id st p)) ∷ [] in
          rw e (
            answer_lem _ _ argv (xs ++ end)
              (omega (arith, length-info_atoms p xs e, length-append xs end)))
    ]
