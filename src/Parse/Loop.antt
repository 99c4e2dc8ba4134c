-- ===== src/Parse/Loop.antt =====
-- The loop of RcpParse.cpp ends, and its vectors are long enough.
use rcp_flext.Prelude.{
  ℕ, zero, suc, ◌+◌, ◌<◌, ◌≤◌, ◌≡◌, refl, to_int16, text, List, [], ◌∷◌, ◌++◌, Option, none, some,
  ◌>>=◌, length, length-append, Option-cases, inl, inr, arith, all_some, cons_some, subst,
}
use rcp_flext.Flext.{Flext, Out, to_out_int, to_out_list, emit_fits, error}
use rcp_flext.Bytes.{strict_lem, strict_byte?}
use rcp_flext.Manager.{Manager}
use rcp_flext.Format.Defs.{returned}
use rcp_flext.Base.Output.{value_atoms-le}
use rcp_flext.Base.Query.{value_atoms}
use rcp_flext.Parse.Defs.{
  Parser, IsParser, and_then, output_if, parse_loop, parse_list, packet_update, symbols,
}

abbrev HasLength : ℕ → Option (List ℕ) → Type 0
HasLength n none = Unit
HasLength n (some bs) = length bs ≡ n

cons_some-HasLength :
    (y n : ℕ) (o : Option (List ℕ)) → HasLength n o → HasLength (n + 1) (cons_some y o)
cons_some-HasLength y n none h = tt
cons_some-HasLength y n (some bs) h = omega arith

all_some-HasLength :
    {A : Type 0} (f : A → Option ℕ) (xs : List A) → HasLength (length xs) (all_some f xs)
all_some-HasLength f [] = refl
all_some-HasLength f (x ∷ xs) = elim (Option-cases (f x)) [
  | inl e ↦ rw (e, all_some) tt
  | inr (y, e) ↦
      let n : length (x ∷ xs) ≡ length xs + 1 = omega arith in
      rw (n, e, all_some)
        (cons_some-HasLength y (length xs) (all_some f xs) (all_some-HasLength f xs))
]

module _ (fx : Flext) (m : Manager fx) (st : m.State) where
  open fx use {Atom}
  open m use {Param}

  and_then_total :
      (first : Option (List (Out Atom))) (more : Option (List (Out Atom)))
      → (r : Option (List (Out Atom))) × (and_then fx m st first (returned more) ≡ returned r)
  and_then_total none more = (none, refl)
  and_then_total (some outs) none = (none, refl)
  and_then_total (some outs) (some more) = (some (outs ++ more), refl)

  module _ {parse : Parser Param} (laws : IsParser parse) where
    parse_loop_total :
        (rounds : ℕ) (bs : List ℕ)
        → length bs < rounds
        → (r : Option (List (Out Atom))) × (parse_loop fx m st parse rounds bs ≡ returned r)
    unfolding parse_loop
    parse_loop_total zero bs h = absurd (omega arith)
    parse_loop_total (suc rounds) [] h = (some [], refl)
    parse_loop_total (suc rounds) (b ∷ bs) h = elim (Option-cases (parse (b ∷ bs)).0) [
      | inl e ↦ (some [], rw (parse_loop, e))
      | inr (rest, e) ↦
          let shorter = laws.takes (b ∷ bs) rest e in
          let (more, h') = parse_loop_total rounds rest (omega (arith, shorter)) in
          let (r, done) = and_then_total (output_if fx m st (parse (b ∷ bs)).1) more in
          (r, rw (parse_loop, e, h', done))
    ]

    -- The loop over the packets of a list ends within as many rounds as one more than the
    -- list has atoms. Given that the library's parser takes a byte at least whenever it goes
    -- on.
    pub parse_list_total :
        (rounds : ℕ) (argv : List Atom)
        → length argv < rounds
        → (r : Option (List (Out Atom))) × (parse_list fx m st parse rounds argv ≡ returned r)
    unfolding parse_list
    parse_list_total rounds argv h = elim (Option-cases (all_some (strict_byte? fx) argv)) [
      | inl e ↦ (some (error ∷ []), rw (parse_list, strict_lem, e))
      | inr (bs, e) ↦
          let n : length bs ≡ length argv =
            subst (HasLength (length argv)) e (all_some-HasLength (strict_byte? fx) argv) in
          let (r, done) = parse_loop_total rounds bs (omega arith) in
          (r, rw (parse_list, strict_lem, e) done)
    ]

  -- An update that is parsed is sent as the id and the list of "update", the label if there is
  -- one, and the value, for which the vector is long enough; it is undefined exactly if the
  -- value is a null string.
  pub packet_update_lem :
      (p : Param)
      → packet_update fx m st p ≡ (do
        value ← value_atoms fx m st p
        some (
            to_out_int 1 (to_int16 (m.id st p))
            ∷ to_out_list 0
                (fx.set_symbol (text "update") ∷ (symbols fx m st (m.label st p) ++ value))
            ∷ []))
  unfolding packet_update
  packet_update_lem p = elim (Option-cases (value_atoms fx m st p)) [
    | inl e ↦ rw e
    | inr (value, e) ↦
        let front = symbols fx m st (m.label st p) in
        let fits : length (fx.set_symbol (text "update") ∷ (front ++ value)) ≤ 3 + length front =
          omega (arith, length-append front value, value_atoms-le fx m st p value e) in
        rw (
          e,
          emit_fits fx.blank (3 + length front) (fx.set_symbol (text "update") ∷ (front ++ value))
              fits,
        )
  ]
