-- ===== src/Bytes/Raw.antt =====
-- The loop of ParameterServerClientBase::raw_data_list.
use rcp_flext.Prelude.{
  ℕ, suc, ◌+◌, ◌-◌, ◌≤◌, ◌≡◌, refl, List, [], ◌∷◌, ◌++◌, some, ◌>>=◌, arith, inl, inr, replicate,
  length, take-append, length-append, length-replicate, append_assoc, append-nil, ◌⊎◌, ap, ◌∙◌,
}
use native.Mathlib.Nat.{zero-add}
use rcp_flext.Flext.{Flext, write-append}
use rcp_flext.Bytes.Defs.{
  Read, bytes, refused, RawAtom, skip, refuse, keep, raw_atom, raw_loop, raw_data, finish_raw,
}

abbrev pub cons_read : ℕ → Read → Read
cons_read b refused = refused
cons_read b (bytes bs) = bytes (b ∷ bs)

abbrev append_read : List ℕ → Read → Read
append_read done refused = refused
append_read done (bytes bs) = bytes (done ++ bs)

append_read-cons :
    (done : List ℕ) (b : ℕ) (r : Read)
    → append_read (done ++ b ∷ []) r ≡ append_read done (cons_read b r)
append_read-cons done b refused = refl
append_read-cons done b (bytes bs) = ap bytes (append_assoc done (b ∷ []) bs)

append_read-nil : (r : Read) → append_read [] r ≡ r
append_read-nil refused = refl
append_read-nil (bytes bs) = refl

RawAtom-cases : (r : RawAtom) → (r ≡ skip) ⊎ (r ≡ refuse) ⊎ ((b : ℕ) × (r ≡ keep b))
RawAtom-cases skip = inl refl
RawAtom-cases refuse = inr (inl refl)
RawAtom-cases (keep b) = inr (inr (b, refl))

module _ (fx : Flext) where
  open fx use {Atom}

  -- What is no number is left out, and a number that is no byte refuses the list.
  abbrev pub raw_bytes : List Atom → Read
  raw_bytes [] = bytes []
  raw_bytes (a ∷ l) = elim (raw_atom fx a) [
    | skip ↦ raw_bytes l
    | refuse ↦ refused
    | keep b ↦ cons_read b (raw_bytes l)
  ]

  raw_loop_lem :
      (l : List Atom) (i offset : ℕ) (done over : List ℕ)
      → i ≡ length done + offset
      → length l ≤ length over
      → (raw_loop fx l i offset (done ++ over) >>= λ r. some (finish_raw (i + length l) r))
        ≡ some (append_read done (raw_bytes l))
  unfolding raw_loop
  raw_loop_lem [] i offset done over e h =
      let k : i + 0 - offset ≡ length done = omega arith in rw (k, take-append, append-nil)
  raw_loop_lem (a ∷ l) i offset done [] e h = absurd (omega arith)
  raw_loop_lem (a ∷ l) i offset done (o ∷ over) e h =
      let shift : i + suc (length l) ≡ (i + 1) + length l = omega arith in
      rw shift (elim (RawAtom-cases (raw_atom fx a)) [
        | inl skipped ↦
            rw (skipped, raw_loop, raw_bytes)
              (raw_loop_lem l (i + 1) (offset + 1) done (o ∷ over) (omega arith) (omega arith))
        | inr (inl bad) ↦ rw (bad, raw_loop, raw_bytes)
        | inr (inr (b, kept)) ↦
            let at : i - offset ≡ length done = omega arith in
            rw (kept, raw_loop, raw_bytes, at, write-append, ← append_read-cons)
              (simp append_assoc at (
                raw_loop_lem l (i + 1) offset (done ++ b ∷ []) over
                  (omega (arith, length-append done (b ∷ []))) (omega arith)))
      ])

  pub raw_data_lem : (argv : List Atom) → raw_data fx argv ≡ some (raw_bytes argv)
  unfolding raw_data
  raw_data_lem argv =
      rw zero-add at (
        raw_loop_lem argv 0 0 [] (replicate (length argv) 0) refl
          (omega (arith, length-replicate {A = ℕ} (length argv) 0)))
      ∙ ap some (append_read-nil (raw_bytes argv))
