-- ===== src/Bytes/Collect.antt =====
-- The loop of SlipEncoder.cpp and SPPParser.cpp keeps the bytes and drops the rest.
use native.Mathlib.Nat.{zero-add}
use rcp_flext.Prelude.{
  ℕ, suc, ◌+◌, ◌-◌, ◌≤◌, ◌≡◌, refl, List, [], ◌∷◌, ◌++◌, some, ◌>>=◌, arith, inl, inr, take,
  replicate, length, length-append, length-replicate, take-append, filter_map, Option-cases,
  append_assoc, append-nil,
}
use rcp_flext.Flext.{Flext, write-append}
use rcp_flext.Bytes.Defs.{byte?, collect, collect_loop}

module _ (fx : Flext) where
  open fx use {Atom}

  collect_loop_lem :
      (l : List Atom) (i offset : ℕ) (done over : List ℕ)
      → i ≡ length done + offset
      → length l ≤ length over
      → (collect_loop fx l i offset (done ++ over) >>= λ (buf, off).
          some (take (i + length l - off) buf))
        ≡ some (done ++ filter_map (byte? fx) l)
  unfolding collect_loop
  collect_loop_lem [] i offset done over e h =
      let k : i + 0 - offset ≡ length done = omega arith in rw (k, take-append, append-nil)
  collect_loop_lem (a ∷ l) i offset done [] e h = absurd (omega arith)
  collect_loop_lem (a ∷ l) i offset done (o ∷ over) e h =
      let shift : i + suc (length l) ≡ (i + 1) + length l = omega arith in
      rw shift (elim (Option-cases (byte? fx a)) [
        | inl skipped ↦
            rw (skipped, collect_loop, filter_map)
              (collect_loop_lem l (i + 1) (offset + 1) done (o ∷ over) (omega arith) (omega arith))
        | inr (b, kept) ↦
            let at : i - offset ≡ length done = omega arith in
            rw (kept, collect_loop, filter_map, at, write-append)
              (simp append_assoc at (
                collect_loop_lem l (i + 1) offset (done ++ b ∷ []) over
                  (omega (arith, length-append done (b ∷ []))) (omega arith)))
      ])

  -- The loop that collects bytes at `i - offset` never writes out of bounds, and gives the
  -- atoms that are bytes, in order.
  pub collect_lem : (argv : List Atom) → collect fx argv ≡ some (filter_map (byte? fx) argv)
  unfolding collect
  collect_lem argv = rw zero-add at (
      collect_loop_lem argv 0 0 [] (replicate (length argv) 0) refl
        (omega (arith, length-replicate {A = ℕ} (length argv) 0)))
