-- ===== src/Flext/Buffer.antt =====
-- `std::vector<t_atom> list(len)` and the writes into it. A write past the end is undefined behaviour.
use rcp_flext.Prelude.{
  append-nil, ℕ, zero, suc, ◌+◌, ◌-◌, ◌≤◌, ◌<◌, Option-cases, Bool-cases, replicate-add, inl, inr,
  ◌≡◌, refl, List, [], ◌∷◌, ◌++◌, Option, none, some, ◌>>=◌, arith, leb, if◌then◌else◌, length,
  length-append, length-replicate, replicate, take, take-append, append_assoc,
}

module _ {A : Type 0} where
  -- `v[i] = a`
  unfoldable pub write : List A → ℕ → A → Option (List A)
  write [] i a = none
  write (x ∷ xs) zero a = some (a ∷ xs)
  write (x ∷ xs) (suc i) a = do xs' ← write xs i a; some (x ∷ xs')

  -- `v[i] = a; i++;` for each `a` of the list
  unfoldable pub write_all : List A → ℕ → List A → Option (List A)
  write_all v i [] = some v
  write_all v i (a ∷ more) = do v' ← write v i a; write_all v' (i + 1) more

  -- A vector of `len` atoms is filled from the front, and as many as were written are sent:
  -- `std::vector<t_atom> list(len); int i = 0; SetX(list[i]); i++; … ToOutList(n, i, list.data());`
  unfoldable pub emit : A → ℕ → List A → Option (List A)
  unfolding write_all write
  emit blank len xs = do v ← write_all (replicate len blank) 0 xs; some (take (length xs) v)

  pub write-append :
      (done : List A) (x : A) (rest : List A) (a : A)
      → write (done ++ x ∷ rest) (length done) a ≡ some (done ++ a ∷ rest)
  unfolding write
  write-append [] x rest a = refl
  write-append (d ∷ done) x rest a = rw (write-append done x rest a)

  write_beyond : (v : List A) (i : ℕ) (a : A) → length v ≤ i → write v i a ≡ none
  unfolding write
  write_beyond [] i a h = refl
  write_beyond (x ∷ v) zero a h = absurd (omega arith)
  write_beyond (x ∷ v) (suc i) a h = rw (write_beyond v i a (omega arith))

  write_fits :
      (v : List A) (i : ℕ) (a : A) (w : List A)
      → write v i a ≡ some w
      → (i < length v) × (length w ≡ length v)
  unfolding write
  write_fits [] i a w e = cc
  write_fits (x ∷ v) zero a w e = (omega arith, ground arith)
  write_fits (x ∷ v) (suc i) a w e = elim (Option-cases (write v i a)) [
    | inl failed ↦ ground arith
    | inr (v', done) ↦ ground (arith, write_fits v i a v' done)
  ]

  -- Writes that fit replace as many entries after the first `length done`.
  pub write_all-append :
      (done over rest xs : List A)
      → length over ≡ length xs
      → write_all (done ++ (over ++ rest)) (length done) xs ≡ some (done ++ (xs ++ rest))
  unfolding write_all
  write_all-append done [] rest [] h = refl
  write_all-append done [] rest (x ∷ xs) h = absurd (omega arith)
  write_all-append done (o ∷ over) rest [] h = absurd (omega arith)
  write_all-append done (o ∷ over) rest (x ∷ xs) h =
      let ih = write_all-append (done ++ x ∷ []) over rest xs (omega arith) in
      rw write-append (simp (append_assoc, length-append) at ih)

  -- Writes that reach the end of the vector.
  pub write_all_end :
      (done over xs : List A)
      → length over ≡ length xs
      → write_all (done ++ over) (length done) xs ≡ some (done ++ xs)
  write_all_end done over xs h = simp append-nil at (write_all-append done over [] xs h)

  -- Writes that do not fit fault.
  pub write_all_beyond :
      (v : List A) (i : ℕ) (xs : List A)
      → i ≤ length v
      → length v < i + length xs
      → write_all v i xs ≡ none
  unfolding write_all
  write_all_beyond v i [] h k = absurd (omega arith)
  write_all_beyond v i (x ∷ xs) h k = elim (Option-cases (write v i x)) [
    | inl failed ↦ rw failed
    | inr (w, done) ↦ rw done (
        write_all_beyond w (i + 1) xs (omega (arith, write_fits v i x w done))
          (omega (arith, write_fits v i x w done)))
  ]

  -- A vector is sent as it was filled if it is long enough, and else the writes leave it.
  pub emit_lem :
      (blank : A) (len : ℕ) (xs : List A)
      → emit blank len xs ≡ (if leb (length xs) len then some xs else none)
  unfolding emit
  emit_lem blank len xs = elim (Bool-cases (leb (length xs) len)) [
    | inl fits ↦
        let h : length xs ≤ len = ground arith in
        let over = replicate (length xs) blank in
        let rest = replicate (len - length xs) blank in
        rw (
          fits,
          replicate-add (length xs) len blank h,
          write_all-append [] over rest xs (length-replicate (length xs) blank),
          take-append,
        )
    | inr over ↦
        let h : len < length xs = ground arith in
        rw (
          over,
          write_all_beyond (replicate len blank) 0 xs (omega arith)
              (omega (arith, length-replicate len blank)),
        )
  ]

  pub emit_fits :
      (blank : A) (len : ℕ) (xs : List A) → length xs ≤ len → emit blank len xs ≡ some xs
  emit_fits blank len xs h = ground (arith, emit_lem blank len xs)
