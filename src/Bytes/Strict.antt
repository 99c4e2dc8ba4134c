-- ===== src/Bytes/Strict.antt =====
-- The loop of RcpParse.cpp, PdWebsocketServer.cpp and PdWebsocketClient.cpp takes a list of bytes or
-- nothing of it.
use rcp_flext.Prelude.{
  subst, ℕ, ◌+◌, ◌≡◌, refl, List, [], ◌∷◌, ◌++◌, Option, none, some, arith, inl, inr, replicate,
  length, length-append, length-replicate, all_some, Option-cases, append_assoc, cons_some, ◌∙◌, ap,
  sym,
}
use rcp_flext.Flext.{Flext, write-append, write}
use rcp_flext.Bytes.Defs.{Read, bytes, refused, strict_byte?, strict, strict_loop}

abbrev pub or_refused : Option (List ℕ) → Read
or_refused none = refused
or_refused (some bs) = bytes bs

module _ (fx : Flext) where
  open fx use {Atom}

  abbrev after : List ℕ → Option (List ℕ) → Read
  after done none = refused
  after done (some bs) = bytes (done ++ bs)

  after-nil : (r : Option (List ℕ)) → after [] r ≡ or_refused r
  after-nil none = refl
  after-nil (some bs) = refl

  after-append :
      (done : List ℕ) (b : ℕ) (r : Option (List ℕ))
      → after (done ++ b ∷ []) r ≡ after done (cons_some b r)
  after-append done b none = refl
  after-append done b (some bs) = ap bytes (append_assoc done (b ∷ []) bs)

  strict_loop_lem :
      (l : List Atom) (i : ℕ) (done over : List ℕ)
      → i ≡ length done
      → length over ≡ length l
      → strict_loop fx l i (done ++ over) ≡ some (after done (all_some (strict_byte? fx) l))
  unfolding strict_loop
  strict_loop_lem [] i done [] e h = refl
  strict_loop_lem [] i done (o ∷ over) e h = absurd (omega arith)
  strict_loop_lem (a ∷ l) i done [] e h = absurd (omega arith)
  strict_loop_lem (a ∷ l) i done (o ∷ over) e h = elim (Option-cases (strict_byte? fx a)) [
    | inl bad ↦ rw (bad, strict_loop, all_some)
    | inr (b, good) ↦
        let ih =
          strict_loop_lem l (i + 1) (done ++ b ∷ []) over
            (omega (arith, length-append done (b ∷ []))) (omega arith) in
        rw
          (
            good,
            strict_loop,
            all_some,
            subst (λ k. write (done ++ o ∷ over) k b ≡ some (done ++ b ∷ over)) (sym e)
                (write-append done o over b),
            ← after-append,
          )
          (simp append_assoc at ih)
  ]

  -- The loop that refuses a list never writes out of bounds, gives one byte for each atom, and
  -- refuses the list if some atom gives none.
  pub strict_lem :
      (argv : List Atom) → strict fx argv ≡ some (or_refused (all_some (strict_byte? fx) argv))
  unfolding strict
  strict_lem argv =
      strict_loop_lem argv 0 [] (replicate (length argv) 0) refl
        (length-replicate {A = ℕ} (length argv) 0)
      ∙ ap some (after-nil (all_some (strict_byte? fx) argv))
