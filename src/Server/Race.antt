-- ===== src/Server/Race.antt =====
-- ParameterServer.cpp: `listen` binds the new transporter before it resets the count, and from then on
-- the service thread of the transporter calls `connected`.
use rcp_flext.Prelude.{
  ℕ, zero, suc, ◌+◌, ◌-◌, ◌≡◌, refl, Bool, ℤ, pos, ltb, List, [], ◌∷◌, ◌++◌, replicate, arith,
  le→not-ltb, ap, ◌∙◌, false,
}
use rcp_flext.Flext.{Out, to_out_int, error}
use rcp_flext.Server.Port.{PortState, comes, goes, steps, connected, disconnected, with_new}

module _ (A : Type 0) where
  -- The two halves of the branch of `listen` that makes a transporter.
  unfoldable pub bind_new : PortState → ℤ → Bool → PortState
  bind_new s p bound = record (with_new A s p bound) { client_count = s.client_count }

  unfoldable pub reset_count : PortState → PortState × List (Out A)
  reset_count s = (record s { client_count = pos 0 }, to_out_int 2 (pos 0) ∷ [])

  -- The count that is shown while it is not interrupted.
  reset_count-bind_new :
      (s : PortState) (p : ℤ) (bound : Bool)
      → (reset_count (bind_new s p bound)).0 ≡ with_new A s p bound
  unfolding reset_count bind_new
  reset_count-bind_new s p bound = refl

  abbrev one_complaint : Out A → ℕ
  one_complaint error = 1
  one_complaint _ = 0

  -- How often the object complains about the count.
  abbrev pub complaints : List (Out A) → ℕ
  complaints [] = 0
  complaints (x ∷ outs) = one_complaint x + complaints outs

  complaints-append : (xs ys : List (Out A)) → complaints (xs ++ ys) ≡ complaints xs + complaints ys
  complaints-append [] ys = omega arith
  complaints-append (x ∷ xs) ys = omega (arith, complaints-append xs ys)

  -- Clients that come, and clients that go.
  abbrev pub all_come : PortState → ℕ → PortState
  all_come s n = (steps A s (replicate n comes)).0

  abbrev pub all_go : PortState → ℕ → PortState × List (Out A)
  all_go s n = steps A s (replicate n goes)

  all_come-count :
      (s : PortState) (m n : ℕ) → s.client_count ≡ pos m → (all_come s n).client_count ≡ pos (m + n)
  unfolding steps connected
  all_come-count s m zero e = e ∙ (let h : m ≡ m + 0 = omega arith in ap pos h)
  all_come-count s m (suc n) e =
      let h : m + 1 + n ≡ m + suc n = omega arith in
      all_come-count (connected A s).0 (m + 1) n (rw e refl) ∙ ap pos h

  -- One client that goes.
  record Gone (s : PortState) (m : ℕ) : Type 0 where
    complains : complaints (disconnected A s).1 ≡ 1 - m
    count : (disconnected A s).0.client_count ≡ pos (m - 1)

  gone : (s : PortState) (m : ℕ) → s.client_count ≡ pos m → Gone s m
  unfolding disconnected
  gone s zero e = record { complains = rw e refl; count = rw e refl }
  gone s (suc m) e =
      let z : ltb (m + 0) 0 ≡ false = le→not-ltb (m + 0) 0 (omega arith) in
      record { complains = rw (e, z) (omega arith); count = rw (e, z) (ap pos (omega arith)) }

  all_go-complaints :
      (s : PortState) (m n : ℕ) → s.client_count ≡ pos m → complaints (all_go s n).1 ≡ n - m
  unfolding steps
  all_go-complaints s m zero e = omega arith
  all_go-complaints s m (suc n) e =
      let g = gone s m e in
      complaints-append (disconnected A s).1 (all_go (disconnected A s).0 n).1
      ∙ omega (arith, g.complains, all_go-complaints (disconnected A s).0 (m - 1) n g.count)

  -- Clients that come between the binding of a new transporter and the reset of the count are
  -- not counted: after the reset the count is the number of those that come later, and when all
  -- have gone the object has complained about a negative count exactly once for each early one.
  pub early_clients_lem :
      (s : PortState) (p : ℤ) (bound : Bool) (early later : ℕ)
      → let s1 = (reset_count (all_come (bind_new s p bound) early)).0 in
        let s2 = all_come s1 later in
        (s2.client_count ≡ pos later) × (complaints (all_go s2 (early + later)).1 ≡ early)
  unfolding reset_count
  early_clients_lem s p bound early later =
      let s1 = (reset_count (all_come (bind_new s p bound) early)).0 in
      let s2 = all_come s1 later in
      let count = all_come-count s1 0 later refl in
      (
        count ∙ ap pos (omega arith),
        all_go-complaints s2 (0 + later) (early + later) count ∙ omega arith,
      )
