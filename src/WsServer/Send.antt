-- ===== src/WsServer/Send.antt =====
-- Which connections the calls that send reach, before one of them throws.
use rcp_flext.Prelude.{
  ℕ, ◌≡◌, refl, Bool, true, false, ◌&&◌, not, List, [], ◌∷◌, Option, some, Bool-cases, inl, inr,
  arith, ◌==◌, ap, subst, fun_ext,
}
use rcp_flext.WsServer.Sets.{mem, Unique}
use rcp_flext.WsServer.Defs.{
  WsServer, Sending, quiet, send_then, send_to_all, send_to_all_loop, is_excluded, send_to_one,
  send_to_one_loop, send_loop,
}

-- What came of sending to those that are to get the data: each gets it at most once, only those that
-- are open do, all do unless a call threw, and a call threw exactly if one of them is not open.
pub record Reaches (to_get is_open : ℕ → Bool) (s : Sending) : Type 0 where
  pub once : Unique s.receivers
  pub sound : (k : ℕ) → mem k s.receivers ≡ true → to_get k && is_open k ≡ true
  pub complete : s.threw ≡ false → (k : ℕ) → mem k s.receivers ≡ to_get k
  pub closed : (k : ℕ) → to_get k && not (is_open k) ≡ true → s.threw ≡ true
  pub threw_at : s.threw ≡ true → (k : ℕ) × (to_get k && not (is_open k) ≡ true)

pub Reaches-same :
    (f g is_open : ℕ → Bool) (s : Sending)
    → ((k : ℕ) → f k ≡ g k)
    → Reaches f is_open s
    → Reaches g is_open s
Reaches-same f g is_open s h r = subst (λ p. Reaches p is_open s) (fun_ext h) r

nobody : (f is_open : ℕ → Bool) → ((k : ℕ) → f k ≡ false) → Reaches f is_open quiet
unfolding mem
nobody f is_open h = record {
  once = tt;
  sound = λ k e. cc;
  complete = λ e k. rw (h k) refl;
  closed = λ k e. ground (arith, h k);
  threw_at = λ e. cc;
}

module _ (w is_open : ℕ → Bool) where
  -- Those of a list that are to get the data.
  abbrev among : List ℕ → ℕ → Bool
  among conns k = mem k conns && w k

  same_w : (c k : ℕ) → (c == k) ≡ true → w c ≡ w k
  same_w c k e = let p : c ≡ k = ground arith in ap w p

  same_open : (c k : ℕ) → (c == k) ≡ true → is_open c ≡ is_open k
  same_open c k e = let p : c ≡ k = ground arith in ap is_open p

  passed_over :
      (c : ℕ) (conns : List ℕ) (later : Sending)
      → w c ≡ false
      → Reaches (among conns) is_open later
      → Reaches (among (c ∷ conns)) is_open later
  unfolding mem
  passed_over c conns later skips r =
      Reaches-same (among conns) (among (c ∷ conns)) is_open later (λ k. ground (arith, same_w c k))
        r

  sent_first :
      (c : ℕ) (conns : List ℕ) (later : Sending)
      → mem c conns ≡ false
      → w c ≡ true
      → is_open c ≡ true
      → Reaches (among conns) is_open later
      → Reaches (among (c ∷ conns)) is_open (record later { receivers = c ∷ later.receivers })
  unfolding mem
  sent_first c conns later new gets up r = record {
    once = (ground (arith, r.sound c), r.once);
    sound = λ k h. ground (arith, r.sound k, same_w c k, same_open c k);
    complete = λ h k. ground (arith, r.complete h k, same_w c k);
    closed = λ k h. ground (arith, r.closed k, same_open c k);
    threw_at = λ h. let (k, e) = r.threw_at h in (k, ground (arith, e));
  }

  thrown :
      (c : ℕ) (conns : List ℕ)
      → w c ≡ true
      → is_open c ≡ false
      → Reaches (among (c ∷ conns)) is_open (record { receivers = []; threw = true })
  unfolding mem
  thrown c conns gets down = record {
    once = tt;
    sound = λ k h. cc;
    complete = λ h k. cc;
    closed = λ k h. refl;
    threw_at = λ h. (c, ground arith);
  }

  send_then-Reaches :
      (c : ℕ) (conns : List ℕ) (later : Sending)
      → mem c conns ≡ false
      → w c ≡ true
      → Reaches (among conns) is_open later
      → Reaches (among (c ∷ conns)) is_open (send_then is_open c later)
  send_then-Reaches c conns later new gets r = elim (Bool-cases (is_open c)) [
    | inl up ↦ rw up (sent_first c conns later new gets up r)
    | inr down ↦ rw down (thrown c conns gets down)
  ]

  nobody_left : Reaches (among []) is_open quiet
  unfolding mem
  nobody_left = nobody (among []) is_open (λ k. refl)

module _ (is_open : ℕ → Bool) where
  pub send_loop-Reaches :
      (conns : List ℕ)
      → Unique conns
      → Reaches (among (λ k. true) is_open conns) is_open (send_loop is_open conns)
  unfolding send_loop
  send_loop-Reaches [] u = nobody_left (λ k. true) is_open
  send_loop-Reaches (c ∷ conns) u =
      send_then-Reaches (λ k. true) is_open c conns (send_loop is_open conns) u.0 refl
        (send_loop-Reaches conns u.1)

  module _ (lock : ℕ → Bool) where
    -- Whether a connection is to get a message that is sent to all.
    abbrev pub wanted : Option ℕ → ℕ → Bool
    wanted exclude k = lock k && not (is_excluded exclude k)

    abbrev pub named : ℕ → ℕ → Bool
    named id k = lock k && (k == id)

    send_to_all_loop-Reaches :
        (conns : List ℕ) (exclude : Option ℕ)
        → Unique conns
        → Reaches
            (among (wanted exclude) is_open conns)
            is_open
            (send_to_all_loop lock is_open conns exclude)
    unfolding send_to_all_loop
    send_to_all_loop-Reaches [] exclude u = nobody_left (wanted exclude) is_open
    send_to_all_loop-Reaches (c ∷ conns) exclude u =
        let r = send_to_all_loop-Reaches conns exclude u.1 in
        elim (Bool-cases (wanted exclude c)) [
          | inl gets ↦
              rw (send_to_all_loop, gets)
                (send_then-Reaches (wanted exclude) is_open c conns _ u.0 gets r)
          | inr skips ↦
              rw (send_to_all_loop, skips) (passed_over (wanted exclude) is_open c conns _ skips r)
        ]

    send_to_one_loop-Reaches :
        (conns : List ℕ) (id : ℕ)
        → Unique conns
        → Reaches (among (named id) is_open conns) is_open (send_to_one_loop lock is_open conns id)
    unfolding send_to_one_loop
    send_to_one_loop-Reaches [] id u = nobody_left (named id) is_open
    send_to_one_loop-Reaches (c ∷ conns) id u =
        let r = send_to_one_loop-Reaches conns id u.1 in
        elim (Bool-cases (named id c)) [
          | inl gets ↦
              rw (send_to_one_loop, gets)
                (send_then-Reaches (named id) is_open c conns _ u.0 gets r)
          | inr skips ↦
              rw (send_to_one_loop, skips) (passed_over (named id) is_open c conns _ skips r)
        ]

    pub send_to_all-Reaches :
        (s : WsServer) (exclude : Option ℕ)
        → Unique s.connections
        → Reaches
            (λ k. s.is_listening && (mem k s.connections && wanted exclude k))
            is_open
            (send_to_all lock is_open s exclude)
    unfolding send_to_all
    send_to_all-Reaches s exclude u = elim (Bool-cases s.is_listening) [
      | inl b ↦ rw (send_to_all, b) (send_to_all_loop-Reaches s.connections exclude u)
      | inr b ↦ rw (send_to_all, b) (nobody _ is_open (λ k. refl))
    ]

    pub send_to_one-Reaches :
        (s : WsServer) (id : ℕ)
        → Unique s.connections
        → Reaches
            (λ k. s.is_listening && (mem k s.connections && named id k))
            is_open
            (send_to_one lock is_open s (some id))
    unfolding send_to_one
    send_to_one-Reaches s id u = elim (Bool-cases s.is_listening) [
      | inl b ↦ rw (send_to_one, b) (send_to_one_loop-Reaches s.connections id u)
      | inr b ↦ rw (send_to_one, b) (nobody _ is_open (λ k. refl))
    ]
