-- ===== src/WsServer/Sets.antt =====
-- `std::set` of connection handles, as a list without repetitions.
use rcp_flext.Prelude.{
  ℕ, ◌+◌, ◌≡◌, Bool, true, false, ◌||◌, List, [], ◌∷◌, ◌==◌, if◌then◌else◌, length, arith, not,
  ◌&&◌, Bool-cases, inl, inr, ap, ◌∙◌,
}

unfoldable pub mem : ℕ → List ℕ → Bool
mem h [] = false
mem h (x ∷ xs) = (x == h) || mem h xs

-- m_connections.insert(h)
unfoldable pub insert : ℕ → List ℕ → List ℕ
unfolding mem
insert h xs = if mem h xs then xs else h ∷ xs

-- m_connections.erase(h)
unfoldable pub erase : ℕ → List ℕ → List ℕ
erase h [] = []
erase h (x ∷ xs) = if x == h then xs else x ∷ erase h xs

pub length-insert : (h : ℕ) (xs : List ℕ) → mem h xs ≡ false → length (insert h xs) ≡ length xs + 1
unfolding insert
length-insert h xs e = rw e (omega arith)

pub length-erase : (h : ℕ) (xs : List ℕ) → mem h xs ≡ true → length (erase h xs) + 1 ≡ length xs
unfolding mem erase
length-erase h [] e = cc
length-erase h (x ∷ xs) e = ground (arith, length-erase h xs)

-- A list without repetitions.
abbrev pub Unique : List ℕ → Type 0
Unique [] = Unit
Unique (x ∷ xs) = (mem x xs ≡ false) × Unique xs

pub same_mem : (h k : ℕ) (xs : List ℕ) → (h == k) ≡ true → mem h xs ≡ mem k xs
same_mem h k xs e = let p : h ≡ k = ground arith in ap (λ n. mem n xs) p

pub mem-insert : (k h : ℕ) (xs : List ℕ) → mem k (insert h xs) ≡ (h == k) || mem k xs
unfolding insert mem
mem-insert k h xs = elim (Bool-cases (h == k)) [
  | inl e ↦ elim (Bool-cases (mem h xs)) [
    | inl there ↦ rw (insert, there, e, ← same_mem h k xs e) there
    | inr new ↦ rw (insert, new, mem, e)
  ]
  | inr e ↦ elim (Bool-cases (mem h xs)) [
    | inl there ↦ rw (insert, there, e)
    | inr new ↦ rw (insert, new, mem, e)
  ]
]

pub Unique-insert : (h : ℕ) (xs : List ℕ) → Unique xs → Unique (insert h xs)
unfolding insert
Unique-insert h xs u = elim (Bool-cases (mem h xs)) [
  | inl there ↦ rw (insert, there) u
  | inr new ↦ rw (insert, new) (new, u)
]

pub mem-erase : (k h : ℕ) (xs : List ℕ) → Unique xs → mem k (erase h xs) ≡ not (h == k) && mem k xs
unfolding erase mem
mem-erase k h [] u = ground arith
mem-erase k h (x ∷ xs) u = ground (arith, mem-erase k h xs u.1, u.0, same_mem x k xs)

pub Unique-erase : (h : ℕ) (xs : List ℕ) → Unique xs → Unique (erase h xs)
unfolding erase mem
Unique-erase h [] u = tt
Unique-erase h (x ∷ xs) u = elim (Bool-cases (x == h)) [
  | inl e ↦ rw (erase, e) u.1
  | inr e ↦
      let out : mem x (erase h xs) ≡ false = mem-erase x h xs u.1 ∙ ground (arith, u.0) in
      rw (erase, e) (out, Unique-erase h xs u.1)
]
