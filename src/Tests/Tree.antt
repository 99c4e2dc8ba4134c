-- ===== src/Tests/Tree.antt =====
-- A concrete manager and server: the parameters in a list, each with its name, owner and label.
use rcp_flext.Prelude.{
  ℕ, ◌≡◌, refl, Bool, true, false, ◌&&◌, ◌||◌, pos, Text, text_eq, List, [], ◌∷◌, ◌++◌, Option,
  none, some, if◌then◌else◌, length, ◌==◌, arith, Option-cases, inl, inr, Bool-cases, ◌∙◌,
}
use mathlib.Core.Option.{some-injective}
use rcp_flext.Rcp.{int32}
use rcp_flext.Manager.{Manager}
use rcp_flext.Server.Expose.{ServerLib}
use rcp_flext.Server.Library.{Keeps, IsServer, keeps_refl}
use rcp_flext.Tests.Samples.{fx}

pub record Entry : Type 0 where
  pub name : ℕ
  pub owner : Option ℕ
  pub label : Text
  pub is_group : Bool

abbrev same_owner : Option ℕ → Option ℕ → Bool
same_owner none none = true
same_owner (some p) (some q) = p == q
same_owner _ _ = false

abbrev is_at : Entry → Text → Option ℕ → Bool
is_at e t g = text_eq e.label t && same_owner e.owner g

abbrev find_entry : List Entry → Text → Option ℕ → Option ℕ
find_entry [] t g = none
find_entry (e ∷ l) t g = if is_at e t g then some e.name else find_entry l t g

abbrev is_group_entry : List Entry → ℕ → Bool
is_group_entry [] p = false
is_group_entry (e ∷ l) p = ((e.name == p) && e.is_group) || is_group_entry l p

abbrev find_group_entry : List Entry → Text → Option ℕ → Option ℕ
find_group_entry l t g = elim (find_entry l t g) [
  | none ↦ none
  | some q ↦ if is_group_entry l q then some q else none
]

abbrev add_entry : List Entry → Bool → Text → Option ℕ → List Entry × Option ℕ
add_entry l b t g = elim (find_entry l t g) [
  | some q ↦ (l, none)
  | none ↦
      (l ++ record { name = length l; owner = g; label = t; is_group = b } ∷ [], some (length l))
]

abbrev pub tree : Manager fx
tree = record {
  State = List Entry;
  Param = ℕ;
  find_parameter = find_entry;
  get_parameter = λ l i. none;
  parameters = λ l. [];
  is_group = is_group_entry;
  is_value = λ l p. false;
  type_id = λ l p. int32;
  label = λ l p. none;
  id = λ l p. pos p;
  parent = λ l p. none;
  readonly = λ l p. false;
  order = λ l p. pos 0;
  value_bool = λ l p. false;
  value_int32 = λ l p. pos 0;
  value_float = λ l p. pos 0;
  value_string = λ l p. none;
  has_min = λ l p. false;
  has_max = λ l p. false;
  min_int32 = λ l p. pos 0;
  max_int32 = λ l p. pos 0;
  min_float = λ l p. pos 0;
  max_float = λ l p. pos 0;
  set_value_bool = λ l p b. l;
  set_value_int32 = λ l p w. l;
  set_value_float = λ l p w. l;
  set_value_string = λ l p t. l;
  set_dirty = λ l p. l;
  update = λ l. l;
}

abbrev pub tree_lib : ServerLib fx tree
tree_lib = record {
  find_group = find_group_entry;
  create_group = λ l t g. add_entry l true t g;
  expose = λ l type t g. add_entry l false t g;
  remove_parameter_id = λ l i. (l, true);
  update = λ l. l;
  set_min_float = λ l p f. l;
  set_max_float = λ l p f. l;
  set_min_int32 = λ l p i. l;
  set_max_int32 = λ l p i. l;
  set_order = λ l p i. l;
  set_readonly = λ l p b. l;
  watch = λ l p. l;
}

eq_same : (n : ℕ) → (n == n) ≡ true
eq_same n = ground arith

text_eq_same : (t : Text) → text_eq t t ≡ true
unfolding text_eq
text_eq_same [] = refl
text_eq_same (c ∷ t) = rw (eq_same c) (text_eq_same t)

same_owner_same : (g : Option ℕ) → same_owner g g ≡ true
same_owner_same none = refl
same_owner_same (some p) = eq_same p

find_kept :
    (l : List Entry) (e : Entry) (t : Text) (g : Option ℕ) (p : ℕ)
    → find_entry l t g ≡ some p
    → find_entry (l ++ e ∷ []) t g ≡ some p
find_kept [] e t g p h = cc
find_kept (x ∷ l) e t g p h = elim (Bool-cases (is_at x t g)) [
  | inl b ↦ rw b (rw b at h)
  | inr b ↦ rw b (find_kept l e t g p (rw b at h))
]

find_added :
    (l : List Entry) (n : ℕ) (b : Bool) (t : Text) (g : Option ℕ)
    → find_entry l t g ≡ none
    → find_entry (l ++ record { name = n; owner = g; label = t; is_group = b } ∷ []) t g ≡ some n
find_added [] n b t g h = rw (text_eq_same t, same_owner_same g) refl
find_added (x ∷ l) n b t g h = elim (Bool-cases (is_at x t g)) [
  | inl c ↦ let f = rw c at h in cc
  | inr c ↦ rw c (find_added l n b t g (rw c at h))
]

group_kept :
    (l : List Entry) (e : Entry) (p : ℕ)
    → is_group_entry l p ≡ true
    → is_group_entry (l ++ e ∷ []) p ≡ true
group_kept [] e p h = cc
group_kept (x ∷ l) e p h = ground (arith, group_kept l e p)

group_added :
    (l : List Entry) (n : ℕ) (g : Option ℕ) (t : Text)
    → is_group_entry (l ++ record { name = n; owner = g; label = t; is_group = true } ∷ []) n ≡ true
group_added [] n g t = ground arith
group_added (x ∷ l) n g t = ground (arith, group_added l n g t)

add_keeps :
    (l : List Entry) (b : Bool) (t : Text) (g : Option ℕ) → Keeps tree l (add_entry l b t g).0
add_keeps l b t g = elim (Option-cases (find_entry l t g)) [
  | inl e ↦ rw (add_entry, e) (record { still_found = find_kept l _; still_group = group_kept l _ })
  | inr (q, e) ↦ rw (add_entry, e) (keeps_refl tree l)
]

group_made :
    (l : List Entry) (t : Text) (g : Option ℕ)
    → find_entry l t g ≡ none
    → (q : ℕ) × ((add_entry l true t g).1 ≡ some q)
      × (find_entry (add_entry l true t g).0 t g ≡ some q)
      × (is_group_entry (add_entry l true t g).0 q ≡ true)
group_made l t g e = (
  length l,
  rw (add_entry, e) refl,
  rw (add_entry, e) (find_added l (length l) true t g e),
  rw (add_entry, e) (group_added l (length l) g t),
)

made :
    (l : List Entry) (b : Bool) (t : Text) (g : Option ℕ) (p : ℕ)
    → find_entry l t g ≡ none
    → (add_entry l b t g).1 ≡ some p
    → find_entry (add_entry l b t g).0 t g ≡ some p
made l b t g p e h = rw (add_entry, e) (find_added l (length l) b t g e ∙ rw (add_entry, e) at h)

group_found :
    (l : List Entry) (t : Text) (g : Option ℕ) (q : ℕ)
    → find_group_entry l t g ≡ some q
    → (find_entry l t g ≡ some q) × (is_group_entry l q ≡ true)
group_found l t g q h = elim (Option-cases (find_entry l t g)) [
  | inl e ↦ let f = rw (find_group_entry, e) at h in cc
  | inr (r, e) ↦ elim (Bool-cases (is_group_entry l r)) [
    | inl b ↦
        let same = some-injective _ _ (rw (find_group_entry, e, b) at h) in
        (rw (e, same) refl, rw (← same) b)
    | inr b ↦ let f = rw (find_group_entry, e, b) at h in cc
  ]
]

found_group :
    (l : List Entry) (t : Text) (g : Option ℕ) (q : ℕ)
    → find_entry l t g ≡ some q
    → is_group_entry l q ≡ true
    → find_group_entry l t g ≡ some q
found_group l t g q e b = rw (find_group_entry, e, b) refl

abbrev same : (l : List Entry) → Keeps tree l l
same l = keeps_refl tree l

pub tree-IsServer : IsServer tree tree_lib
tree-IsServer = record {
  find_group-found = group_found;
  found-find_group = found_group;
  create_group_made = group_made;
  expose_made = λ l type t g p e h. made l false t g p e h;
  create_group_keeps = λ l t g. add_keeps l true t g;
  expose_keeps = λ l type t g. add_keeps l false t g;
  update_keeps = same;
  watch_keeps = λ l p. same l;
  set_min_float_keeps = λ l p f. same l;
  set_max_float_keeps = λ l p f. same l;
  set_min_int32_keeps = λ l p i. same l;
  set_max_int32_keeps = λ l p i. same l;
  set_order_keeps = λ l p i. same l;
  set_readonly_keeps = λ l p b. same l;
  set_value_bool_keeps = λ l p b. same l;
  set_value_int32_keeps = λ l p i. same l;
  set_value_float_keeps = λ l p f. same l;
  set_value_string_keeps = λ l p t. same l;
}
