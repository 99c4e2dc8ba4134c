-- ===== src/Bytes/Atoms.antt =====
-- One byte, sent as an atom and read by each of the loops.
use rcp_flext.Prelude.{
  cons_some, Option-cases, length, ℕ, ◌<◌, ◌≤◌, ◌≡◌, refl, Bool, true, false, ◌&&◌, List, [], ◌∷◌,
  Option, none, some, arith, ltb, pos, negsuc, if◌then◌else◌, All, filter_map, inl, inr, to_uint32,
  ◌-◌,
}
use rcp_flext.Flext.{Flext, IsFlext, char_to_int}
use rcp_flext.Bytes.Defs.{bytes, refused, byte?, strict_byte?, raw_atom, refuse, keep}
use rcp_flext.Bytes.Strict.{or_refused}
use rcp_flext.Bytes.Raw.{cons_read}

abbrev pub IsByte : ℕ → Type 0
IsByte b = b < 256

-- A byte that is the same number in a signed `char`.
abbrev pub is_ascii : ℕ → Bool
is_ascii b = ltb b 128

abbrev pub all_ascii : List ℕ → Bool
all_ascii [] = true
all_ascii (b ∷ bs) = is_ascii b && all_ascii bs

-- The bytes that survive a trip through signed atoms and a loop that skips.
abbrev pub ascii_only : List ℕ → List ℕ
ascii_only [] = []
ascii_only (b ∷ bs) = if is_ascii b then b ∷ ascii_only bs else ascii_only bs

pub char_to_int-ascii : (s : Bool) (b : ℕ) → is_ascii b ≡ true → char_to_int s b ≡ pos b
char_to_int-ascii s b h = ground arith

pub char_to_int-high :
    (b : ℕ) → IsByte b → is_ascii b ≡ false → char_to_int true b ≡ negsuc (255 - b)
char_to_int-high b h k = ground arith

pub or_refused-cons :
    (b : ℕ) (r : Option (List ℕ)) → or_refused (cons_some b r) ≡ cons_read b (or_refused r)
or_refused-cons b none = refl
or_refused-cons b (some bs) = refl

pub cons_read-if :
    (b : ℕ) (flag : Bool) (bs : List ℕ)
    → cons_read b (if flag then refused else bytes bs) ≡ (if flag then refused else bytes (b ∷ bs))
cons_read-if b true bs = refl
cons_read-if b false bs = refl

module _ (fx : Flext) where
  byte?-IsByte : (a : fx.Atom) (b : ℕ) → byte? fx a ≡ some b → IsByte b
  unfolding byte?
  byte?-IsByte a b h = ground arith

  -- What the loop keeps are bytes.
  pub filter_map-IsByte : (argv : List fx.Atom) → All IsByte (filter_map (byte? fx) argv)
  filter_map-IsByte [] = tt
  filter_map-IsByte (a ∷ l) = elim (Option-cases (byte? fx a)) [
    | inl skipped ↦ rw (skipped, filter_map) (filter_map-IsByte l)
    | inr (b, kept) ↦ rw (kept, filter_map) (byte?-IsByte a b kept, filter_map-IsByte l)
  ]

  pub length-filter_map-le :
      (argv : List fx.Atom) → length (filter_map (byte? fx) argv) ≤ length argv
  length-filter_map-le [] = omega arith
  length-filter_map-le (a ∷ l) = elim (Option-cases (byte? fx a)) [
    | inl skipped ↦ rw (skipped, filter_map) (omega (arith, length-filter_map-le l))
    | inr (b, kept) ↦ rw (kept, filter_map) (omega (arith, length-filter_map-le l))
  ]

module _ (fx : Flext) (laws : IsFlext fx) where
  open fx use {set_int, char_is_signed}
  open laws use {can_be_int-set_int, get_a_int-set_int}

  pub byte?-set_int : (b : ℕ) → IsByte b → byte? fx (set_int (pos b)) ≡ some b
  unfolding byte?
  byte?-set_int b h =
      rw
        (
          can_be_int-set_int (pos b),
          get_a_int-set_int (pos b) (negsuc 0) (omega arith) (omega arith),
        )
        (ground arith)

  pub byte?-negative : (b : ℕ) → b < 256 → byte? fx (set_int (negsuc b)) ≡ none
  unfolding byte?
  byte?-negative b h =
      rw
        (
          can_be_int-set_int (negsuc b),
          get_a_int-set_int (negsuc b) (negsuc 0) (omega arith) (omega arith),
        )
        (ground arith)

  pub raw_atom-set_int : (b : ℕ) → IsByte b → raw_atom fx (set_int (pos b)) ≡ keep b
  unfolding raw_atom
  raw_atom-set_int b h =
      rw
        (
          can_be_int-set_int (pos b),
          get_a_int-set_int (pos b) (negsuc 0) (omega arith) (omega arith),
        )
        (ground arith)

  pub raw_atom-negative : (b : ℕ) → b < 256 → raw_atom fx (set_int (negsuc b)) ≡ refuse
  unfolding raw_atom
  raw_atom-negative b h =
      rw
        (
          can_be_int-set_int (negsuc b),
          get_a_int-set_int (negsuc b) (negsuc 0) (omega arith) (omega arith),
        )
        (ground arith)

  pub strict_byte?-set_int : (b : ℕ) → IsByte b → strict_byte? fx (set_int (pos b)) ≡ some b
  unfolding strict_byte? to_uint32
  strict_byte?-set_int b h =
      rw
        (
          can_be_int-set_int (pos b),
          get_a_int-set_int (pos b) (pos 1000) (omega arith) (omega arith),
        )
        (ground arith)

  pub strict_byte?-negative : (b : ℕ) → b < 256 → strict_byte? fx (set_int (negsuc b)) ≡ none
  unfolding strict_byte? to_uint32
  strict_byte?-negative b h =
      rw
        (
          can_be_int-set_int (negsuc b),
          get_a_int-set_int (negsuc b) (pos 1000) (omega arith) (omega arith),
        )
        (ground arith)
