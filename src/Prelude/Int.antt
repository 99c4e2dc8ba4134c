-- ===== src/Prelude/Int.antt =====
-- Signed integers over the native numbers, and the conversions of C between its integer types.
use Prim.Native.Nat.{ℕ, suc, ◌+◌, ◌-◌, ◌%◌, ◌≤◌, ◌<◌}
use mathlib.Core.Path.{◌≡◌}
use mathlib.Core.Bool.{Bool}
use native.Mathlib.Omega.{arith}
use rcp_flext.Prelude.Tests.{ltb, leb, ◌==◌, if◌then◌else◌}

-- `negsuc n` is -(n + 1).
pub data ℤ : Type 0 where
  pos : ℕ → ℤ
  negsuc : ℕ → ℤ

abbrev pub pos_part : ℤ → ℕ
pos_part (pos n) = n
pos_part (negsuc n) = 0

abbrev pub neg_part : ℤ → ℕ
neg_part (pos n) = 0
neg_part (negsuc n) = suc n

infix 50 ◌≤ℤ◌ ◌<ℤ◌
abbrev pub ◌≤ℤ◌ : ℤ → ℤ → Type 0
a ≤ℤ b = pos_part a + neg_part b ≤ pos_part b + neg_part a

abbrev pub ◌<ℤ◌ : ℤ → ℤ → Type 0
a <ℤ b = pos_part a + neg_part b < pos_part b + neg_part a

abbrev pub ltb_ℤ : ℤ → ℤ → Bool
ltb_ℤ a b = ltb (pos_part a + neg_part b) (pos_part b + neg_part a)

abbrev pub leb_ℤ : ℤ → ℤ → Bool
leb_ℤ a b = leb (pos_part a + neg_part b) (pos_part b + neg_part a)

abbrev pub eq_ℤ : ℤ → ℤ → Bool
eq_ℤ a b = (pos_part a + neg_part b) == (pos_part b + neg_part a)

-- The bit pattern of a value in a type of 2 ^ w values, `m` = 2 ^ w: a conversion to an unsigned type.
abbrev pub wrap : ℕ → ℤ → ℕ
wrap m (pos n) = n % m
wrap m (negsuc n) = m - 1 - n % m

-- The value of a bit pattern below 2 * h in a signed type.
abbrev pub signed : ℕ → ℕ → ℤ
signed h n = if ltb n h then pos n else negsuc (h + h - n - 1)

-- `int16_t id = i`
unfoldable pub to_int16 : ℤ → ℤ
to_int16 i = signed 32768 (wrap 65536 i)

-- `uint16_t id = i`
unfoldable pub to_uint16 : ℤ → ℤ
to_uint16 i = pos (wrap 65536 i)

-- `unsigned int di = i`
unfoldable pub to_uint32 : ℤ → ℕ
to_uint32 i = wrap 4294967296 i

pub to_int16_id : (i : ℤ) → negsuc 32767 ≤ℤ i → i ≤ℤ pos 32767 → to_int16 i ≡ i
unfolding to_int16
to_int16_id (pos n) lo hi = ground arith
to_int16_id (negsuc n) lo hi = ground arith

-- A negative number is a large unsigned one.
pub to_uint32-neg : (n : ℕ) → n < 2147483648 → 255 < to_uint32 (negsuc n)
unfolding to_uint32
to_uint32-neg n h = omega arith
