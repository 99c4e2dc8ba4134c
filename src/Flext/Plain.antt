-- ===== src/Flext/Plain.antt =====
-- A concrete flext layer, on which the definitions run: an atom is an integer, a float (kept as a
-- whole number) or a symbol.
use rcp_flext.Prelude.{
  ◌-◌, ◌^◌, ◌≤ℤ◌, negsuc, signed, arith, refl, Bool, true, false, ℤ, pos, wrap, Text, [],
  if◌then◌else◌, ◌≡◌,
}
use rcp_flext.Flext.Layer.{Flext, IsFlext}

pub data PlainAtom : Type 0 where
  int : ℤ → PlainAtom
  float : ℤ → PlainAtom
  symbol : Text → PlainAtom

-- The `int` that an integer wraps to.
abbrev to_int32 : ℤ → ℤ
to_int32 i = signed 2147483648 (wrap 4294967296 i)

abbrev as_int : PlainAtom → ℤ → ℤ
as_int (int i) d = to_int32 i
as_int (float i) d = to_int32 i
as_int (symbol t) d = d

abbrev as_float : PlainAtom → ℤ
as_float (int i) = i
as_float (float i) = i
as_float (symbol t) = pos 0

abbrev as_text : PlainAtom → Text
as_text (symbol t) = t
as_text _ = []

abbrev is_int : PlainAtom → Bool
is_int (int i) = true
is_int _ = false

abbrev is_float : PlainAtom → Bool
is_float (float i) = true
is_float _ = false

abbrev is_symbol : PlainAtom → Bool
is_symbol (symbol t) = true
is_symbol _ = false

abbrev is_number : PlainAtom → Bool
is_number (symbol t) = false
is_number _ = true

-- `char` is signed or not, as the argument says.
abbrev pub plain : Bool → Flext
plain is_signed = record {
  Atom = PlainAtom;
  Float = ℤ;
  is_string = is_symbol;
  is_int = is_int;
  is_float = is_float;
  can_be_int = is_number;
  can_be_float = is_number;
  get_a_int = as_int;
  get_int = λ a. as_int a (pos 0);
  get_a_float = as_float;
  get_string = as_text;
  set_int = int;
  set_float = float;
  set_bool = λ b. int (if b then pos 1 else pos 0);
  set_string = symbol;
  set_symbol = symbol;
  blank = int (pos 0);
  float_to_int = λ f. f;
  int_to_float = λ i. i;
  float_bits = wrap 4294967296;
  float_text = λ f. [];
  char_is_signed = is_signed;
}

to_int32_id : (i : ℤ) → negsuc (2 ^ 24) ≤ℤ i → i ≤ℤ pos (2 ^ 24) → to_int32 i ≡ i
to_int32_id (pos n) lo hi = ground arith
to_int32_id (negsuc n) lo hi = ground arith

to_int32_fits : (i : ℤ) → (negsuc (2 ^ 31 - 1) ≤ℤ to_int32 i) × (to_int32 i ≤ℤ pos (2 ^ 31 - 1))
to_int32_fits (pos n) = ground arith
to_int32_fits (negsuc n) = ground arith

as_int_default : (a : PlainAtom) (d e : ℤ) → is_number a ≡ true → as_int a d ≡ as_int a e
as_int_default (int i) d e h = refl
as_int_default (float i) d e h = refl
as_int_default (symbol t) d e h = cc

as_int_fits :
    (a : PlainAtom) (d : ℤ)
    → is_number a ≡ true
    → (negsuc (2 ^ 31 - 1) ≤ℤ as_int a d) × (as_int a d ≤ℤ pos (2 ^ 31 - 1))
as_int_fits (int i) d h = to_int32_fits i
as_int_fits (float i) d h = to_int32_fits i
as_int_fits (symbol t) d h = cc

-- The documented behaviour can be met.
pub plain-IsFlext : (b : Bool) → IsFlext (plain b)
plain-IsFlext b = record {
  can_be_int-set_int = λ i. refl;
  get_a_int-set_int = λ i d lo hi. to_int32_id i lo hi;
  get_a_int-default = as_int_default;
  get_a_int_fits = as_int_fits;
  is_string-set_string = λ t. refl;
  is_string-set_symbol = λ t. refl;
  get_string-set_string = λ t. refl;
  get_string-set_symbol = λ t. refl;
}
