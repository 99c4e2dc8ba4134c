-- ===== src/Flext/Layer.antt =====
-- What flext (a git submodule, whose text is not in the repository) gives the objects, and what C++
-- leaves to the platform. An atom is what Pd or Max passes in a message.
use rcp_flext.Prelude.{
  ℕ, ◌^◌, ◌≡◌, Bool, true, ℤ, pos, negsuc, ◌≤ℤ◌, Text, List, signed, if◌then◌else◌, ◌-◌,
}

pub record Flext : Type 1 where
  pub Atom : Type 0
  -- C's `float`, and what the objects do with one.
  pub Float : Type 0
  pub is_string : Atom → Bool
  pub is_int : Atom → Bool
  pub is_float : Atom → Bool
  pub can_be_int : Atom → Bool
  pub can_be_float : Atom → Bool
  -- GetAInt(a, def), GetInt(a), GetAFloat(a), GetString(a)
  pub get_a_int : Atom → ℤ → ℤ
  pub get_int : Atom → ℤ
  pub get_a_float : Atom → Float
  pub get_string : Atom → Text
  -- What SetInt, SetFloat, SetBool, SetString and SetSymbol with MakeSymbol store.
  pub set_int : ℤ → Atom
  pub set_float : Float → Atom
  pub set_bool : Bool → Atom
  pub set_string : Text → Atom
  pub set_symbol : Text → Atom
  -- A value-initialised `t_atom`.
  pub blank : Atom
  -- (int)f, (float)i, the bits of f, std::to_string(f)
  pub float_to_int : Float → ℤ
  pub int_to_float : ℤ → Float
  pub float_bits : Float → ℕ
  pub float_text : Float → Text
  -- Whether `char` is a signed type, as on x86; it is unsigned on ARM Linux.
  pub char_is_signed : Bool

-- Documented behaviour of the integer atoms: an `int` has 32 bits, Pd keeps an atom's number in a
-- `float`, which is exact up to 2 ^ 24, the default of GetAInt is for atoms that are no number, and a
-- symbol keeps its text.
pub record IsFlext (fx : Flext) : Type 0 where
  pub can_be_int-set_int : (i : ℤ) → fx.can_be_int (fx.set_int i) ≡ true
  pub get_a_int-set_int :
      (i d : ℤ) → negsuc (2 ^ 24) ≤ℤ i → i ≤ℤ pos (2 ^ 24) → fx.get_a_int (fx.set_int i) d ≡ i
  pub get_a_int-default :
      (a : fx.Atom) (d e : ℤ) → fx.can_be_int a ≡ true → fx.get_a_int a d ≡ fx.get_a_int a e
  pub get_a_int_fits :
      (a : fx.Atom) (d : ℤ)
      → fx.can_be_int a ≡ true
      → (negsuc (2 ^ 31 - 1) ≤ℤ fx.get_a_int a d) × (fx.get_a_int a d ≤ℤ pos (2 ^ 31 - 1))
  pub is_string-set_string : (t : Text) → fx.is_string (fx.set_string t) ≡ true
  pub is_string-set_symbol : (t : Text) → fx.is_string (fx.set_symbol t) ≡ true
  pub get_string-set_string : (t : Text) → fx.get_string (fx.set_string t) ≡ t
  pub get_string-set_symbol : (t : Text) → fx.get_string (fx.set_symbol t) ≡ t

-- What an object does to the outside: a number or a list on one of its outlets, or a line on the
-- console. The text of a console line is not modelled.
pub data Out (A : Type 0) : Type 0 where
  to_out_int : ℕ → ℤ → Out A
  to_out_list : ℕ → List A → Out A
  to_out_symbol : ℕ → Text → Out A
  post : Out A
  error : Out A

-- A stored `char` read as an `int`: `b` is its bit pattern.
abbrev pub char_to_int : Bool → ℕ → ℤ
char_to_int is_signed b = if is_signed then signed 128 b else pos b
