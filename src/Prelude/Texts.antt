-- ===== src/Prelude/Texts.antt =====
-- Texts as lists of bytes.
use Prim.Native.Nat.{zero, suc, ℕ, suc, ◌+◌, ◌/◌, ◌%◌}
use Prim.Native.Char.{code}
use Prim.Native.String.{String}
use mathlib.Core.Bool.{Bool, true, false, ◌&&◌}
use mathlib.Core.List.{List, [], ◌∷◌}
use rcp_flext.Prelude.Tests.{◌==◌, ltb, if◌then◌else◌}
use rcp_flext.Prelude.Int.{ℤ, pos, negsuc}

abbrev pub Text : Type 0
Text = List ℕ

-- The bytes of an ASCII literal.
unfoldable pub text : String → Text
text String.[] = []
text (String.◌∷◌ c s) = code c ∷ text s

-- `a == b` of two `std::string`.
unfoldable pub text_eq : Text → Text → Bool
text_eq [] [] = true
text_eq (a ∷ l) (b ∷ r) = (a == b) && text_eq l r
text_eq _ _ = false

-- `s.find(t, 0) == 0`
unfoldable pub has_prefix : Text → Text → Bool
has_prefix [] s = true
has_prefix (a ∷ l) (b ∷ r) = (a == b) && has_prefix l r
has_prefix (a ∷ l) [] = false

-- The decimal digits of a number of at most `fuel` digits, before those in `done`.
unfoldable pub digits : ℕ → ℕ → Text → Text
digits zero n done = done
digits (suc fuel) n done =
    let rest = digits fuel (n / 10) ((48 + n % 10) ∷ done) in
    if ltb n 10 then (48 + n) ∷ done else rest

-- `std::to_string(i)` of an `int`, which has ten digits at most.
unfoldable pub to_text : ℤ → Text
unfolding digits
to_text (pos n) = digits 10 n []
to_text (negsuc n) = 45 ∷ digits 10 (n + 1) []
