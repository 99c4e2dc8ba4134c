-- ===== src/Format/Settings.antt =====
-- RcpFormat.cpp: the constructor, the id, the type and the label.
use rcp_flext.Prelude.{
  ℕ, ◌||◌, Bool, ℤ, pos, negsuc, ltb_ℤ, eq_ℤ, to_int16, Text, text, List, [], ◌∷◌, ◌++◌, Option,
  none, some, ◌==◌, if◌then◌else◌,
}
use rcp_flext.Flext.{Flext, Out, error}
use rcp_flext.Rcp.{Datatype, invalid, boolean, int32, float32, string, bang, Protocol}
use rcp_flext.Slip.Decoder.{Created, created, threw}
use rcp_flext.Format.Defs.{RcpFormat}

-- The checks of the constructor and of `m_setId`.
abbrev pub is_bad_id : ℤ → Bool
is_bad_id id = eq_ℤ id (pos 0) || ltb_ℤ (pos 32767) id || ltb_ℤ id (negsuc 32767)

-- `*t` of a C string
abbrev pub first_char : Text → ℕ
first_char [] = 0
first_char (c ∷ cs) = c

abbrev pub is_either : ℕ → ℕ → ℕ → Bool
is_either c a b = c == a || c == b

-- The type that a symbol names by its first letter.
unfoldable pub type_of_letter : ℕ → Datatype
type_of_letter c =
    if is_either c b'f' b'F'
    then float32
    else (if is_either c b'i' b'I'
        then int32
        else (if is_either c b't' b'T'
            then boolean
            else (if is_either c b's' b'S'
                then string
                else (if is_either c b'b' b'B' then bang else invalid))))

unfoldable pub set_type : RcpFormat → Text → RcpFormat
unfolding type_of_letter
set_type f sym = record f { type = type_of_letter (first_char sym) }

unfoldable pub get_type : RcpFormat → Text
get_type f = elim f.type [
  | float32 ↦ text "f"
  | int32 ↦ text "i"
  | boolean ↦ text "t"
  | bang ↦ text "b"
  | string ↦ text "s"
  | _ ↦ text "auto"
]

unfoldable pub set_id : RcpFormat → ℤ → Created RcpFormat
unfolding to_int16
set_id f id = if is_bad_id id then threw else created (record f { id = to_int16 id })

unfoldable pub clear_label : RcpFormat → RcpFormat
clear_label f = record f { label = [] }

unfoldable pub get_label : RcpFormat → Text
get_label f = f.label

module _ (fx : Flext) where
  open fx use {Atom, can_be_int, get_a_int}

  abbrev pub new_format : ℤ → Created RcpFormat
  new_format id =
      if is_bad_id id
      then threw
      else created (record { id = to_int16 id; type = invalid; label = []; label_option = [] })

  unfoldable pub create : List Atom → Created RcpFormat
  unfolding to_int16
  create [] = new_format (pos 1)
  create (a ∷ l) = if can_be_int a then new_format (get_a_int a (pos 0)) else threw

  module _ (rcp : Protocol) where
    open rcp use {label_option, terminator}

    abbrev pub written_option : Option (List ℕ) → List ℕ
    written_option none = []
    written_option (some bs) = bs ++ terminator ∷ terminator ∷ []

    abbrev pub option_error : Option (List ℕ) → List (Out Atom)
    option_error none = error ∷ []
    option_error (some bs) = []

    unfoldable pub set_label : RcpFormat → Text → RcpFormat × List (Out Atom)
    set_label f p =
        let option = label_option p in
        (record f { label = p; label_option = written_option option }, option_error option)
