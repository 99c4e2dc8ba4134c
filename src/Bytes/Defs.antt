-- ===== src/Bytes/Defs.antt =====
-- The loops over atoms of SlipEncoder.cpp, SPPParser.cpp, RcpParse.cpp and
-- ParameterServerClientBase.cpp.
use rcp_flext.Prelude.{
  ℕ, ◌+◌, ◌-◌, ◌&&◌, ◌||◌, pos, negsuc, ltb_ℤ, leb_ℤ, wrap, to_uint32, List, [], ◌∷◌, map, Option,
  none, some, ◌>>=◌, ltb, if◌then◌else◌, take, replicate, length,
}
use rcp_flext.Flext.{Flext, char_to_int, write}

-- What a loop that may stop at an atom comes to.
pub data Read : Type 0 where
  bytes : List ℕ → Read
  refused : Read

-- What `raw_data_list` does with one atom.
pub data RawAtom : Type 0 where
  skip refuse : RawAtom
  keep : ℕ → RawAtom

abbrev pub finish_raw : ℕ → Option (List ℕ × ℕ) → Read
finish_raw argc none = refused
finish_raw argc (some (buf, offset)) = bytes (take (argc - offset) buf)

module _ (fx : Flext) where
  open fx use {Atom, can_be_int, get_a_int, set_int, char_is_signed}

  -- `CanbeInt(a)`, then `id >= 0 && id < 256`
  unfoldable pub byte? : Atom → Option ℕ
  byte? a =
      let id = get_a_int a (negsuc 0) in
      if can_be_int a
      then (if leb_ℤ (pos 0) id && ltb_ℤ id (pos 256) then some (wrap 256 id) else none)
      else none

  -- The loop over `i` and `offset` that fills `data`.
  unfoldable pub collect_loop : List Atom → ℕ → ℕ → List ℕ → Option (List ℕ × ℕ)
  collect_loop [] i offset buf = some (buf, offset)
  collect_loop (a ∷ l) i offset buf = elim (byte? a) [
    | some id ↦ write buf (i - offset) id >>= λ buf'. collect_loop l (i + 1) offset buf'
    | none ↦ collect_loop l (i + 1) (offset + 1) buf
  ]

  -- `data.data()` with `argc - offset` bytes
  unfoldable pub collect : List Atom → Option (List ℕ)
  unfolding collect_loop byte? write
  collect argv = collect_loop argv 0 0 (replicate (length argv) 0) >>= λ (buf, offset).
      some (take (length argv - offset) buf)

  -- `CanbeInt(a)` and `(unsigned int)GetAInt(a, 1000) <= 255`
  unfoldable pub strict_byte? : Atom → Option ℕ
  strict_byte? a =
      let di = to_uint32 (get_a_int a (pos 1000)) in
      if can_be_int a then (if ltb 255 di then none else some di) else none

  unfoldable pub strict_loop : List Atom → ℕ → List ℕ → Option Read
  strict_loop [] i buf = some (bytes buf)
  strict_loop (a ∷ l) i buf = elim (strict_byte? a) [
    | some di ↦ write buf i di >>= λ buf'. strict_loop l (i + 1) buf'
    | none ↦ some refused
  ]

  unfoldable pub strict : List Atom → Option Read
  unfolding strict_loop strict_byte? write to_uint32
  strict argv = strict_loop argv 0 (replicate (length argv) 0)

  unfoldable pub raw_atom : Atom → RawAtom
  raw_atom a =
      let value = get_a_int a (negsuc 0) in
      if can_be_int a
      then (if ltb_ℤ value (pos 0) || ltb_ℤ (pos 255) value then refuse else keep (wrap 256 value))
      else skip

  unfoldable pub raw_loop : List Atom → ℕ → ℕ → List ℕ → Option (Option (List ℕ × ℕ))
  raw_loop [] i offset buf = some (some (buf, offset))
  raw_loop (a ∷ l) i offset buf = elim (raw_atom a) [
    | keep value ↦ write buf (i - offset) value >>= λ buf'. raw_loop l (i + 1) offset buf'
    | skip ↦ raw_loop l (i + 1) (offset + 1) buf
    | refuse ↦ some none
  ]

  -- The bytes that `raw_data_list` hands to `handle_raw_data`.
  unfoldable pub raw_data : List Atom → Option Read
  unfolding raw_loop raw_atom write
  raw_data argv =
      raw_loop argv 0 0 (replicate (length argv) 0) >>= λ r. some (finish_raw (length argv) r)

  -- `SetInt(atoms[i], data[i])` for each `char`
  unfoldable pub data_atoms : List ℕ → List Atom
  data_atoms = map (λ b. set_int (char_to_int char_is_signed b))

  -- `SetInt(atoms[i], (unsigned char)data[i])`
  unfoldable pub unsigned_atoms : List ℕ → List Atom
  unsigned_atoms = map (λ b. set_int (pos b))
