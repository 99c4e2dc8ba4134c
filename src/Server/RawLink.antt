-- ===== src/Server/RawLink.antt =====
-- Two objects with the option "-raw", the data outlet of one wired to the data inlet of the other.
use rcp_flext.Prelude.{ℕ, ◌≡◌, ◌&&◌, not, List, [], some, if◌then◌else◌, Bool-cases, inl, inr, All}
use rcp_flext.Flext.{Flext, IsFlext}
use rcp_flext.Bytes.{bytes, data_atoms, IsByte, all_ascii, raw_data-data_atoms}
use rcp_flext.Server.Object.{pushed, raw_input}

module _ (fx : Flext) (laws : IsFlext fx) where
  open fx use {char_is_signed}

  -- What a raw object sends out and another one takes in is passed to the library as one
  -- packet, unless it is empty, or `char` is signed and some byte is above 127: then nothing
  -- is. Given bytes, and the documented behaviour of flext's integers.
  pub raw_input-data_atoms :
      (bs : List ℕ)
      → All IsByte bs
      → raw_input fx (data_atoms fx bs)
        ≡ some (if char_is_signed && not (all_ascii bs) then [] else pushed (bytes bs))
  unfolding raw_input
  raw_input-data_atoms bs h = elim (Bool-cases (char_is_signed && not (all_ascii bs))) [
    | inl b ↦ rw (raw_input, raw_data-data_atoms fx laws bs h, b)
    | inr b ↦ rw (raw_input, raw_data-data_atoms fx laws bs h, b)
  ]
