-- ===== src/Slip/Trip.antt =====
-- slipencoder into slipdecoder.
use native.Mathlib.Nat.{le_trans}
use rcp_flext.Prelude.{ℕ, ◌<◌, ◌≤◌, ◌≡◌, List, [], ◌∷◌, some, filter_map, length}
use rcp_flext.Flext.{Flext, IsFlext, to_out_list}
use rcp_flext.Bytes.{
  byte?, unsigned_atoms, filter_map-unsigned, filter_map-IsByte, length-filter_map-le,
}
use rcp_flext.Slip.Codec.{SlipLib, IsSlip}
use rcp_flext.Slip.Encoder.{SlipEncoder}
use rcp_flext.Slip.Encoder
use rcp_flext.Slip.Decoder

module _ (fx : Flext) (laws : IsFlext fx) (lib : SlipLib) (size : ℕ) (slip : IsSlip lib size) where
  open fx use {Atom}
  open slip use {Waiting, encode_bytes, feed-encode}

  -- A list is encoded without a write out of bounds, into one list; a decoder that waits for a
  -- packet turns it back into one list, that of the bytes of the first list, and waits again.
  -- Given that the list has a byte and is not longer than the decoder's buffer, and the documented behaviour
  -- of flext's integers and of the library's SLIP functions.
  pub decoder-encoder :
      (e : SlipEncoder) (d : lib.Decoder) (argv : List Atom)
      → Waiting d
      → 0 < length (filter_map (byte? fx) argv)
      → length argv ≤ size
      → (e' : SlipEncoder) × (frame : List Atom) × (d' : lib.Decoder) × (Encoder.m_list fx lib e
            argv
          ≡ some (e', to_out_list 0 frame ∷ []))
        × (Decoder.m_list fx lib d frame
            ≡ (d', to_out_list 0 (unsigned_atoms fx (filter_map (byte? fx) argv)) ∷ []))
        × Waiting d'
  decoder-encoder e d argv w some_byte fits =
      let packet = filter_map (byte? fx) argv in
      let good = filter_map-IsByte fx argv in
      let (d', fed, w') =
        feed-encode d packet w good some_byte (le_trans (length-filter_map-le fx argv) fits) in
      (
        _,
        unsigned_atoms fx (lib.encode packet),
        d',
        Encoder.m_list_lem fx lib e argv,
        rw (
          Decoder.m_list-feed,
          filter_map-unsigned fx laws (lib.encode packet) (encode_bytes packet good),
          fed,
        ),
        w',
      )
