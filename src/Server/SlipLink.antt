-- ===== src/Server/SlipLink.antt =====
-- Two objects with the option "-raw", joined by a byte stream: the data outlet of the one goes through
-- slipencoder, and the stream through slipdecoder to the data inlet of the other.
use rcp_flext.Prelude.{
  ℕ, ◌<◌, ◌≤◌, ◌≡◌, arith, refl, List, [], ◌∷◌, ◌++◌, map, Option, some, ◌>>=◌, if◌then◌else◌,
  length, All, length-map, filter_map,
}
use rcp_flext.Flext.{Flext, IsFlext, Out, to_out_list, char_to_int}
use rcp_flext.Bytes.{
  bytes, byte?, data_atoms, unsigned_atoms, IsByte, ascii_only, filter_map-sent,
  raw_data-unsigned_atoms, filter_map-IsByte,
}
use rcp_flext.Slip.Codec.{SlipLib, IsSlip}
use rcp_flext.Slip.Encoder.{SlipEncoder}
use rcp_flext.Slip.Stream.{encode_all, decode_all, join, packets, decode_all-encode_all, IsSendable}
use rcp_flext.Server.Object.{pushed, raw_input}

module _ (fx : Flext) where
  open fx use {Atom, char_is_signed}

  -- The lists that an object gets, and the packets that its library gets.
  unfoldable pub take_in : List (Out Atom) → Option (List (List ℕ))
  unfolding raw_input
  take_in [] = some []
  take_in (to_out_list n l ∷ outs) = do
    now ← raw_input fx l
    later ← take_in outs
    some (now ++ later)
  take_in (o ∷ outs) = take_in outs

  -- What is left of a packet.
  abbrev pub left_of : List ℕ → List ℕ
  left_of bs = if char_is_signed then ascii_only bs else bs

  -- A packet of bytes that fits the decoder's buffer, and of which some byte is left.
  pub record IsCarried (size : ℕ) (bs : List ℕ) : Type 0 where
    pub are_bytes : All IsByte bs
    pub some_left : 0 < length (left_of bs)
    pub fits : length bs ≤ size

  pub pushed_some : (bs : List ℕ) → 0 < length bs → pushed (bytes bs) ≡ bs ∷ []
  pushed_some [] h = absurd (omega arith)
  pushed_some (b ∷ bs) h = refl

  module _ (laws : IsFlext fx) where
    raw_input-unsigned_atoms :
        (bs : List ℕ)
        → All IsByte bs
        → raw_input fx (unsigned_atoms fx bs) ≡ some (pushed (bytes bs))
    unfolding raw_input
    raw_input-unsigned_atoms bs h = rw (raw_input, raw_data-unsigned_atoms fx laws bs h)

    pub left_lem :
        (bs : List ℕ) → All IsByte bs → filter_map (byte? fx) (data_atoms fx bs) ≡ left_of bs
    unfolding data_atoms
    left_lem bs h = filter_map-sent fx laws char_is_signed bs h

  module _ (laws : IsFlext fx) (lib : SlipLib) where
    take_in-packets :
        (size : ℕ) (bss : List (List ℕ))
        → All (IsCarried size) bss
        → take_in (packets fx lib (map (data_atoms fx) bss)) ≡ some (map left_of bss)
    unfolding take_in
    take_in-packets size [] h = refl
    take_in-packets size (bs ∷ bss) h =
        let good = filter_map-IsByte fx (data_atoms fx bs) in
        rw
          (
            raw_input-unsigned_atoms laws (filter_map (byte? fx) (data_atoms fx bs)) good,
            take_in-packets size bss h.1,
            left_lem laws bs h.0.are_bytes,
            pushed_some (left_of bs) h.0.some_left,
          )
          refl

    length-data_atoms : (bs : List ℕ) → length (data_atoms fx bs) ≡ length bs
    unfolding data_atoms
    length-data_atoms bs = length-map (λ b. fx.set_int (char_to_int char_is_signed b)) bs

    carried-IsSendable :
        (size : ℕ) (bss : List (List ℕ))
        → All (IsCarried size) bss
        → All (IsSendable fx size) (map (data_atoms fx) bss)
    carried-IsSendable size [] h = tt
    carried-IsSendable size (bs ∷ bss) h = (
      record {
        some_byte = rw (left_lem laws bs h.0.are_bytes) h.0.some_left;
        fits = rw (length-data_atoms bs) h.0.fits;
      },
      carried-IsSendable size bss h.1,
    )

    -- Any number of packets that a raw object sends out go through slipencoder, without a
    -- write out of bounds, into one stream. If the stream is cut into lists in any way, and
    -- goes through a slipdecoder that waits for a packet into another raw object, the library
    -- there gets each packet, in order; where `char` is signed it gets of each packet the
    -- bytes below 128 only. The decoder waits again. Given bytes, packets no longer than the
    -- decoder's buffer of which some byte is left to get, and the documented behaviour of
    -- flext's integers and of the library's SLIP functions.
    pub take_in-encode_all :
        (size : ℕ) (slip : IsSlip lib size) (e : SlipEncoder) (d : lib.Decoder)
        (bss : List (List ℕ))
        → slip.Waiting d
        → All (IsCarried size) bss
        → (e' : SlipEncoder) × (stream : List Atom) × (encode_all fx lib e (map (data_atoms fx) bss)
            ≡ some (e', stream))
          × ((pieces : List (List Atom))
              → join pieces ≡ stream
              → (take_in (decode_all fx lib d pieces).1 ≡ some (map left_of bss))
                × slip.Waiting (decode_all fx lib d pieces).0)
    take_in-encode_all size slip e d bss w good =
        let (e', stream, d', encoded, decoded, waits) =
          decode_all-encode_all fx laws lib size slip e d (map (data_atoms fx) bss) w
            (carried-IsSendable size bss good) in
        (
          e',
          stream,
          encoded,
          λ pieces cut. (
            rw (decoded pieces cut) (take_in-packets size bss good),
            rw (decoded pieces cut) waits,
          ),
        )
