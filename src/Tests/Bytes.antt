-- ===== src/Tests/Bytes.antt =====
-- Bytes, SLIP, sppp and the size prefix on concrete lists.
use rcp_flext.Prelude.{◌≡◌, refl, true, pos, text, List, [], ◌∷◌, some, arith}
use rcp_flext.Flext.{PlainAtom, int, symbol, plain-IsFlext, to_out_list}
use rcp_flext.Bytes.{collect, byte?, unsigned_atoms, data_atoms}
use rcp_flext.Slip.Encoder
use rcp_flext.Slip.Stream.{encode_all, decode_all, join, decode_all-encode_all}
use rcp_flext.Server.SlipLink.{take_in, take_in-encode_all}
use rcp_flext.Sppp.Stream.{size_atoms_short}
use rcp_flext.Sppp.Prefix.{size_atoms}
use rcp_flext.Tests.Samples.{fx, slip, slip-IsSlip, waiting}

abbrev mixed : List PlainAtom
mixed = int (pos 7) ∷ symbol (text "x") ∷ int (pos 300) ∷ int (pos 255) ∷ []

size_atoms_short_example : collect fx (size_atoms fx 200) ≡ some (0 ∷ 0 ∷ 0 ∷ [])
size_atoms_short_example =
    size_atoms_short fx (plain-IsFlext true) 200 refl (omega arith) (omega arith)

-- Two lists in, and their stream cut inside the first frame.
abbrev lists : List (List PlainAtom)
lists = mixed ∷ (int (pos 9) ∷ []) ∷ []

decode_all-encode_all_example :
    (e' : Encoder.SlipEncoder) × (stream : List PlainAtom) × (d' : slip.Decoder) × (encode_all fx
        slip
        (record { encoded = [] })
        lists
      ≡ some (e', stream))
    × ((pieces : List (List PlainAtom))
        → join pieces ≡ stream
        → decode_all fx slip waiting pieces ≡ (
          d',
          to_out_list 0 (unsigned_atoms fx (7 ∷ 255 ∷ []))
              ∷ to_out_list 0 (unsigned_atoms fx (9 ∷ []))
              ∷ [],
        ))
    × (d' ≡ waiting)
unfolding slip-IsSlip byte?
decode_all-encode_all_example =
    decode_all-encode_all fx (plain-IsFlext true) slip 8 (slip-IsSlip 8) (record { encoded = [] })
      waiting lists refl
      (
        record { some_byte = omega arith; fits = omega arith },
        (record { some_byte = omega arith; fits = omega arith }, tt),
      )

-- Two packets on a platform where `char` is signed; of the second, one byte is left.
take_in-encode_all_example :
    (e' : Encoder.SlipEncoder) × (stream : List PlainAtom) × (encode_all fx slip
        (record { encoded = [] })
        (data_atoms fx (7 ∷ 9 ∷ []) ∷ data_atoms fx (200 ∷ 5 ∷ []) ∷ [])
      ≡ some (e', stream))
    × ((pieces : List (List PlainAtom))
        → join pieces ≡ stream
        → (take_in fx (decode_all fx slip waiting pieces).1 ≡ some ((7 ∷ 9 ∷ []) ∷ (5 ∷ []) ∷ []))
          × ((decode_all fx slip waiting pieces).0 ≡ waiting))
unfolding slip-IsSlip
take_in-encode_all_example =
    take_in-encode_all fx (plain-IsFlext true) slip 8 (slip-IsSlip 8) (record { encoded = [] })
      waiting ((7 ∷ 9 ∷ []) ∷ (200 ∷ 5 ∷ []) ∷ []) refl
      (
        record {
          are_bytes = (omega arith, (omega arith, tt));
          some_left = omega arith;
          fits = omega arith;
        },
        (
          record {
            are_bytes = (omega arith, (omega arith, tt));
            some_left = omega arith;
            fits = omega arith;
          },
          tt,
        ),
      )
