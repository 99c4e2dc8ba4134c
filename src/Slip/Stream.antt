-- ===== src/Slip/Stream.antt =====
-- Any number of lists through slipencoder into a byte stream, and the stream, cut anywhere, into
-- slipdecoder.
use rcp_flext.Prelude.{
  ℕ, ◌<◌, ◌≤◌, ◌≡◌, refl, List, [], ◌∷◌, ◌++◌, map, Option, some, ◌>>=◌, filter_map, length, All,
  append-nil, ◌∙◌,
}
use rcp_flext.Flext.{Flext, IsFlext, Out, to_out_list}
use rcp_flext.Bytes.{byte?, unsigned_atoms}
use rcp_flext.Slip.Codec.{SlipLib, IsSlip}
use rcp_flext.Slip.Encoder.{SlipEncoder}
use rcp_flext.Slip.Encoder
use rcp_flext.Slip.Decoder
use rcp_flext.Slip.Trip.{decoder-encoder}

-- The atoms of the lists that an object sends, one after the other.
abbrev pub atoms_of : {A : Type 0} → List (Out A) → List A
atoms_of [] = []
atoms_of (to_out_list n l ∷ outs) = l ++ atoms_of outs
atoms_of (_ ∷ outs) = atoms_of outs

abbrev pub join : {A : Type 0} → List (List A) → List A
join [] = []
join (l ∷ ls) = l ++ join ls

module _ (fx : Flext) where
  open fx use {Atom}

  -- A list with a byte in it, no longer than the decoder's buffer.
  pub record IsSendable (size : ℕ) (l : List Atom) : Type 0 where
    pub some_byte : 0 < length (filter_map (byte? fx) l)
    pub fits : length l ≤ size

module _ (fx : Flext) (lib : SlipLib) where
  open fx use {Atom}

  -- Lists to the encoder, and the stream that leaves it.
  unfoldable pub encode_all : SlipEncoder → List (List Atom) → Option (SlipEncoder × List Atom)
  unfolding Encoder.m_list
  encode_all e [] = some (e, [])
  encode_all e (l ∷ ls) = do
    (e', outs) ← Encoder.m_list fx lib e l
    (e'', rest) ← encode_all e' ls
    some (e'', atoms_of outs ++ rest)

  -- The pieces of a stream to the decoder.
  unfoldable pub decode_all : lib.Decoder → List (List Atom) → lib.Decoder × List (Out Atom)
  unfolding Decoder.m_list
  decode_all d [] = (d, [])
  decode_all d (l ∷ ls) =
      let (d', outs) = Decoder.m_list fx lib d l in
      let (d'', more) = decode_all d' ls in (d'', outs ++ more)

  decode_all-join :
      (d : lib.Decoder) (ls : List (List Atom))
      → decode_all d ls ≡ Decoder.m_list fx lib d (join ls)
  unfolding decode_all Decoder.m_list
  decode_all-join d [] = refl
  decode_all-join d (l ∷ ls) =
      rw
        (
          Decoder.m_list-append fx lib d l (join ls),
          decode_all-join (Decoder.m_list fx lib d l).0 ls,
        )
        refl

  -- What comes out for the lists that went in.
  abbrev pub packets : List (List Atom) → List (Out Atom)
  packets = map (λ l. to_out_list 0 (unsigned_atoms fx (filter_map (byte? fx) l)))

module _ (fx : Flext) (laws : IsFlext fx) (lib : SlipLib) (size : ℕ) (slip : IsSlip lib size) where
  open fx use {Atom}
  open slip use {Waiting}

  record Streams (e : SlipEncoder) (d : lib.Decoder) (ls : List (List Atom)) : Type 0 where
    encoder : SlipEncoder
    stream : List Atom
    decoder : lib.Decoder
    is_encoded : encode_all fx lib e ls ≡ some (encoder, stream)
    is_decoded : Decoder.m_list fx lib d stream ≡ (decoder, packets fx lib ls)
    is_waiting : Waiting decoder

  streams :
      (e : SlipEncoder) (d : lib.Decoder) (ls : List (List Atom))
      → Waiting d
      → All (IsSendable fx size) ls
      → Streams e d ls
  unfolding encode_all Decoder.m_list
  streams e d [] w fits = record {
    encoder = e;
    stream = [];
    decoder = d;
    is_encoded = refl;
    is_decoded = refl;
    is_waiting = w;
  }
  streams e d (l ∷ ls) w fits =
      let (e', frame, d', encoded, decoded, w') =
        decoder-encoder fx laws lib size slip e d l w fits.0.some_byte fits.0.fits in
      let s = streams e' d' ls w' fits.1 in
      record {
        encoder = s.encoder;
        stream = frame ++ s.stream;
        decoder = s.decoder;
        is_encoded = rw (encode_all, encoded, s.is_encoded, append-nil) refl;
        is_decoded = rw (Decoder.m_list-append, decoded, s.is_decoded) refl;
        is_waiting = s.is_waiting;
      }

  -- Any number of lists are encoded without a write out of bounds, one after the other, into a
  -- stream. A decoder that waits for a packet, and gets the stream cut into lists in any way,
  -- sends the bytes of each of the lists as one list, in order, and waits again. Given that
  -- each list has a byte, that none is longer than the decoder's buffer, and the documented
  -- behaviour of flext's integers and of the library's SLIP functions.
  pub decode_all-encode_all :
      (e : SlipEncoder) (d : lib.Decoder) (ls : List (List Atom))
      → Waiting d
      → All (IsSendable fx size) ls
      → (e' : SlipEncoder) × (stream : List Atom) × (d' : lib.Decoder) × (encode_all fx lib e ls
          ≡ some (e', stream))
        × ((pieces : List (List Atom))
            → join pieces ≡ stream
            → decode_all fx lib d pieces ≡ (d', packets fx lib ls))
        × Waiting d'
  decode_all-encode_all e d ls w fits =
      let s = streams e d ls w fits in
      (
        s.encoder,
        s.stream,
        s.decoder,
        s.is_encoded,
        λ pieces cut. decode_all-join fx lib d pieces ∙ rw cut s.is_decoded,
        s.is_waiting,
      )
