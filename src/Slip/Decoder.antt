-- ===== src/Slip/Decoder.antt =====
-- SlipDecoder.cpp
use rcp_flext.Prelude.{
  ℕ, ◌≡◌, refl, ℤ, pos, pos_part, leb_ℤ, ltb_ℤ, ◌&&◌, wrap, List, [], ◌∷◌, ◌++◌, map, Option, none,
  some, append_assoc, if◌then◌else◌, filter_map, Option-cases, inl, inr,
}
use rcp_flext.Flext.{Flext, Out, to_out_list}
use rcp_flext.Bytes.{byte?, unsigned_atoms}
use rcp_flext.Slip.Codec.{SlipLib, to_list, feed}

-- What a constructor comes to: `threw` is an exception, and the object is not created.
pub data Created (A : Type 0) : Type 0 where
  created : A → Created A
  threw : Created A

abbrev pub or_threw : {A : Type 0} → Option A → Created A
or_threw none = threw
or_threw (some a) = created a

module _ (fx : Flext) where
  open fx use {Atom, Float, can_be_int, get_a_int, float_to_int}

  -- The loop over the arguments of the constructor: the last one that can be an integer.
  unfoldable pub buffer_size : ℤ → List Atom → ℤ
  buffer_size size [] = size
  buffer_size size (a ∷ l) = buffer_size (if can_be_int a then get_a_int a (pos 1024) else size) l

  module _ (lib : SlipLib) where
    unfoldable pub create : List Atom → Created lib.Decoder
    unfolding buffer_size
    create argv =
        let size = buffer_size (pos 1024) argv in
        if leb_ℤ size (pos 0) then threw else or_threw (lib.create (pos_part size))

    -- `packet_cb` and `dataOut`
    unfoldable pub data_out : Option (List ℕ) → List (Out Atom)
    data_out none = []
    data_out (some packet) = to_out_list 0 (unsigned_atoms fx packet) ∷ []

    unfoldable pub append_byte : lib.Decoder → Option ℕ → lib.Decoder × List (Out Atom)
    unfolding data_out
    append_byte d none = (d, [])
    append_byte d (some b) = let (d', packet) = lib.append d b in (d', data_out packet)

    unfoldable pub m_list : lib.Decoder → List Atom → lib.Decoder × List (Out Atom)
    unfolding append_byte byte?
    m_list d [] = (d, [])
    m_list d (a ∷ l) =
        let (d', out) = append_byte d (byte? fx a) in
        let (d'', outs) = m_list d' l in (d'', out ++ outs)

    unfoldable pub m_float : lib.Decoder → Float → lib.Decoder × List (Out Atom)
    unfolding append_byte
    m_float d f =
        let byte = float_to_int f in
        append_byte d
          (if ltb_ℤ byte (pos 256) && leb_ℤ (pos 0) byte then some (wrap 256 byte) else none)

    abbrev packets_out : List (List ℕ) → List (Out Atom)
    packets_out = map (λ packet. to_out_list 0 (unsigned_atoms fx packet))

    packets_out-data_out :
        (packet : Option (List ℕ)) (rest : List (List ℕ))
        → data_out packet ++ packets_out rest ≡ packets_out (to_list packet ++ rest)
    unfolding data_out
    packets_out-data_out none rest = refl
    packets_out-data_out (some packet) rest = refl

    -- A list is read byte by byte; each packet that the library completes is one list on the outlet.
    pub m_list-feed :
        (d : lib.Decoder) (argv : List Atom)
        → m_list d argv ≡ (
            let (d', packets) = feed lib d (filter_map (byte? fx) argv) in
            (d', packets_out packets))
    unfolding m_list feed
    m_list-feed d [] = refl
    m_list-feed d (a ∷ l) = elim (Option-cases (byte? fx a)) [
      | inl skipped ↦ rw (skipped, filter_map, m_list-feed d l)
      | inr (b, kept) ↦
          let (d', packet) = lib.append d b in
          rw (kept, filter_map, m_list-feed d' l, packets_out-data_out)
    ]

    -- The stream may be cut anywhere: two lists in a row do what their concatenation does.
    pub m_list-append :
        (d : lib.Decoder) (xs ys : List Atom)
        → m_list d (xs ++ ys) ≡ (
            let (d', first) = m_list d xs in
            let (d'', second) = m_list d' ys in (d'', first ++ second))
    unfolding m_list
    m_list-append d [] ys = refl
    m_list-append d (a ∷ xs) ys =
        let (d', out) = append_byte d (byte? fx a) in rw (m_list-append d' xs ys, append_assoc)
