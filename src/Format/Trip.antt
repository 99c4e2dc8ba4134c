-- ===== src/Format/Trip.antt =====
-- A packet of rcp.format, read by the loop over bytes of rcp.parse (sources/RcpParse.cpp).
use rcp_flext.Prelude.{
  ◌∙◌, Bool-cases, inl, inr, ◌>>=◌, append-nil, wrap, ℕ, ◌≡◌, true, ◌&&◌, not, ℤ, List, [], ◌∷◌,
  ◌++◌, Option, none, some, arith, All, if◌then◌else◌, Bool-cases, inl, append-nil, inr, ◌*◌, ◌+◌,
}
use rcp_flext.Flext.{Flext, IsFlext}
use rcp_flext.Bytes.{
  IsByte, all_ascii, data_atoms, strict, strict-mixed_atoms, unsigned_atoms, bytes, refused,
}
use rcp_flext.Rcp.{Datatype, int32, Protocol, IsProtocol}
use rcp_flext.Format.Defs.{RcpFormat, is_empty, int_packet}
use rcp_flext.Format.Packets.{packet, int_packet_lem}

module _ (fx : Flext) (laws : IsFlext fx) (rcp : Protocol) (codes : IsProtocol rcp) where
  open rcp use {
    command_update, command_updatevalue, packet_options_data, parameter_options_value, terminator,
    datatype, store16, store32,
  }
  open codes use {
    command_update-IsByte, command_updatevalue-IsByte, packet_options_data-IsByte,
    parameter_options_value-IsByte, terminator-IsByte, datatype-IsByte, store16-IsByte,
    store32-IsByte,
  }

  -- The bytes of a packet before the label option.
  abbrev pub packet_head : RcpFormat → Datatype → List ℕ → List ℕ
  packet_head f t value =
      let (a, b) = store16 f.id in
      if is_empty f.label
      then command_updatevalue ∷ a ∷ b ∷ datatype t ∷ value
      else command_update
        ∷ packet_options_data
        ∷ a
        ∷ b
        ∷ datatype t
        ∷ terminator
        ∷ parameter_options_value
        ∷ value

  abbrev pub label_bytes : RcpFormat → List ℕ
  label_bytes f = if is_empty f.label then [] else f.label_option

  packet-IsByte :
      (f : RcpFormat) (t : Datatype) (value : List ℕ)
      → All IsByte value
      → All IsByte (packet_head f t value)
  packet-IsByte f t value h = elim (Bool-cases (is_empty f.label)) [
    | inl bare ↦ rw bare (
      command_updatevalue-IsByte,
      ((store16-IsByte f.id).0, ((store16-IsByte f.id).1, (datatype-IsByte t, h))),
    )
    | inr labelled ↦ rw labelled (
      command_update-IsByte,
      (
        packet_options_data-IsByte,
        (
          (store16-IsByte f.id).0,
          (
            (store16-IsByte f.id).1,
            (datatype-IsByte t, (terminator-IsByte, (parameter_options_value-IsByte, h))),
          ),
        ),
      ),
    )
  ]

  packet_atoms :
      (f : RcpFormat) (t : Datatype) (value : List ℕ)
      → packet fx rcp f t (unsigned_atoms fx value)
        ≡ unsigned_atoms fx (packet_head f t value) ++ data_atoms fx (label_bytes f)
  unfolding unsigned_atoms data_atoms
  packet_atoms f t value = elim (Bool-cases (is_empty f.label)) [
    | inl bare ↦ rw bare (simp append-nil)
    | inr labelled ↦ rw labelled
  ]

  -- rcp.parse reads the bytes of a packet whose value is sent as unsigned atoms, and refuses it
  -- exactly when `char` is signed and the label option has a byte above 127.
  pub strict-packet :
      (f : RcpFormat) (t : Datatype) (value : List ℕ)
      → All IsByte value
      → All IsByte (label_bytes f)
      → strict fx (packet fx rcp f t (unsigned_atoms fx value))
        ≡ some (
            if fx.char_is_signed && not (all_ascii (label_bytes f))
            then refused
            else bytes (packet_head f t value ++ label_bytes f))
  strict-packet f t value h k = rw packet_atoms (
      strict-mixed_atoms fx laws (packet_head f t value) (label_bytes f) (packet-IsByte f t value h)
        k)

  abbrev pub bytes_32 : ℤ → List ℕ
  bytes_32 v = let (a, b, c, d) = store32 v in a ∷ b ∷ c ∷ d ∷ []

  bytes_32-IsByte : (v : ℤ) → All IsByte (bytes_32 v)
  bytes_32-IsByte v = let (a, b, c, d) = store32-IsByte v in (a, (b, (c, (d, tt))))

  -- The packet of an `int`, as rcp.parse reads it.
  pub strict-int_packet :
      (f : RcpFormat) (v : ℤ)
      → All IsByte (label_bytes f)
      → (int_packet fx rcp f v >>= strict fx)
        ≡ some (
            if fx.char_is_signed && not (all_ascii (label_bytes f))
            then refused
            else bytes (packet_head f int32 (bytes_32 v) ++ label_bytes f))
  unfolding unsigned_atoms
  strict-int_packet f v k =
      rw int_packet_lem (strict-packet f int32 (bytes_32 v) (bytes_32-IsByte v) k)

-- The id, the type and the value in the bytes of a value update of four bytes: the layout
-- `06 id id type v v v v` of the comments, numbers in network order.
pub read_update : List ℕ → Option (ℕ × ℕ × ℕ)
read_update (cmd ∷ a ∷ b ∷ t ∷ c ∷ d ∷ e ∷ g ∷ []) =
    some (a * 256 + b, t, c * 16777216 + d * 65536 + e * 256 + g)
read_update _ = none

module _ (fx : Flext) (laws : IsFlext fx) (rcp : Protocol) (codes : IsProtocol rcp) where
  -- An `int` that is sent by an object without a label is, whatever the sign of `char`, a
  -- packet that rcp.parse takes, and whose bytes are read back as the id modulo 2^16, the code
  -- of the type, and the number modulo 2^32. Given documented behaviour of flext's integers and
  -- of the protocol's encodings.
  pub read_update-int_packet :
      (f : RcpFormat) (v : ℤ)
      → is_empty f.label ≡ true
      → (bs : List ℕ) × ((int_packet fx rcp f v >>= strict fx) ≡ some (bytes bs))
        × (read_update bs ≡ some (wrap 65536 f.id, rcp.datatype int32, wrap 4294967296 v))
  unfolding read_update
  read_update-int_packet f v bare =
      let (a, b) = rcp.store16 f.id in
      let (c, d, e, g) = rcp.store32 v in
      (
        rcp.command_updatevalue ∷ a ∷ b ∷ rcp.datatype int32 ∷ c ∷ d ∷ e ∷ g ∷ [],
        strict-int_packet fx laws rcp codes f v (rw bare tt) ∙ rw bare (ground arith),
        rw (codes.store16_lem f.id, codes.store32_lem v),
      )
