-- ===== src/Slip/Codec.antt =====
-- The SLIP functions of the rcp library (a git submodule), as parameters.
use rcp_flext.Prelude.{ℕ, ◌<◌, ◌≤◌, ◌≡◌, List, [], ◌∷◌, ◌++◌, Option, none, some, length, All}
use rcp_flext.Bytes.{IsByte}

pub record SlipLib : Type 1 where
  pub Decoder : Type 0
  -- rcp_slip_create(buffer_size); `none` is NULL
  pub create : ℕ → Option Decoder
  -- rcp_slip_append, with the packet that it hands to the packet callback, if any
  pub append : Decoder → ℕ → Decoder × Option (List ℕ)
  -- rcp_slip_encode: the bytes that it hands to the callback, in order
  pub encode : List ℕ → List ℕ

abbrev pub to_list {ℓ} : {A : Type ℓ} → Option A → List A
to_list none = []
to_list (some a) = a ∷ []

-- Bytes appended one by one: the decoder that is left, and the packets that came out.
unfoldable pub feed : (lib : SlipLib) → lib.Decoder → List ℕ → lib.Decoder × List (List ℕ)
feed lib d [] = (d, [])
feed lib d (b ∷ bs) =
    let (d', packet) = lib.append d b in
    let (d'', packets) = feed lib d' bs in (d'', to_list packet ++ packets)

-- What SLIP promises: a frame is made of bytes, and a decoder that has just been created, or has just
-- delivered a packet, delivers the packet of a frame, unless it is empty, if it fits its buffer, and then waits for the
-- next. Nothing is asked of the frame of an empty packet, which RFC 1055 has a receiver ignore.
pub record IsSlip (lib : SlipLib) (size : ℕ) : Type 1 where
  pub Waiting : lib.Decoder → Type 0
  pub create-Waiting : (d : lib.Decoder) → lib.create size ≡ some d → Waiting d
  pub encode_bytes : (bs : List ℕ) → All IsByte bs → All IsByte (lib.encode bs)
  pub feed-encode :
      (d : lib.Decoder) (bs : List ℕ)
      → Waiting d
      → All IsByte bs
      → 0 < length bs
      → length bs ≤ size
      → (d' : lib.Decoder) × (feed lib d (lib.encode bs) ≡ (d', bs ∷ [])) × Waiting d'
