-- ===== src/Rcp.antt =====
-- The rcp library (a git submodule, whose text is not in the repository): the types of its
-- parameters, and the constants and encodings of its packets, as parameters.
use rcp_flext.Prelude.{ℕ, ◌+◌, ◌*◌, ◌<◌, ◌≡◌, ℤ, wrap, Text, List, Option, some, length, All}
use rcp_flext.Bytes.{IsByte}

-- The values of rcp_datatype that the program names; `other` stands for the rest.
pub data Datatype : Type 0 where
  invalid boolean int32 float32 string bang group other : Datatype

pub record Protocol : Type 0 where
  pub command_update : ℕ
  pub command_updatevalue : ℕ
  pub packet_options_data : ℕ
  pub parameter_options_value : ℕ
  pub terminator : ℕ
  pub datatype : Datatype → ℕ
  -- _rcp_store16 and _rcp_store32: the bytes in the order in which they are stored
  pub store16 : ℤ → ℕ × ℕ
  pub store32 : ℤ → ℕ × ℕ × ℕ × ℕ
  -- rcp_option_write of a label option; `none` is a result of 0
  pub label_option : Text → Option (List ℕ)

-- What is documented of them: constants and stored values are bytes, a 16 bit or 32 bit number is
-- stored in network order, and an option that is written has a byte at least.
pub record IsProtocol (rcp : Protocol) : Type 0 where
  pub command_update-IsByte : IsByte rcp.command_update
  pub command_updatevalue-IsByte : IsByte rcp.command_updatevalue
  pub packet_options_data-IsByte : IsByte rcp.packet_options_data
  pub parameter_options_value-IsByte : IsByte rcp.parameter_options_value
  pub terminator-IsByte : IsByte rcp.terminator
  pub datatype-IsByte : (t : Datatype) → IsByte (rcp.datatype t)
  pub store16-IsByte : (i : ℤ) → let (a, b) = rcp.store16 i in IsByte a × IsByte b
  pub store16_lem : (i : ℤ) → let (a, b) = rcp.store16 i in a * 256 + b ≡ wrap 65536 i
  pub store32-IsByte :
      (i : ℤ) → let (a, b, c, d) = rcp.store32 i in IsByte a × IsByte b × IsByte c × IsByte d
  pub store32_lem :
      (i : ℤ)
      → let (a, b, c, d) = rcp.store32 i in
        a * 16777216 + b * 65536 + c * 256 + d ≡ wrap 4294967296 i
  pub label_option-IsByte :
      (t : Text) (bs : List ℕ) → rcp.label_option t ≡ some bs → (0 < length bs) × All IsByte bs
