-- ===== src/Sppp/Parser.antt =====
-- SPPParser.cpp
use rcp_flext.Prelude.{
  ℕ, ◌≡◌, pos, pos_part, leb_ℤ, ltb_ℤ, ◌&&◌, wrap, List, [], ◌∷◌, map, Option, some, ◌>>=◌,
  if◌then◌else◌, filter_map,
}
use rcp_flext.Flext.{Flext, Out, to_out_list}
use rcp_flext.Bytes.{byte?, collect, collect_lem, data_atoms}
use rcp_flext.Slip.Decoder.{Created, threw, created, buffer_size}

-- The size-prefix parser of the rcp library (a git submodule), as parameters.
pub record SpppLib : Type 1 where
  pub Parser : Type 0
  -- rcp_sppp_create(buffer_size, …): a null parser is a value too
  pub create : ℕ → Parser
  -- rcp_sppp_data, with the packets that it hands to the callback, in order
  pub feed : Parser → List ℕ → Parser × List (List ℕ)
  -- rcp_sppp_reset
  pub reset : Parser → Parser

module _ (fx : Flext) (lib : SpppLib) where
  open fx use {Atom, Float, float_to_int}

  unfoldable pub create : List Atom → Created lib.Parser
  unfolding buffer_size
  create argv =
      let size = buffer_size fx (pos 1024) argv in
      if leb_ℤ size (pos 0) then threw else created (lib.create (pos_part size))

  -- `packet_cb` and `dataOut`, once for each packet
  unfoldable pub data_out : List (List ℕ) → List (Out Atom)
  unfolding data_atoms
  data_out = map (λ packet. to_out_list 0 (data_atoms fx packet))

  abbrev pub feed_out : lib.Parser → List ℕ → lib.Parser × List (Out Atom)
  feed_out p bs = let (p', packets) = lib.feed p bs in (p', data_out packets)

  unfoldable pub m_list : lib.Parser → List Atom → Option (lib.Parser × List (Out Atom))
  unfolding collect data_out
  m_list p argv = do bs ← collect fx argv; some (feed_out p bs)

  unfoldable pub m_float : lib.Parser → Float → lib.Parser × List (Out Atom)
  unfolding data_out
  m_float p f =
      let byte = float_to_int f in
      if ltb_ℤ byte (pos 256) && leb_ℤ (pos 0) byte
      then feed_out p (wrap 256 byte ∷ [])
      else (p, [])

  unfoldable pub m_reset : lib.Parser → lib.Parser
  m_reset p = lib.reset p

  pub m_list_lem :
      (p : lib.Parser) (argv : List Atom)
      → m_list p argv ≡ some (feed_out p (filter_map (byte? fx) argv))
  unfolding m_list
  m_list_lem p argv = rw collect_lem
