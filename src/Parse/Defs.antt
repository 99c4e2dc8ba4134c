-- ===== src/Parse/Defs.antt =====
-- RcpParse.cpp: a list of bytes is read as packets, and each packet is sent out as lists.
use rcp_flext.Prelude.{
  ℕ, zero, suc, ◌+◌, ◌<◌, ◌≡◌, ℤ, to_int16, Text, text, List, [], ◌∷◌, ◌++◌, Option, none, some,
  ◌>>=◌, length,
}
use rcp_flext.Flext.{Flext, Out, to_out_int, to_out_list, error, emit}
use rcp_flext.Bytes.{Read, bytes, refused, strict}
use rcp_flext.Manager.{Manager}
use rcp_flext.Format.Defs.{Called, too_deep, returned}
use rcp_flext.Base.Query.{value_atoms}

-- The version, which may be NULL, and the application's id, which may be missing.
pub record InfoData : Type 0 where
  pub version : Option Text
  pub app_id : Option Text

-- A packet, by its command; an update of a value is an update.
pub data Packet (Param : Type 0) : Type 0 where
  info : Option InfoData → Packet Param
  initialize discover remove : ℤ → Packet Param
  update : Option Param → Packet Param
  nothing : Packet Param

-- rcp_packet_parse (a git submodule), as a parameter: the bytes that are left, or NULL, and the packet
-- that was read, if any.
abbrev pub Parser : Type 0 → Type 0
Parser Param = List ℕ → Option (List ℕ) × Option (Packet Param)

-- What is documented: a parser that goes on has taken a byte at least.
pub record IsParser {Param : Type 0} (parse : Parser Param) : Type 0 where
  pub takes : (bs rest : List ℕ) → (parse bs).0 ≡ some rest → length rest < length bs

module _ (fx : Flext) (m : Manager fx) (st : m.State) where
  open fx use {Atom, set_symbol, blank}
  open m use {Param, id, label}

  abbrev pub symbols : Option Text → List Atom
  symbols none = []
  symbols (some t) = set_symbol t ∷ []

  -- The branch of COMMAND_INFO; a symbol of a null version is undefined.
  unfoldable pub output_info_data : Option InfoData → Option (List (Out Atom))
  output_info_data none = some (to_out_list 0 (set_symbol (text "info") ∷ []) ∷ [])
  output_info_data (some i) = do
    version ← i.version
    list ←
        emit blank (2 + length (symbols i.app_id))
          (set_symbol (text "info") ∷ set_symbol version ∷ symbols i.app_id)
    some (to_out_list 0 list ∷ [])

  unfoldable pub output_list : Text → ℤ → List (Out Atom)
  unfolding to_int16
  output_list str i = to_out_int 1 (to_int16 i) ∷ to_out_list 0 (set_symbol str ∷ []) ∷ []

  -- RcpParse::parameterUpdate
  unfoldable pub packet_update : Param → Option (List (Out Atom))
  unfolding to_int16
  packet_update p = do
    value ← value_atoms fx m st p
    list ←
        emit blank (3 + length (symbols (label st p)))
          (set_symbol (text "update") ∷ (symbols (label st p) ++ value))
    some (to_out_int 1 (to_int16 (id st p)) ∷ to_out_list 0 list ∷ [])

  -- The `switch` on the command.
  unfoldable pub output_packet : Packet Param → Option (List (Out Atom))
  unfolding output_info_data output_list
  output_packet (info i) = output_info_data i
  output_packet (initialize i) = some (output_list (text "initialize") i)
  output_packet (discover i) = some (output_list (text "discover") i)
  output_packet (update none) = some []
  output_packet (update (some p)) = packet_update p
  output_packet (remove i) = some (output_list (text "remove") i)
  output_packet nothing = some []

  abbrev pub output_if : Option (Packet Param) → Option (List (Out Atom))
  output_if none = some []
  output_if (some p) = output_packet p

  -- What is sent first, and what the rest of the loop sends.
  abbrev pub and_then :
      Option (List (Out Atom)) → Called (List (Out Atom)) → Called (List (Out Atom))
  and_then none more = returned none
  and_then (some outs) too_deep = too_deep
  and_then (some outs) (returned none) = returned none
  and_then (some outs) (returned (some more)) = returned (some (outs ++ more))

  -- The `while` over the data, with a bound on the rounds.
  unfoldable pub parse_loop : Parser Param → ℕ → List ℕ → Called (List (Out Atom))
  unfolding output_packet
  parse_loop parse zero bs = too_deep
  parse_loop parse (suc rounds) [] = returned (some [])
  parse_loop parse (suc rounds) (b ∷ bs) = elim (parse (b ∷ bs)).0 [
    | none ↦ returned (some [])
    | some rest ↦ and_then (output_if (parse (b ∷ bs)).1) (parse_loop parse rounds rest)
  ]

  abbrev pub after_read : Parser Param → ℕ → Option Read → Called (List (Out Atom))
  after_read parse rounds none = returned none
  after_read parse rounds (some refused) = returned (some (error ∷ []))
  after_read parse rounds (some (bytes bs)) = parse_loop parse rounds bs

  unfoldable pub parse_list : Parser Param → ℕ → List Atom → Called (List (Out Atom))
  unfolding parse_loop strict
  parse_list parse rounds argv = after_read parse rounds (strict fx argv)
