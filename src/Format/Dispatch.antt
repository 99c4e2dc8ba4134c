-- ===== src/Format/Dispatch.antt =====
-- What rcp.format sends for each message, whatever the type that is set.
use rcp_flext.Prelude.{ℕ, suc, ◌≡◌, refl, ℤ, pos, Text, to_text, List, [], ◌∷◌, Option, some, ◌>>=◌}
use rcp_flext.Flext.{Flext, Out, to_out_list}
use rcp_flext.Rcp.{Datatype, invalid, boolean, int32, float32, string, bang, Protocol}
use rcp_flext.Format.Defs.{
  RcpFormat, Input, bang_input, int_input, float_input, symbol_input, returned, receive,
}
use rcp_flext.Format.Packets.{
  packet, atoms_32, bool_atoms, string_atoms, bang_result, int_packet_lem, float_packet_lem,
  boolean_packet_lem, string_packet_lem, bang_packet_lem,
}

module _ (fx : Flext) (rcp : Protocol) where
  open fx use {Atom, Float, float_to_int, int_to_float, float_bits, float_text}

  abbrev sends : Option (List Atom) → Option (List (Out Atom))
  sends v = v >>= λ list. some (to_out_list 0 list ∷ [])

  abbrev int_out : RcpFormat → ℤ → Option (List (Out Atom))
  int_out f v = sends (some (packet fx rcp f int32 (atoms_32 fx rcp v)))

  abbrev bool_out : RcpFormat → ℤ → Option (List (Out Atom))
  bool_out f v = sends (some (packet fx rcp f boolean (bool_atoms fx rcp v)))

  abbrev float_out : RcpFormat → Float → Option (List (Out Atom))
  float_out f v = sends (some (packet fx rcp f float32 (atoms_32 fx rcp (pos (float_bits v)))))

  abbrev string_out : RcpFormat → Text → Option (List (Out Atom))
  string_out f v = sends (some (packet fx rcp f string (string_atoms fx rcp v)))

  -- One packet for each message: of the type of the message if none is set, and else of the type that
  -- is set, with the value converted; nothing if the message does not convert.
  abbrev pub expected : RcpFormat → Input Float → Option (List (Out Atom))
  expected f bang_input = elim f.type [
    | invalid ↦ sends (bang_result fx rcp f)
    | bang ↦ sends (bang_result fx rcp f)
    | _ ↦ some []
  ]
  expected f (int_input v) = elim f.type [
    | invalid ↦ int_out f v
    | int32 ↦ int_out f v
    | boolean ↦ bool_out f v
    | float32 ↦ float_out f (int_to_float v)
    | string ↦ string_out f (to_text v)
    | _ ↦ some []
  ]
  expected f (float_input v) = elim f.type [
    | invalid ↦ float_out f v
    | float32 ↦ float_out f v
    | int32 ↦ int_out f (float_to_int v)
    | boolean ↦ bool_out f (float_to_int v)
    | string ↦ string_out f (float_text v)
    | _ ↦ some []
  ]
  expected f (symbol_input v) = elim f.type [
    | invalid ↦ string_out f v
    | string ↦ string_out f v
    | _ ↦ some []
  ]

  receive_cases :
      (depth : ℕ) (id : ℤ) (t : Datatype) (label : Text) (option : List ℕ) (x : Input Float)
      → let f : RcpFormat = record { id = id; type = t; label = label; label_option = option } in
        receive fx rcp (suc (suc depth)) f x ≡ returned (expected f x)
  unfolding receive
  receive_cases depth id invalid label option bang_input = rw bang_packet_lem
  receive_cases depth id invalid label option (int_input v) = rw int_packet_lem
  receive_cases depth id invalid label option (float_input v) = rw float_packet_lem
  receive_cases depth id invalid label option (symbol_input v) = rw string_packet_lem
  receive_cases depth id boolean label option bang_input = refl
  receive_cases depth id boolean label option (int_input v) = rw boolean_packet_lem
  receive_cases depth id boolean label option (float_input v) = rw boolean_packet_lem
  receive_cases depth id boolean label option (symbol_input v) = refl
  receive_cases depth id int32 label option bang_input = refl
  receive_cases depth id int32 label option (int_input v) = rw int_packet_lem
  receive_cases depth id int32 label option (float_input v) = rw int_packet_lem
  receive_cases depth id int32 label option (symbol_input v) = refl
  receive_cases depth id float32 label option bang_input = refl
  receive_cases depth id float32 label option (int_input v) = rw float_packet_lem
  receive_cases depth id float32 label option (float_input v) = rw float_packet_lem
  receive_cases depth id float32 label option (symbol_input v) = refl
  receive_cases depth id string label option bang_input = refl
  receive_cases depth id string label option (int_input v) = rw string_packet_lem
  receive_cases depth id string label option (float_input v) = rw string_packet_lem
  receive_cases depth id string label option (symbol_input v) = rw string_packet_lem
  receive_cases depth id bang label option bang_input = rw bang_packet_lem
  receive_cases depth id bang label option (int_input v) = refl
  receive_cases depth id bang label option (float_input v) = refl
  receive_cases depth id bang label option (symbol_input v) = refl
  receive_cases depth id _ label option bang_input = refl
  receive_cases depth id _ label option (int_input v) = refl
  receive_cases depth id _ label option (float_input v) = refl
  receive_cases depth id _ label option (symbol_input v) = refl

  -- Within two nested calls, each message to each object is handled as the table `expected` of
  -- the types says: the packets for no type, the conversions of the typed objects, and silence
  -- for the rest.
  pub receive_lem :
      (depth : ℕ) (f : RcpFormat) (x : Input Float)
      → receive fx rcp (suc (suc depth)) f x ≡ returned (expected f x)
  receive_lem depth f x = receive_cases depth f.id f.type f.label f.label_option x
