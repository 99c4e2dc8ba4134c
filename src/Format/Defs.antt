-- ===== src/Format/Defs.antt =====
-- RcpFormat.cpp: the state, the packets and the handlers.
use rcp_flext.Prelude.{
  ℕ, zero, suc, ◌+◌, Bool, true, false, ℤ, pos, ltb_ℤ, Text, to_text, List, [], ◌∷◌, ◌++◌, Option,
  some, ◌>>=◌, if◌then◌else◌, length, replicate,
}
use rcp_flext.Flext.{Flext, Out, to_out_list, write, write_all}
use rcp_flext.Bytes.{data_atoms}
use rcp_flext.Rcp.{Datatype, invalid, boolean, int32, float32, string, bang, Protocol}

pub record RcpFormat : Type 0 where
  pub id : ℤ
  pub type : Datatype
  pub label : Text
  pub label_option : List ℕ

-- A message to the inlet.
pub data Input (F : Type 0) : Type 0 where
  bang_input : Input F
  int_input : ℤ → Input F
  float_input : F → Input F
  symbol_input : Text → Input F

-- The handlers call one another, so a call is made with a bound on the depth of calls; inside, `none`
-- is undefined behaviour.
pub data Called (A : Type 0) : Type 0 where
  too_deep : Called A
  returned : Option A → Called A

-- `m_label.empty()`
abbrev pub is_empty {ℓ} : {A : Type ℓ} → List A → Bool
is_empty [] = true
is_empty (x ∷ xs) = false

-- `SetInt(list[i], …)` at explicit indices, in the order of the text
unfoldable pub store : {A : Type 0} → List (ℕ × A) → List A → Option (List A)
unfolding write
store [] v = some v
store ((i, a) ∷ more) v = do v' ← write v i a; store more v'

module _ (fx : Flext) (rcp : Protocol) where
  open fx use {Atom, Float, set_int, blank, float_to_int, int_to_float, float_bits, float_text}
  open rcp use {
    command_update, command_updatevalue, packet_options_data, parameter_options_value, terminator,
    datatype, store16, store32,
  }

  abbrev num : ℕ → Atom
  num n = set_int (pos n)

  -- STORE_ID_TO_LIST
  abbrev store_id : ℤ → ℕ → List (ℕ × Atom)
  store_id id o = let (a, b) = store16 id in (o, num a) ∷ (o + 1, num b) ∷ []

  -- STORE_32_TO_LIST
  abbrev store_32 : ℤ → ℕ → List (ℕ × Atom)
  store_32 v o =
      let (a, b, c, d) = store32 v in
      (o, num a) ∷ (o + 1, num b) ∷ (o + 2, num c) ∷ (o + 3, num d) ∷ []

  -- SETUP_UPDATE_PACKET
  abbrev setup_update : ℤ → Datatype → List (ℕ × Atom)
  setup_update id t =
      (0, num command_update) ∷ (1, num packet_options_data) ∷ store_id id 2
      ++ (4, num (datatype t)) ∷ (5, num terminator) ∷ (6, num parameter_options_value) ∷ []

  -- The head of a value update: 06 id id type
  abbrev setup_value : ℤ → Datatype → List (ℕ × Atom)
  setup_value id t = (0, num command_updatevalue) ∷ store_id id 1 ++ (3, num (datatype t)) ∷ []

  abbrev sends : Option (List Atom) → Option (List (Out Atom))
  sends v = v >>= λ list. some (to_out_list 0 list ∷ [])

  -- The vector of an update with a label is `n` atoms longer than the label option.
  abbrev update : RcpFormat → Datatype → ℕ → Option (List Atom)
  update f t n = store (setup_update f.id t) (replicate (n + length f.label_option) blank)

  abbrev add_label : RcpFormat → ℕ → List Atom → Option (List Atom)
  add_label f o v = write_all v o (data_atoms fx f.label_option)

  unfoldable pub bang_packet : RcpFormat → Option (List Atom)
  unfolding store write_all data_atoms
  bang_packet f =
      if is_empty f.label
      then store (setup_value f.id bang) (replicate 4 blank)
      else (update f bang 6 >>= add_label f 6)

  unfoldable pub int_packet : RcpFormat → ℤ → Option (List Atom)
  unfolding store write_all data_atoms
  int_packet f v =
      if is_empty f.label
      then (store (setup_value f.id int32) (replicate 8 blank) >>= store (store_32 v 4))
      else (update f int32 11 >>= store (store_32 v 7) >>= add_label f 11)

  -- `SetInt(list[o], v > 0 ? 1 : 0)`
  abbrev store_bool : ℤ → ℕ → List (ℕ × Atom)
  store_bool v o = (o, num (if ltb_ℤ (pos 0) v then 1 else 0)) ∷ []

  unfoldable pub boolean_packet : RcpFormat → ℤ → Option (List Atom)
  unfolding store write_all data_atoms
  boolean_packet f v =
      if is_empty f.label
      then (store (setup_value f.id boolean) (replicate 5 blank) >>= store (store_bool v 4))
      else (update f boolean 8 >>= store (store_bool v 7) >>= add_label f 8)

  unfoldable pub float_packet : RcpFormat → Float → Option (List Atom)
  unfolding store write_all data_atoms
  float_packet f v =
      let i = pos (float_bits v) in
      if is_empty f.label
      then (store (setup_value f.id float32) (replicate 8 blank) >>= store (store_32 i 4))
      else (update f float32 11 >>= store (store_32 i 7) >>= add_label f 11)

  unfoldable pub string_packet : RcpFormat → Text → Option (List Atom)
  unfolding store write_all data_atoms
  string_packet f str =
      let str_len = length str in
      if is_empty f.label
      then (store (setup_value f.id string) (replicate (8 + str_len) blank)
          >>= store (store_32 (pos str_len) 4)
          >>= λ v. write_all v 8 (data_atoms fx str))
      else (store (setup_update f.id string)
            (replicate (11 + str_len + length f.label_option) blank)
          >>= store (store_32 (pos str_len) 7)
          >>= (λ v. write_all v 11 (data_atoms fx str))
          >>= add_label f (11 + str_len))

  -- ToOutList(0, …) of a packet
  abbrev sent : Option (List Atom) → Called (List (Out Atom))
  sent packet = returned (packet >>= λ list. some (to_out_list 0 list ∷ []))

  abbrev silent : Called (List (Out Atom))
  silent = returned (some [])

  unfoldable pub m_bang : RcpFormat → Called (List (Out Atom))
  unfolding bang_packet
  m_bang f = elim f.type [
    | invalid ↦ sent (bang_packet f)
    | bang ↦ sent (bang_packet f)
    | _ ↦ silent
  ]

  -- `call` is a call of the handler for the message that it is given.
  unfoldable pub m_int :
      RcpFormat → (Input Float → Called (List (Out Atom))) → ℤ → Called (List (Out Atom))
  unfolding int_packet boolean_packet
  m_int f call v = elim f.type [
    | invalid ↦ sent (int_packet f v)
    | int32 ↦ sent (int_packet f v)
    | boolean ↦ sent (boolean_packet f v)
    | float32 ↦ call (float_input (int_to_float v))
    | string ↦ call (symbol_input (to_text v))
    | _ ↦ silent
  ]

  unfoldable pub m_float :
      RcpFormat → (Input Float → Called (List (Out Atom))) → Float → Called (List (Out Atom))
  unfolding float_packet
  m_float f call v = elim f.type [
    | invalid ↦ sent (float_packet f v)
    | float32 ↦ sent (float_packet f v)
    | int32 ↦ call (int_input (float_to_int v))
    | boolean ↦ call (int_input (float_to_int v))
    | string ↦ call (symbol_input (float_text v))
    | _ ↦ silent
  ]

  unfoldable pub m_symbol : RcpFormat → Text → Called (List (Out Atom))
  unfolding string_packet
  m_symbol f v = elim f.type [
    | invalid ↦ sent (string_packet f v)
    | string ↦ sent (string_packet f v)
    | _ ↦ silent
  ]

  -- The handler of a message, with calls at most `depth` deep.
  unfoldable pub receive : ℕ → RcpFormat → Input Float → Called (List (Out Atom))
  unfolding m_bang m_int m_float m_symbol
  receive zero f x = too_deep
  receive (suc depth) f bang_input = m_bang f
  receive (suc depth) f (int_input v) = m_int f (receive depth f) v
  receive (suc depth) f (float_input v) = m_float f (receive depth f) v
  receive (suc depth) f (symbol_input v) = m_symbol f v
