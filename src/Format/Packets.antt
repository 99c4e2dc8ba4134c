-- ===== src/Format/Packets.antt =====
-- What the packets of rcp.format hold, against the index arithmetic that fills them.
use rcp_flext.Prelude.{
  replicate-add_append, append_assoc, length-append, ℕ, suc, ◌+◌, ◌≡◌, refl, ℤ, pos, ltb_ℤ, Text,
  List, [], ◌∷◌, ◌++◌, Option, none, some, ◌>>=◌, if◌then◌else◌, length, length-map,
  length-replicate, replicate, arith, Bool-cases, inl, inr,
}
use rcp_flext.Flext.{Flext, write_all, write_all_end, write_all-append, char_to_int}
use rcp_flext.Bytes.{data_atoms}
use rcp_flext.Rcp.{Datatype, boolean, int32, float32, string, bang, Protocol}
use rcp_flext.Format.Defs.{
  RcpFormat, is_empty, int_packet, boolean_packet, float_packet, string_packet, bang_packet,
}

module _ (fx : Flext) (rcp : Protocol) where
  open fx use {Atom, Float, set_int, blank, float_to_int, int_to_float, float_bits, float_text}
  open rcp use {
    command_update, command_updatevalue, packet_options_data, parameter_options_value, terminator,
    datatype, store16, store32,
  }

  abbrev pub num : ℕ → Atom
  num n = set_int (pos n)

  abbrev pub id_atoms : ℤ → List Atom
  id_atoms id = let (a, b) = store16 id in num a ∷ num b ∷ []

  abbrev pub atoms_32 : ℤ → List Atom
  atoms_32 v = let (a, b, c, d) = store32 v in num a ∷ num b ∷ num c ∷ num d ∷ []

  -- A value update: the command, the id, the type, the value.
  abbrev pub value_update : RcpFormat → Datatype → List Atom → List Atom
  value_update f t value = num command_updatevalue ∷ (id_atoms f.id ++ num (datatype t) ∷ value)

  -- An update with a label: the command, the option, the id, the type and its end, the value behind
  -- its option, the label option.
  abbrev pub labelled_head : RcpFormat → Datatype → List Atom → List Atom
  labelled_head f t value =
      num command_update
      ∷ num packet_options_data
      ∷ (id_atoms f.id ++ num (datatype t) ∷ num terminator ∷ value)

  abbrev pub labelled_update : RcpFormat → Datatype → List Atom → List Atom
  labelled_update f t value = labelled_head f t value ++ data_atoms fx f.label_option

  abbrev pub packet : RcpFormat → Datatype → List Atom → List Atom
  packet f t value =
      if is_empty f.label
      then value_update f t value
      else labelled_update f t (num parameter_options_value ∷ value)

  length-data_atoms : (bs : List ℕ) → length (data_atoms fx bs) ≡ length bs
  unfolding data_atoms
  length-data_atoms bs = length-map (λ b. set_int (char_to_int fx.char_is_signed b)) bs

  fill_lem :
      (done : List Atom) (bs : List ℕ)
      → write_all (done ++ replicate (length bs) blank) (length done) (data_atoms fx bs)
        ≡ some (done ++ data_atoms fx bs)
  fill_lem done bs =
      write_all_end done (replicate (length bs) blank) (data_atoms fx bs)
        (omega (arith, length-replicate (length bs) blank, length-data_atoms bs))

  fill_twice_lem :
      (done : List Atom) (n : ℕ) (cs bs : List ℕ)
      → n ≡ length done + length cs
      → (write_all
            (done ++ replicate (length cs + length bs) blank)
            (length done)
            (data_atoms fx cs)
          >>= λ v. write_all v n (data_atoms fx bs))
        ≡ some (done ++ (data_atoms fx cs ++ data_atoms fx bs))
  fill_twice_lem done n cs bs e =
      let there : n ≡ length (done ++ data_atoms fx cs) =
        omega (arith, length-append done (data_atoms fx cs), length-data_atoms cs) in
      rw
        (
          replicate-add_append (length cs) (length bs) blank,
          write_all-append done (replicate (length cs) blank) (replicate (length bs) blank)
              (data_atoms fx cs)
              (omega (arith, length-replicate (length cs) blank, length-data_atoms cs)),
          ← append_assoc done (data_atoms fx cs) (replicate (length bs) blank),
          there,
          fill_lem (done ++ data_atoms fx cs) bs,
        )
        (simp append_assoc)

  eleven : (n : ℕ) → 11 + n ≡ suc (suc (suc (suc (suc (suc (suc (suc (suc (suc (suc n))))))))))
  eleven n = omega arith

  eight : (n : ℕ) → 8 + n ≡ suc (suc (suc (suc (suc (suc (suc (suc n)))))))
  eight n = omega arith

  -- Every `int` packet has the form of `packet`, and is filled without a write out of bounds.
  pub int_packet_lem :
      (f : RcpFormat) (v : ℤ) → int_packet fx rcp f v ≡ some (packet f int32 (atoms_32 v))
  unfolding int_packet
  int_packet_lem f v = elim (Bool-cases (is_empty f.label)) [
    | inl bare ↦ rw bare
    | inr labelled ↦
        rw (labelled, eleven)
          (fill_lem (labelled_head f int32 (num parameter_options_value ∷ atoms_32 v))
            f.label_option)
  ]

  pub float_packet_lem :
      (f : RcpFormat) (v : Float)
      → float_packet fx rcp f v ≡ some (packet f float32 (atoms_32 (pos (float_bits v))))
  unfolding float_packet
  float_packet_lem f v = elim (Bool-cases (is_empty f.label)) [
    | inl bare ↦ rw bare
    | inr labelled ↦
        rw (labelled, eleven)
          (fill_lem
            (labelled_head f float32 (num parameter_options_value ∷ atoms_32 (pos (float_bits v))))
            f.label_option)
  ]

  abbrev pub bool_atoms : ℤ → List Atom
  bool_atoms v = num (if ltb_ℤ (pos 0) v then 1 else 0) ∷ []

  pub boolean_packet_lem :
      (f : RcpFormat) (v : ℤ) → boolean_packet fx rcp f v ≡ some (packet f boolean (bool_atoms v))
  unfolding boolean_packet
  boolean_packet_lem f v = elim (Bool-cases (is_empty f.label)) [
    | inl bare ↦ rw bare
    | inr labelled ↦
        rw (labelled, eight)
          (fill_lem (labelled_head f boolean (num parameter_options_value ∷ bool_atoms v))
            f.label_option)
  ]

  abbrev pub string_atoms : Text → List Atom
  string_atoms str = atoms_32 (pos (length str)) ++ data_atoms fx str

  pub string_packet_lem :
      (f : RcpFormat) (str : Text)
      → string_packet fx rcp f str ≡ some (packet f string (string_atoms str))
  unfolding string_packet
  string_packet_lem f str = elim (Bool-cases (is_empty f.label)) [
    | inl bare ↦
        rw (bare, eight) (fill_lem (value_update f string (atoms_32 (pos (length str)))) str)
    | inr labelled ↦
        let room : 11 + length str + length f.label_option
            ≡ 11 + (length str + length f.label_option) =
          omega arith in
        rw (labelled, room, eleven (length str + length f.label_option))
          (fill_twice_lem
            (labelled_head f string (num parameter_options_value ∷ atoms_32 (pos (length str))))
            (11 + length str) str f.label_option refl)
  ]

  seven : (n : ℕ) → 6 + suc n ≡ suc (suc (suc (suc (suc (suc (suc n))))))
  seven n = omega arith

  abbrev pub bang_result : RcpFormat → Option (List Atom)
  bang_result f =
      if is_empty f.label
      then some (value_update f bang [])
      else (if is_empty f.label_option then none else some (labelled_update f bang []))

  bang_packet_cases :
      (id : ℤ) (t : Datatype) (label : Text) (option : List ℕ)
      → let f : RcpFormat = record { id = id; type = t; label = label; label_option = option } in
        bang_packet fx rcp f ≡ bang_result f
  unfolding bang_packet
  bang_packet_cases id t [] option = refl
  bang_packet_cases id t (c ∷ cs) [] = refl
  bang_packet_cases id t (c ∷ cs) (b ∷ bs) =
      let f : RcpFormat = record { id = id; type = t; label = c ∷ cs; label_option = b ∷ bs } in
      rw (seven (length bs)) (
        write_all_end (labelled_head f bang [])
          (num parameter_options_value ∷ replicate (length bs) blank) (data_atoms fx (b ∷ bs))
          (omega (arith, length-replicate (length bs) blank, length-data_atoms bs)))

  -- A `bang` packet with a label writes the label option over the value option, so it wants a label
  -- option that is not empty: else the write of `list[6]` is out of bounds.
  pub bang_packet_lem : (f : RcpFormat) → bang_packet fx rcp f ≡ bang_result f
  bang_packet_lem f = bang_packet_cases f.id f.type f.label f.label_option
