-- ===== src/Format/Invariant.antt =====
-- The states that rcp.format can be in, and that its handlers are safe in them.
use rcp_flext.Prelude.{
  All, subst, ap, ◌∙◌, if◌then◌else◌, ℕ, suc, ◌≡◌, refl, ◌≢◌, ◌⊎◌, inl, inr, true, false, ℤ, pos,
  negsuc, ◌≤ℤ◌, eq_ℤ, to_int16, to_int16_id, Text, List, [], ◌∷◌, ◌++◌, Option, none, some, arith,
  Bool-cases, Option-cases,
}
use rcp_flext.Flext.{Flext, Out}
use rcp_flext.Rcp.{invalid, bang, Protocol}
use rcp_flext.Slip.Decoder.{Created, created, threw}
use rcp_flext.Format.Defs.{
  RcpFormat, Input, bang_input, int_input, float_input, symbol_input, returned, receive, is_empty,
}
use rcp_flext.Format.Settings.{
  create, set_id, set_type, set_label, clear_label, is_bad_id, new_format, written_option,
}
use rcp_flext.Format.Dispatch.{receive_lem, expected}

-- The id fits 16 bits and is not 0, and a label has its option.
pub record IsFormat (f : RcpFormat) : Type 0 where
  pub id_ge : negsuc 32767 ≤ℤ f.id
  pub id_le : f.id ≤ℤ pos 32767
  pub id_ne : eq_ℤ f.id (pos 0) ≡ false
  pub labelled : (is_empty f.label ≡ true) ⊎ (is_empty f.label_option ≡ false)

id_in_range :
    (id : ℤ)
    → is_bad_id id ≡ false
    → (negsuc 32767 ≤ℤ id) × (id ≤ℤ pos 32767) × (eq_ℤ id (pos 0) ≡ false)
id_in_range (pos n) h = ground arith
id_in_range (negsuc n) h = ground arith

-- An id that passes the checks is kept as it is by the conversion to `int16_t`.
stored_id :
    (id : ℤ)
    → is_bad_id id ≡ false
    → (negsuc 32767 ≤ℤ to_int16 id)
      × (to_int16 id ≤ℤ pos 32767)
      × (eq_ℤ (to_int16 id) (pos 0) ≡ false)
stored_id id h = let r = id_in_range id h in rw (to_int16_id id r.0 r.1) r

-- An id is stored as it is given, without a loss by the conversion to 16 bits, and refused
-- exactly if it is 0 or does not fit.
pub set_id_lem :
    (f : RcpFormat) (id : ℤ)
    → set_id f id ≡ (if is_bad_id id then threw else created (record f { id = id }))
unfolding set_id
set_id_lem f id = elim (Bool-cases (is_bad_id id)) [
  | inl bad ↦ rw bad
  | inr good ↦ let r = id_in_range id good in rw (good, to_int16_id id r.0 r.1)
]

-- A message that changes a setting.
pub data Setting : Type 0 where
  id_setting : ℤ → Setting
  type_setting : Text → Setting
  label_setting : Text → Setting
  clear_setting : Setting

-- An exception leaves the object as it was.
abbrev or_old : RcpFormat → Created RcpFormat → RcpFormat
or_old f threw = f
or_old f (created g) = g

abbrev OnCreated : (RcpFormat → Type 0) → Created RcpFormat → Type 0
OnCreated P threw = Unit
OnCreated P (created f) = P f

is_empty-option : (bs : List ℕ) (t : ℕ) → is_empty (bs ++ t ∷ t ∷ []) ≡ false
is_empty-option [] t = refl
is_empty-option (b ∷ bs) t = refl

-- What the property wants of a setting: the library writes the option of a label.
abbrev pub IsWritten : Protocol → Setting → Type 0
IsWritten rcp (label_setting p) = (bs : List ℕ) × (rcp.label_option p ≡ some bs)
IsWritten rcp _ = Unit {0}

module _ (fx : Flext) (rcp : Protocol) where
  unfoldable pub apply : RcpFormat → Setting → RcpFormat
  unfolding set_id set_type set_label clear_label
  apply f (id_setting id) = or_old f (set_id f id)
  apply f (type_setting t) = set_type f t
  apply f (label_setting p) = (set_label fx rcp f p).0
  apply f clear_setting = clear_label f

  unfoldable pub apply_all : RcpFormat → List Setting → RcpFormat
  unfolding apply
  apply_all f [] = f
  apply_all f (s ∷ more) = apply_all (apply f s) more

  new_format-IsFormat : (id : ℤ) → OnCreated IsFormat (new_format fx id)
  new_format-IsFormat id = elim (Bool-cases (is_bad_id id)) [
    | inl bad ↦ rw bad tt
    | inr good ↦
        let r = stored_id id good in
        rw good (record { id_ge = r.0; id_le = r.1; id_ne = r.2; labelled = inl refl })
  ]

  -- The constructor makes a well-formed object or throws.
  pub create-IsFormat : (argv : List fx.Atom) → OnCreated IsFormat (create fx argv)
  unfolding create
  create-IsFormat [] = new_format-IsFormat (pos 1)
  create-IsFormat (a ∷ l) = elim (Bool-cases (fx.can_be_int a)) [
    | inl number ↦ rw number (new_format-IsFormat (fx.get_a_int a (pos 0)))
    | inr other ↦ rw other tt
  ]

  set_id-IsFormat : (f : RcpFormat) (id : ℤ) → IsFormat f → IsFormat (or_old f (set_id f id))
  set_id-IsFormat f id v = elim (Bool-cases (is_bad_id id)) [
    | inl bad ↦ rw (set_id_lem f id, bad) v
    | inr good ↦
        let r = id_in_range id good in
        rw (set_id_lem f id, good)
          (record { id_ge = r.0; id_le = r.1; id_ne = r.2; labelled = v.labelled })
  ]

  label-IsFormat :
      (f : RcpFormat) (p : Text) (bs : List ℕ)
      → IsFormat f
      → rcp.label_option p ≡ some bs
      → IsFormat (set_label fx rcp f p).0
  unfolding set_label
  label-IsFormat f p bs v e = rw e (record {
    id_ge = v.id_ge;
    id_le = v.id_le;
    id_ne = v.id_ne;
    labelled = inr (is_empty-option bs rcp.terminator);
  })

  apply-IsFormat :
      (f : RcpFormat) (s : Setting) → IsWritten rcp s → IsFormat f → IsFormat (apply f s)
  unfolding apply
  apply-IsFormat f (id_setting id) w v = set_id-IsFormat f id v
  apply-IsFormat f (type_setting t) w v = unfold set_type in ground arith
  apply-IsFormat f (label_setting p) w v = label-IsFormat f p w.0 v w.1
  apply-IsFormat f clear_setting w v = unfold clear_label in ground arith

  apply_all-IsFormat :
      (f : RcpFormat) (settings : List Setting)
      → All (IsWritten rcp) settings
      → IsFormat f
      → IsFormat (apply_all f settings)
  unfolding apply_all
  apply_all-IsFormat f [] w v = v
  apply_all-IsFormat f (s ∷ more) w v =
      apply_all-IsFormat (apply f s) more w.1 (apply-IsFormat f s w.0 v)

  expected-safe : (f : RcpFormat) (x : Input fx.Float) → IsFormat f → expected fx rcp f x ≢ none
  expected-safe f bang_input v e = ground (arith, v.labelled)
  expected-safe f (int_input i) v e = ground arith
  expected-safe f (float_input i) v e = ground arith
  expected-safe f (symbol_input t) v e = ground arith

  -- After the constructor has made an object from any arguments, and after any sequence of
  -- settings whose labels can be written as an option, every message is handled within two
  -- nested calls and without a write out of bounds, and the object is well-formed: its id is a
  -- 16 bit number other than 0, and a label that is not empty has an option.
  pub receive_safe :
      (argv : List fx.Atom) (f : RcpFormat) (settings : List Setting) (x : Input fx.Float)
      (depth : ℕ)
      → create fx argv ≡ created f
      → All (IsWritten rcp) settings
      → (outs : List (Out fx.Atom)) × (receive fx rcp (suc (suc depth)) (apply_all f settings) x
          ≡ returned (some outs))
        × IsFormat (apply_all f settings)
  receive_safe argv f settings x depth e w =
      let v : IsFormat f = subst (OnCreated IsFormat) e (create-IsFormat argv) in
      let last = apply_all-IsFormat f settings w v in
      elim (Option-cases (expected fx rcp (apply_all f settings) x)) [
        | inl failed ↦ absurd (expected-safe (apply_all f settings) x last failed)
        | inr (outs, done) ↦
            (outs, receive_lem fx rcp depth (apply_all f settings) x ∙ ap returned done, last)
      ]

  bang_expected :
      (f : RcpFormat) (c : ℕ) (cs : Text)
      → (f.type ≡ invalid) ⊎ (f.type ≡ bang)
      → (option : Option (List ℕ)) → option ≡ none
      → expected fx rcp
          (record f { label = c ∷ cs; label_option = written_option fx rcp option })
          bang_input
        ≡ none
  bang_expected f c cs t none e = ground arith
  bang_expected f c cs t (some bs) e = cc

  -- If the option of a label that is not empty cannot be written, a `bang` to an object of no
  -- type or of type bang writes out of the bounds of its vector.
  pub bang_faults :
      (f : RcpFormat) (c : ℕ) (cs : Text) (depth : ℕ)
      → rcp.label_option (c ∷ cs) ≡ none
      → (f.type ≡ invalid) ⊎ (f.type ≡ bang)
      → receive fx rcp (suc (suc depth)) (set_label fx rcp f (c ∷ cs)).0 bang_input ≡ returned none
  unfolding set_label
  bang_faults f c cs depth e t =
      let g = (set_label fx rcp f (c ∷ cs)).0 in
      receive_lem fx rcp depth g bang_input
      ∙ ap returned (bang_expected f c cs t (rcp.label_option (c ∷ cs)) e)
