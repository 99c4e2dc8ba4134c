-- ===== src/Sppp/Trip.antt =====
-- sizeprefix into sppp: the size on one outlet, then the list on the other.
use rcp_flext.Prelude.{
  ℕ, suc, ◌<◌, ◌≤◌, ◌≡◌, refl, Bool, true, false, ◌⊎◌, inl, inr, List, [], ◌∷◌, some, arith, length,
  All, ap, ◌∙◌, if◌then◌else◌,
}
use rcp_flext.Flext.{Flext, IsFlext, to_out_list}
use rcp_flext.Bytes.{IsByte, ascii_only, data_atoms, collect, unsigned_atoms, filter_map-unsigned}
use rcp_flext.Sppp.Parser.{SpppLib, m_list, m_list_lem, data_out}
use rcp_flext.Sppp.Prefix.{
  network_bytes, size_atoms, network_bytes-IsByte, from_network, from_network-network_bytes,
}
use rcp_flext.Sppp.Stream.{collect-size_atoms}
use rcp_flext.Sppp.Prefix as Prefix

-- What the size-prefix protocol promises: a parser that waits and reads four bytes of a size in
-- network order, which is not 0 and fits its buffer, expects as many bytes; having read them it delivers them, and waits again.
pub record IsSppp (lib : SpppLib) (size : ℕ) : Type 1 where
  pub Waiting : lib.Parser → Type 0
  pub Expecting : ℕ → lib.Parser → Type 0
  pub feed-size :
      (p : lib.Parser) (n : ℕ) (bs : List ℕ)
      → Waiting p
      → All IsByte bs
      → length bs ≡ 4
      → from_network bs ≡ n
      → 0 < n
      → n ≤ size
      → (p' : lib.Parser) × (lib.feed p bs ≡ (p', [])) × Expecting n p'
  pub feed-packet :
      (p : lib.Parser) (bs : List ℕ)
      → Expecting (length bs) p
      → (p' : lib.Parser) × (lib.feed p bs ≡ (p', bs ∷ [])) × Waiting p'

pub ascii_small : (n : ℕ) → n < 128 → ascii_only (network_bytes n) ≡ network_bytes n
unfolding network_bytes
ascii_small n h = ground arith

pub four : (n : ℕ) → length (network_bytes n) ≡ 4
unfolding network_bytes
four n = refl

same_if : {A : Type 0} {x y : A} (b : Bool) → x ≡ y → (if b then x else y) ≡ y
same_if true e = e
same_if false e = refl

length-unsigned_atoms : (fx : Flext) (bs : List ℕ) → length (unsigned_atoms fx bs) ≡ length bs
unfolding unsigned_atoms
length-unsigned_atoms fx [] = refl
length-unsigned_atoms fx (b ∷ bs) = ap suc (length-unsigned_atoms fx bs)

module _ (fx : Flext) (laws : IsFlext fx) where
  open fx use {Atom, char_is_signed}

  -- The four atoms of the size are read whole where `char` is unsigned, and of a short list.
  size_read :
      (n : ℕ)
      → (char_is_signed ≡ false) ⊎ (n < 128)
      → collect fx (size_atoms fx n) ≡ some (network_bytes n)
  size_read n (inl unsigned) = collect-size_atoms fx laws n ∙ rw unsigned refl
  size_read n (inr small) =
      collect-size_atoms fx laws n ∙ ap some (same_if char_is_signed (ascii_small n small))

  module _ (lib : SpppLib) (size : ℕ) (sppp : IsSppp lib size) where
    open sppp use {Waiting, feed-size, feed-packet}

    sizes :
        (bs : List ℕ)
        → Prefix.m_list fx (unsigned_atoms fx bs)
          ≡ to_out_list 1 (size_atoms fx (length bs)) ∷ to_out_list 0 (unsigned_atoms fx bs) ∷ []
    unfolding Prefix.m_list
    sizes bs =
        ap (λ n. to_out_list 1 (size_atoms fx n) ∷ to_out_list 0 (unsigned_atoms fx bs) ∷ [])
          (length-unsigned_atoms fx bs)

    -- A list of bytes goes to sizeprefix, which sends a prefix on the right outlet and then
    -- the list on the left. A parser that waits, and gets the prefix and then the list, sends
    -- the bytes as one packet, each as the number that the `char` is, and waits again. Given
    -- that the list is not empty and fits the parser's buffer, that its length is an `int`,
    -- that `char` is unsigned or the list is shorter than 128, and the documented behaviour
    -- of flext's integers and of the library's size-prefix protocol.
    pub m_list-size_atoms :
        (p : lib.Parser) (bs : List ℕ)
        → Waiting p
        → All IsByte bs
        → 0 < length bs
        → length bs ≤ size
        → length bs < 2147483648
        → (char_is_signed ≡ false) ⊎ (length bs < 128)
        → let argv = unsigned_atoms fx bs in
          (prefix : List Atom) × (p' : lib.Parser) × (p'' : lib.Parser) × (Prefix.m_list fx argv
            ≡ to_out_list 1 prefix ∷ to_out_list 0 argv ∷ [])
          × (m_list fx lib p prefix ≡ some (p', []))
          × (m_list fx lib p' argv ≡ some (p'', to_out_list 0 (data_atoms fx bs) ∷ []))
          × Waiting p''
    unfolding data_out m_list
    m_list-size_atoms p bs w good some_atom fits is_int short =
        let (p', fed, expecting) =
          feed-size p (length bs) (network_bytes (length bs)) w (network_bytes-IsByte (length bs))
            (four (length bs)) (from_network-network_bytes (length bs) (omega arith)) some_atom
            fits in
        let (p'', fed', waiting) = feed-packet p' bs expecting in
        (
          size_atoms fx (length bs),
          p',
          p'',
          sizes bs,
          rw (m_list, size_read (length bs) short, fed) refl,
          m_list_lem fx lib p' (unsigned_atoms fx bs)
              ∙ rw (filter_map-unsigned fx laws bs good, fed') refl,
          waiting,
        )
