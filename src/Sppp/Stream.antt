-- ===== src/Sppp/Stream.antt =====
-- sizeprefix into sppp, and the stream of bytes that sppp reads.
use rcp_flext.Prelude.{
  ap, ◌∙◌, Option-cases, inl, inr, ℕ, ◌<◌, ◌≤◌, ◌≡◌, refl, true, List, [], ◌∷◌, ◌++◌, Option, some,
  ◌>>=◌, arith, filter_map, if◌then◌else◌, map-append,
}
use rcp_flext.Flext.{Flext, IsFlext}
use rcp_flext.Bytes.{ascii_only, collect, collect-data_atoms}
use rcp_flext.Sppp.Parser.{SpppLib, m_list, m_list_lem, data_out}
use rcp_flext.Sppp.Prefix.{network_bytes, size_atoms, network_bytes-IsByte}

-- rcp_sppp_data is fed a stream: how it is cut does not matter.
pub record IsStream (lib : SpppLib) : Type 0 where
  pub feed-nil : (p : lib.Parser) → lib.feed p [] ≡ (p, [])
  pub feed-append :
      (p : lib.Parser) (xs ys : List ℕ)
      → lib.feed p (xs ++ ys) ≡ (
          let (p', first) = lib.feed p xs in
          let (p'', second) = lib.feed p' ys in (p'', first ++ second))

module _ {ℓ κ} {A : Type ℓ} {B : Type κ} where
  pub filter_map-append :
      (f : A → Option B) (xs ys : List A)
      → filter_map f (xs ++ ys) ≡ filter_map f xs ++ filter_map f ys
  filter_map-append f [] ys = refl
  filter_map-append f (x ∷ xs) ys = elim (Option-cases (f x)) [
    | inl skipped ↦ rw (skipped, filter_map) (filter_map-append f xs ys)
    | inr (y, kept) ↦ rw (kept, filter_map, filter_map-append f xs ys)
  ]

module _ (fx : Flext) (lib : SpppLib) (stream : IsStream lib) where
  open fx use {Atom}
  open stream use {feed-append}

  -- Two lists in a row do to the parser, and send out, what one list of both does. Given that
  -- the library reads a stream, cut anywhere.
  pub m_list-append_stream :
      (p : lib.Parser) (xs ys : List Atom)
      → m_list fx lib p (xs ++ ys) ≡ (do
        (p', first) ← m_list fx lib p xs
        (p'', second) ← m_list fx lib p' ys
        some (p'', first ++ second))
  unfolding data_out
  m_list-append_stream p xs ys = simp (m_list_lem, filter_map-append, feed-append, map-append)

module _ (fx : Flext) (laws : IsFlext fx) where
  open fx use {char_is_signed}

  -- What sppp reads of the four atoms that sizeprefix sends: the size in network order if `char` is
  -- unsigned; if it is signed, the bytes above 127 are missing.
  pub collect-size_atoms :
      (n : ℕ)
      → collect fx (size_atoms fx n)
        ≡ some (if char_is_signed then ascii_only (network_bytes n) else network_bytes n)
  unfolding size_atoms
  collect-size_atoms n = collect-data_atoms fx laws (network_bytes n) (network_bytes-IsByte n)

  -- Where `char` is signed, the size prefix of a list of 128 to 255 atoms is read as three
  -- bytes in place of four. Given the documented behaviour of flext's integers.
  pub size_atoms_short :
      (n : ℕ)
      → char_is_signed ≡ true
      → 128 ≤ n
      → n < 256
      → collect fx (size_atoms fx n) ≡ some (0 ∷ 0 ∷ 0 ∷ [])
  unfolding network_bytes
  size_atoms_short n s lo hi = collect-size_atoms n ∙ ap some (ground arith)
