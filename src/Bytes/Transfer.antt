-- ===== src/Bytes/Transfer.antt =====
-- Bytes that one object sends as a list of atoms, and another reads back.
use rcp_flext.Prelude.{
  ◌∙◌, map, ap, ℕ, ◌≡◌, refl, Bool, true, false, ◌&&◌, not, List, [], ◌∷◌, none, some, arith,
  if◌then◌else◌, All, filter_map, all_some, Bool-cases, inl, inr, map, ◌-◌, ◌++◌,
}
use rcp_flext.Flext.{Flext, IsFlext, char_to_int}
use rcp_flext.Bytes.Defs.{
  bytes, refused, byte?, collect, strict_byte?, strict, raw_data, data_atoms, unsigned_atoms,
}
use rcp_flext.Bytes.Collect.{collect_lem}
use rcp_flext.Bytes.Strict.{strict_lem, or_refused}
use rcp_flext.Bytes.Raw.{cons_read, raw_data_lem, raw_bytes}
use rcp_flext.Bytes.Atoms.{
  IsByte, is_ascii, all_ascii, ascii_only, char_to_int-ascii, char_to_int-high, or_refused-cons,
  cons_read-if, byte?-set_int, byte?-negative, raw_atom-set_int, raw_atom-negative,
  strict_byte?-set_int, strict_byte?-negative,
}

module _ (fx : Flext) (laws : IsFlext fx) where
  open fx use {set_int, char_is_signed}

  pub filter_map-unsigned :
      (bs : List ℕ) → All IsByte bs → filter_map (byte? fx) (unsigned_atoms fx bs) ≡ bs
  unfolding unsigned_atoms
  filter_map-unsigned [] h = refl
  filter_map-unsigned (b ∷ bs) h =
      rw (byte?-set_int fx laws b h.0, filter_map, filter_map-unsigned bs h.1)

  -- Bytes that are sent as unsigned numbers are collected whole and in order. Given bytes, and
  -- the documented behaviour of flext's integers.
  pub collect-unsigned_atoms :
      (bs : List ℕ) → All IsByte bs → collect fx (unsigned_atoms fx bs) ≡ some bs
  collect-unsigned_atoms bs h = rw (collect_lem, filter_map-unsigned bs h)

  abbrev sent : Bool → List ℕ → List fx.Atom
  sent is_signed = map (λ b. set_int (char_to_int is_signed b))

  filter_map-signed :
      (bs : List ℕ) → All IsByte bs → filter_map (byte? fx) (sent true bs) ≡ ascii_only bs
  filter_map-signed [] h = refl
  filter_map-signed (b ∷ bs) h = elim (Bool-cases (is_ascii b)) [
    | inl low ↦ rw (
      char_to_int-ascii true b low,
      byte?-set_int fx laws b h.0,
      filter_map,
      low,
      filter_map-signed bs h.1,
    )
    | inr high ↦
        rw
          (
            char_to_int-high b h.0 high,
            byte?-negative fx laws (255 - b) (omega arith),
            filter_map,
            high,
          )
          (filter_map-signed bs h.1)
  ]

  raw_bytes-signed :
      (bs : List ℕ)
      → All IsByte bs
      → raw_bytes fx (sent true bs) ≡ (if all_ascii bs then bytes bs else refused)
  raw_bytes-signed [] h = refl
  raw_bytes-signed (b ∷ bs) h = elim (Bool-cases (is_ascii b)) [
    | inl low ↦
        rw
          (
            char_to_int-ascii true b low,
            raw_atom-set_int fx laws b h.0,
            raw_bytes,
            low,
            raw_bytes-signed bs h.1,
          )
          (ground arith)
    | inr high ↦ rw (
      char_to_int-high b h.0 high,
      raw_atom-negative fx laws (255 - b) (omega arith),
      raw_bytes,
      high,
    )
  ]

  all_some-signed :
      (bs : List ℕ)
      → All IsByte bs
      → all_some (strict_byte? fx) (sent true bs) ≡ (if all_ascii bs then some bs else none)
  all_some-signed [] h = refl
  all_some-signed (b ∷ bs) h = elim (Bool-cases (is_ascii b)) [
    | inl low ↦
        rw
          (
            char_to_int-ascii true b low,
            strict_byte?-set_int fx laws b h.0,
            all_some,
            low,
            all_some-signed bs h.1,
          )
          (ground arith)
    | inr high ↦ rw (
      char_to_int-high b h.0 high,
      strict_byte?-negative fx laws (255 - b) (omega arith),
      all_some,
      high,
    )
  ]

  filter_map-plain : (bs : List ℕ) → All IsByte bs → filter_map (byte? fx) (sent false bs) ≡ bs
  filter_map-plain [] h = refl
  filter_map-plain (b ∷ bs) h =
      rw (byte?-set_int fx laws b h.0, filter_map, filter_map-plain bs h.1)

  raw_bytes-plain : (bs : List ℕ) → All IsByte bs → raw_bytes fx (sent false bs) ≡ bytes bs
  raw_bytes-plain [] h = refl
  raw_bytes-plain (b ∷ bs) h =
      rw (raw_atom-set_int fx laws b h.0, raw_bytes, raw_bytes-plain bs h.1)

  all_some-plain :
      (bs : List ℕ) → All IsByte bs → all_some (strict_byte? fx) (sent false bs) ≡ some bs
  all_some-plain [] h = refl
  all_some-plain (b ∷ bs) h =
      rw (strict_byte?-set_int fx laws b h.0, all_some, all_some-plain bs h.1)

  pub filter_map-sent :
      (is_signed : Bool) (bs : List ℕ)
      → All IsByte bs
      → filter_map (byte? fx) (sent is_signed bs) ≡ (if is_signed then ascii_only bs else bs)
  filter_map-sent true = filter_map-signed
  filter_map-sent false = filter_map-plain

  raw_bytes-sent :
      (is_signed : Bool) (bs : List ℕ)
      → All IsByte bs
      → raw_bytes fx (sent is_signed bs)
        ≡ (if is_signed && not (all_ascii bs) then refused else bytes bs)
  raw_bytes-sent true bs h = rw (raw_bytes-signed bs h) (ground arith)
  raw_bytes-sent false bs h = raw_bytes-plain bs h

  or_refused-sent :
      (is_signed : Bool) (bs : List ℕ)
      → All IsByte bs
      → or_refused (all_some (strict_byte? fx) (sent is_signed bs))
        ≡ (if is_signed && not (all_ascii bs) then refused else bytes bs)
  or_refused-sent true bs h = rw (all_some-signed bs h) (ground arith)
  or_refused-sent false bs h = rw (all_some-plain bs h)

  -- Bytes sent as `char` arrive whole where `char` is unsigned; where it is signed, a loop that skips
  -- drops every byte above 127.
  pub collect-data_atoms :
      (bs : List ℕ)
      → All IsByte bs
      → collect fx (data_atoms fx bs) ≡ some (if char_is_signed then ascii_only bs else bs)
  unfolding data_atoms
  collect-data_atoms bs h = rw collect_lem (ap some (filter_map-sent char_is_signed bs h))

  -- Raw data that an object sends out and that is sent back in is taken whole, unless `char` is
  -- signed and some byte is above 127: then all of it is refused. Given bytes, and the
  -- documented behaviour of flext's integers.
  pub raw_data-data_atoms :
      (bs : List ℕ)
      → All IsByte bs
      → raw_data fx (data_atoms fx bs)
        ≡ some (if char_is_signed && not (all_ascii bs) then refused else bytes bs)
  unfolding data_atoms
  raw_data-data_atoms bs h = rw raw_data_lem (ap some (raw_bytes-sent char_is_signed bs h))

  -- Bytes sent as unsigned numbers are taken whole.
  pub raw_data-unsigned_atoms :
      (bs : List ℕ) → All IsByte bs → raw_data fx (unsigned_atoms fx bs) ≡ some (bytes bs)
  unfolding unsigned_atoms
  raw_data-unsigned_atoms bs h = rw raw_data_lem (ap some (raw_bytes-plain bs h))

  -- So does the loop of RcpParse, ws.server and ws.client.
  pub strict-data_atoms :
      (bs : List ℕ)
      → All IsByte bs
      → strict fx (data_atoms fx bs)
        ≡ some (if char_is_signed && not (all_ascii bs) then refused else bytes bs)
  unfolding data_atoms
  strict-data_atoms bs h = rw strict_lem (ap some (or_refused-sent char_is_signed bs h))

  -- Unsigned atoms in front of atoms that may be signed: the answer is decided by the latter.
  pub strict-mixed_atoms :
      (bs cs : List ℕ)
      → All IsByte bs
      → All IsByte cs
      → strict fx (unsigned_atoms fx bs ++ data_atoms fx cs)
        ≡ some (if char_is_signed && not (all_ascii cs) then refused else bytes (bs ++ cs))
  unfolding unsigned_atoms data_atoms
  strict-mixed_atoms bs cs hb hc = rw strict_lem (ap some (mixed bs hb))
    where
      mixed :
          (front : List ℕ)
          → All IsByte front
          → or_refused (all_some (strict_byte? fx) (sent false front ++ sent char_is_signed cs))
            ≡ (if char_is_signed && not (all_ascii cs) then refused else bytes (front ++ cs))
      mixed [] h = or_refused-sent char_is_signed cs hc
      mixed (b ∷ front) h =
          let flag = char_is_signed && not (all_ascii cs) in
          rw (strict_byte?-set_int fx laws b h.0, all_some)
            (or_refused-cons b
                (all_some (strict_byte? fx) (sent false front ++ sent char_is_signed cs))
              ∙ ap (cons_read b) (mixed front h.1)
              ∙ cons_read-if b flag (front ++ cs))
