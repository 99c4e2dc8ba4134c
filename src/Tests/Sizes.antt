-- ===== src/Tests/Sizes.antt =====
-- A size-prefix parser that reads byte by byte, and two packets through a stream.
use rcp_flext.Prelude.{
  ℕ, ◌+◌, ◌<◌, ◌≡◌, refl, Bool, true, false, List, [], ◌∷◌, ◌++◌, map, Option, none, some, ◌==◌,
  if◌then◌else◌, arith, length, length-append, append_assoc, inr,
}
use rcp_flext.Flext.{Out, PlainAtom, plain-IsFlext}
use rcp_flext.Bytes.{data_atoms}
use rcp_flext.Slip.Stream.{join}
use rcp_flext.Sppp.Parser.{SpppLib}
use rcp_flext.Sppp.Prefix.{from_network}
use rcp_flext.Sppp.Stream.{IsStream}
use rcp_flext.Sppp.Trip.{IsSppp}
use rcp_flext.Server.SlipLink.{take_in}
use rcp_flext.Server.PrefixLink.{prefix_all, parse_all, take_in-prefix_all}
use rcp_flext.Tests.Samples.{fx}

-- The size that was read, and the bytes read since.
pub record Reader : Type 0 where
  pub expected : Option ℕ
  pub buffer : List ℕ

abbrev start : Reader
start = record { expected = none; buffer = [] }

abbrev filled : List ℕ → Bool → Reader × List (List ℕ)
filled bs true = (start, bs ∷ [])
filled bs false = (start, [])

abbrev read : Reader → ℕ → Reader × List (List ℕ)
read r b =
    let buffer = r.buffer ++ b ∷ [] in
    elim r.expected [
      | none ↦
          if length buffer == 4
          then (record { expected = some (from_network buffer); buffer = [] }, [])
          else (record r { buffer = buffer }, [])
      | some n ↦
          if length buffer == n then (start, buffer ∷ []) else (record r { buffer = buffer }, [])
    ]

abbrev read_all : Reader → List ℕ → Reader × List (List ℕ)
read_all r [] = (r, [])
read_all r (b ∷ bs) =
    let (r', first) = read r b in let (r'', second) = read_all r' bs in (r'', first ++ second)

abbrev reader : SpppLib
reader = record { Parser = Reader; create = λ n. start; feed = read_all; reset = λ r. start }

read_all-append :
    (r : Reader) (xs ys : List ℕ)
    → read_all r (xs ++ ys) ≡ (
        let (r', first) = read_all r xs in
        let (r'', second) = read_all r' ys in (r'', first ++ second))
read_all-append r [] ys = refl
read_all-append r (b ∷ xs) ys = rw (read_all-append (read r b).0 xs ys) (simp append_assoc)

reader-IsStream : IsStream reader
reader-IsStream = record { feed-nil = λ r. refl; feed-append = read_all-append }

is_same : (a b : ℕ) → a ≡ b → (a == b) ≡ true
is_same a b h = ground arith

is_less : (a b : ℕ) → a < b → (a == b) ≡ false
is_less a b h = ground arith

read_last :
    (n b : ℕ) (done : List ℕ)
    → length done + 1 ≡ n
    → read (record { expected = some n; buffer = done }) b ≡ (start, (done ++ b ∷ []) ∷ [])
read_last n b done h =
    let e = is_same (length (done ++ b ∷ [])) n (omega (arith, length-append done (b ∷ []))) in
    rw (read, e) refl

read_more :
    (n b : ℕ) (done : List ℕ)
    → length done + 1 < n
    → read (record { expected = some n; buffer = done }) b
      ≡ (record { expected = some n; buffer = done ++ b ∷ [] }, [])
read_more n b done h =
    let e = is_less (length (done ++ b ∷ [])) n (omega (arith, length-append done (b ∷ []))) in
    rw (read, e) refl

-- The rest of a packet of which `done` was read.
read_rest :
    (n : ℕ) (bs done : List ℕ)
    → 0 < length bs
    → length done + length bs ≡ n
    → read_all (record { expected = some n; buffer = done }) bs ≡ (start, (done ++ bs) ∷ [])
read_rest n [] done h e = absurd (omega arith)
read_rest n (b ∷ []) done h e = rw (read_all, read_last n b done (omega arith)) refl
read_rest n (b ∷ c ∷ bs) done h e =
    rw
      (
        read_all,
        read_more n b done (omega arith),
        read_rest n (c ∷ bs) (done ++ b ∷ []) (omega arith)
            (omega (arith, length-append done (b ∷ []))),
      )
      (simp append_assoc)

read_size :
    (n : ℕ) (bs : List ℕ)
    → length bs ≡ 4
    → from_network bs ≡ n
    → read_all start bs ≡ (record { expected = some n; buffer = [] }, [])
read_size n (a ∷ b ∷ c ∷ d ∷ []) e f = rw f refl
read_size n [] e f = absurd (omega arith)
read_size n (a ∷ []) e f = absurd (omega arith)
read_size n (a ∷ b ∷ []) e f = absurd (omega arith)
read_size n (a ∷ b ∷ c ∷ []) e f = absurd (omega arith)
read_size n (a ∷ b ∷ c ∷ d ∷ x ∷ bs) e f = absurd (omega arith)

unfoldable reader-IsSppp : IsSppp reader 8
reader-IsSppp = record {
  Waiting = λ r. r ≡ start;
  Expecting = λ n r. (r ≡ record { expected = some n; buffer = [] }) × (0 < n);
  feed-size = λ r n bs w good four same some_byte fits. (
    record { expected = some n; buffer = [] },
    rw w (read_size n bs four same),
    (refl, some_byte),
  );
  feed-packet = λ r bs e. (start, rw e.0 (read_rest (length bs) bs [] e.1 (omega arith)), refl);
}

take_in-prefix_all_example :
    (p' : Reader) × (outs : List (Out PlainAtom)) × ((pieces : List (List PlainAtom))
      → join pieces ≡ prefix_all fx (map (data_atoms fx) ((7 ∷ 9 ∷ []) ∷ (5 ∷ []) ∷ []))
      → parse_all fx reader start pieces ≡ some (p', outs))
    × (take_in fx outs ≡ some ((7 ∷ 9 ∷ []) ∷ (5 ∷ []) ∷ []))
    × (p' ≡ start)
unfolding reader-IsSppp
take_in-prefix_all_example =
    take_in-prefix_all fx (plain-IsFlext true) reader reader-IsStream 8 reader-IsSppp start
      ((7 ∷ 9 ∷ []) ∷ (5 ∷ []) ∷ []) refl
      (
        record {
          are_bytes = (omega arith, (omega arith, tt));
          some_byte = omega arith;
          fits = omega arith;
          is_int = omega arith;
          kept = inr (refl, omega arith);
        },
        (
          record {
            are_bytes = (omega arith, tt);
            some_byte = omega arith;
            fits = omega arith;
            is_int = omega arith;
            kept = inr (refl, omega arith);
          },
          tt,
        ),
      )
