-- ===== src/Server/PrefixLink.antt =====
-- Two objects with the option "-raw", joined by a byte stream: the data outlet of the one goes through
-- sizeprefix, both of whose outlets go into the stream, and the stream through sppp to the data inlet of
-- the other.
use rcp_flext.Prelude.{
  ℕ, ◌<◌, ◌≤◌, ◌≡◌, refl, true, false, ◌&&◌, not, List, [], ◌∷◌, ◌++◌, map, Option, some, ◌>>=◌,
  length, length-map, All, filter_map, ap, ◌∙◌, ◌⊎◌, inl, inr, arith, append-nil, sym,
}
use rcp_flext.Flext.{Flext, IsFlext, Out, to_out_list, char_to_int}
use rcp_flext.Bytes.{byte?, data_atoms, IsByte, all_ascii, ascii_only}
use rcp_flext.Slip.Stream.{atoms_of, join}
use rcp_flext.Sppp.Parser.{SpppLib, m_list, m_list_lem, data_out, feed_out}
use rcp_flext.Sppp.Prefix.{
  network_bytes, size_atoms, network_bytes-IsByte, from_network, from_network-network_bytes,
}
use rcp_flext.Sppp.Prefix as Prefix
use rcp_flext.Sppp.Stream.{IsStream, m_list-append_stream, filter_map-append}
use rcp_flext.Sppp.Trip.{IsSppp, ascii_small, four}
use rcp_flext.Server.Object.{raw_input}
use rcp_flext.Server.RawLink.{raw_input-data_atoms}
use rcp_flext.Server.SlipLink.{take_in, left_of, left_lem, pushed_some}

all-ascii_only : (bs : List ℕ) → all_ascii bs ≡ true → ascii_only bs ≡ bs
all-ascii_only [] h = refl
all-ascii_only (b ∷ bs) h = ground (arith, all-ascii_only bs, ap (◌∷◌ b))

module _ (fx : Flext) where
  open fx use {Atom, char_is_signed}

  -- What sizeprefix sends of the lists, in the order in which it sends it.
  unfoldable pub prefix_all : List (List Atom) → List Atom
  unfolding Prefix.m_list
  prefix_all [] = []
  prefix_all (l ∷ ls) = atoms_of (Prefix.m_list fx l) ++ prefix_all ls

  -- The pieces of a stream to sppp.
  unfoldable pub parse_all :
      (lib : SpppLib) → lib.Parser → List (List Atom) → Option (lib.Parser × List (Out Atom))
  unfolding m_list
  parse_all lib p [] = some (p, [])
  parse_all lib p (l ∷ ls) = do
    (p', first) ← m_list fx lib p l
    (p'', second) ← parse_all lib p' ls
    some (p'', first ++ second)

  -- A packet that the atoms keep whole, and a size too.
  abbrev pub IsKept : List ℕ → Type 0
  IsKept bs = (char_is_signed ≡ false) ⊎ ((all_ascii bs ≡ true) × (length bs < 128))

  -- A packet that the parser takes.
  pub record IsPacket (size : ℕ) (bs : List ℕ) : Type 0 where
    pub are_bytes : All IsByte bs
    pub some_byte : 0 < length bs
    pub fits : length bs ≤ size
    pub is_int : length bs < 2147483648
    pub kept : IsKept bs

  left_kept : (bs : List ℕ) → IsKept bs → left_of fx bs ≡ bs
  left_kept bs (inl unsigned) = rw unsigned refl
  left_kept bs (inr (ascii, short)) = ground (arith, all-ascii_only bs ascii)

  left_size :
      (bs : List ℕ) → IsKept bs → left_of fx (network_bytes (length bs)) ≡ network_bytes (length bs)
  left_size bs (inl unsigned) = rw unsigned refl
  left_size bs (inr (ascii, short)) = ground (arith, ascii_small (length bs) short)

  length-data_atoms : (bs : List ℕ) → length (data_atoms fx bs) ≡ length bs
  unfolding data_atoms
  length-data_atoms bs = length-map (λ b. fx.set_int (char_to_int char_is_signed b)) bs

  -- A packet with its prefix, as atoms, and the bytes that sppp reads of it.
  abbrev framed : List ℕ → List Atom
  framed bs = size_atoms fx (length bs) ++ data_atoms fx bs

  prefix_one : (bs : List ℕ) → atoms_of (Prefix.m_list fx (data_atoms fx bs)) ≡ framed bs
  unfolding Prefix.m_list
  prefix_one bs = rw (append-nil, length-data_atoms bs) refl

  not_lost : (bs : List ℕ) → IsKept bs → char_is_signed && not (all_ascii bs) ≡ false
  not_lost bs (inl unsigned) = rw unsigned refl
  not_lost bs (inr (ascii, short)) = ground (arith, ascii)

  kept_input :
      (laws : IsFlext fx) (size : ℕ) (bs : List ℕ)
      → IsPacket size bs
      → raw_input fx (data_atoms fx bs) ≡ some (bs ∷ [])
  kept_input laws size bs k =
      raw_input-data_atoms fx laws bs k.are_bytes
      ∙ rw (not_lost bs k.kept, pushed_some fx bs k.some_byte) refl

  module _ (laws : IsFlext fx) (lib : SpppLib) (stream : IsStream lib) (size : ℕ)
      (sppp : IsSppp lib size) where
    open stream use {feed-nil, feed-append}
    open sppp use {Waiting, feed-size, feed-packet}

    read_size : (n : ℕ) → filter_map (byte? fx) (size_atoms fx n) ≡ left_of fx (network_bytes n)
    unfolding size_atoms
    read_size n = left_lem fx laws (network_bytes n) (network_bytes-IsByte n)

    read_framed :
        (bs : List ℕ)
        → IsPacket size bs
        → filter_map (byte? fx) (framed bs) ≡ network_bytes (length bs) ++ bs
    read_framed bs k =
        filter_map-append (byte? fx) (size_atoms fx (length bs)) (data_atoms fx bs)
        ∙ rw
            (
              read_size (length bs),
              left_size bs k.kept,
              left_lem fx laws bs k.are_bytes,
              left_kept bs k.kept,
            )
            refl

    record Parsed (p : lib.Parser) (atoms : List Atom) (bss : List (List ℕ)) : Type 0 where
      parser : lib.Parser
      outs : List (Out Atom)
      is_parsed : m_list fx lib p atoms ≡ some (parser, outs)
      is_taken : take_in fx outs ≡ some bss
      is_waiting : Waiting parser

    record ParsedOne (p : lib.Parser) (bs : List ℕ) : Type 0 where
      parser : lib.Parser
      is_parsed : m_list fx lib p (framed bs) ≡ some (parser, to_out_list 0 (data_atoms fx bs) ∷ [])
      is_waiting : Waiting parser

    parse_one : (p : lib.Parser) (bs : List ℕ) → Waiting p → IsPacket size bs → ParsedOne p bs
    unfolding data_out
    parse_one p bs w k =
        let is_int = k.is_int in
        let (p', fed, expecting) =
          feed-size p (length bs) (network_bytes (length bs)) w (network_bytes-IsByte (length bs))
            (four (length bs)) (from_network-network_bytes (length bs) (omega arith)) k.some_byte
            k.fits in
        let (p'', fed', waiting) = feed-packet p' bs expecting in
        record {
          parser = p'';
          is_parsed =
              m_list_lem fx lib p (framed bs) ∙ rw (read_framed bs k, feed-append, fed, fed') refl;
          is_waiting = waiting;
        }

    nothing_parsed : (p : lib.Parser) → m_list fx lib p [] ≡ some (p, [])
    unfolding data_out
    nothing_parsed p = m_list_lem fx lib p [] ∙ rw (feed-nil p) refl

    parse_packets :
        (p : lib.Parser) (bss : List (List ℕ))
        → Waiting p
        → All (IsPacket size) bss
        → Parsed p (prefix_all (map (data_atoms fx) bss)) bss
    unfolding prefix_all take_in
    parse_packets p [] w k = record {
      parser = p;
      outs = [];
      is_parsed = nothing_parsed p;
      is_taken = refl;
      is_waiting = w;
    }
    parse_packets p (bs ∷ bss) w k =
        let one = parse_one p bs w k.0 in
        let rest = parse_packets one.parser bss one.is_waiting k.1 in
        record {
          parser = rest.parser;
          outs = to_out_list 0 (data_atoms fx bs) ∷ rest.outs;
          is_parsed =
              ap (λ l. m_list fx lib p (l ++ prefix_all (map (data_atoms fx) bss))) (prefix_one bs)
              ∙ m_list-append_stream fx lib stream p (framed bs)
                  (prefix_all (map (data_atoms fx) bss))
              ∙ rw (one.is_parsed, rest.is_parsed) refl;
          is_taken = rw (kept_input laws size bs k.0, rest.is_taken) refl;
          is_waiting = rest.is_waiting;
        }

    parse_all-join :
        (p : lib.Parser) (ls : List (List Atom)) → parse_all lib p ls ≡ m_list fx lib p (join ls)
    unfolding parse_all
    parse_all-join p [] = sym (nothing_parsed p)
    parse_all-join p (l ∷ ls) =
        rw
          (
            m_list-append_stream fx lib stream p l (join ls),
            m_list_lem fx lib p l,
            parse_all-join (feed_out fx lib p (filter_map (byte? fx) l)).0 ls,
          )
          refl

    -- Any number of packets that a raw object sends out go through sizeprefix, both of whose
    -- outlets go into one stream. If the stream is cut into lists in any way, and goes
    -- through an sppp that waits into another raw object, no write is out of bounds, the
    -- library there gets exactly the packets, in order, and sppp waits again. Given packets
    -- of bytes that are not empty, fit the parser's buffer and are no longer than an `int`
    -- can say, where `char` is signed also of bytes below 128 only and fewer than 128 of
    -- them, and the documented behaviour of flext's integers and of the library's size-prefix
    -- protocol.
    pub take_in-prefix_all :
        (p : lib.Parser) (bss : List (List ℕ))
        → Waiting p
        → All (IsPacket size) bss
        → (p' : lib.Parser) × (outs : List (Out Atom)) × ((pieces : List (List Atom))
            → join pieces ≡ prefix_all (map (data_atoms fx) bss)
            → parse_all lib p pieces ≡ some (p', outs))
          × (take_in fx outs ≡ some bss)
          × Waiting p'
    take_in-prefix_all p bss w k =
        let s = parse_packets p bss w k in
        (
          s.parser,
          s.outs,
          λ pieces cut. parse_all-join p pieces ∙ rw cut s.is_parsed,
          s.is_taken,
          s.is_waiting,
        )
