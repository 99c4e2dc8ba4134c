-- ===== src/Tests/Samples.antt =====
-- A concrete protocol and packet codecs, on which the definitions run.
use rcp_flext.Prelude.{
  ℕ, zero, suc, ◌/◌, ◌%◌, ◌<◌, ◌≡◌, refl, subst, Bool, true, false, ℤ, pos, wrap, Text, List, [],
  ◌∷◌, ◌++◌, map, map-append, append-nil, sym, append_assoc, ap, Option, none, some, if◌then◌else◌,
  length, length-append, All, arith, ◌==◌, negsuc, ◌+◌,
}
use rcp_flext.Flext.{Flext, plain}
use rcp_flext.Rcp.{Protocol, IsProtocol}
use rcp_flext.Bytes.{IsByte}
use rcp_flext.Slip.Codec.{SlipLib, IsSlip, feed}
use rcp_flext.Sppp.Parser.{SpppLib}
use rcp_flext.Sppp.Stream.{IsStream}

-- Pd on a platform where `char` is signed.
abbrev pub fx : Flext
fx = plain true

abbrev store16 : ℤ → ℕ × ℕ
store16 i = (wrap 65536 i / 256, wrap 65536 i % 256)

abbrev store32 : ℤ → ℕ × ℕ × ℕ × ℕ
store32 i = let n = wrap 4294967296 i in (n / 16777216, n / 65536 % 256, n / 256 % 256, n % 256)

-- A label option with a language, a length and the text; a label that starts with NUL is not written.
abbrev label_option : Text → Option (List ℕ)
label_option [] = none
label_option (zero ∷ t) = none
label_option (c ∷ t) = some (97 ∷ 108 ∷ [])

abbrev pub rcp : Protocol
rcp = record {
  command_update = 4;
  command_updatevalue = 6;
  packet_options_data = 18;
  parameter_options_value = 32;
  terminator = 0;
  datatype = λ t. 21;
  store16 = store16;
  store32 = store32;
  label_option = label_option;
}

wrap-lt : (m : ℕ) (i : ℤ) → 0 < m → wrap m i < m
wrap-lt m (pos n) h = omega arith
wrap-lt m (negsuc n) h = omega arith

label_option-IsByte :
    (t : Text) (bs : List ℕ) → label_option t ≡ some bs → (0 < length bs) × All IsByte bs
label_option-IsByte [] bs e = cc
label_option-IsByte (zero ∷ t) bs e = cc
label_option-IsByte (suc n ∷ t) bs e =
    subst (λ o. elim o [ none ↦ Unit | some l ↦ (0 < length l) × All IsByte l ]) e
      (omega arith, (omega arith, (omega arith, tt)))

pub rcp-IsProtocol : IsProtocol rcp
rcp-IsProtocol = record {
  command_update-IsByte = omega arith;
  command_updatevalue-IsByte = omega arith;
  packet_options_data-IsByte = omega arith;
  parameter_options_value-IsByte = omega arith;
  terminator-IsByte = omega arith;
  datatype-IsByte = λ t. omega arith;
  store16-IsByte = λ i. let h = wrap-lt 65536 i (omega arith) in (omega arith, omega arith);
  store16_lem = λ i. omega arith;
  store32-IsByte = λ i.
      let h = wrap-lt 4294967296 i (omega arith) in
      (omega arith, omega arith, omega arith, omega arith);
  store32_lem = λ i. omega arith;
  label_option-IsByte = label_option-IsByte;
}

-- A frame has a 1 in front of each byte, and ends with a 0.
pub record SlipDecoder : Type 0 where
  pub buffer : List ℕ
  pub is_escaped : Bool

-- An empty packet is ignored.
abbrev delivered : List ℕ → Option (List ℕ)
delivered [] = none
delivered (b ∷ bs) = some (b ∷ bs)

abbrev slip_append : SlipDecoder → ℕ → SlipDecoder × Option (List ℕ)
slip_append d b =
    if d.is_escaped
    then (record { buffer = d.buffer ++ b ∷ []; is_escaped = false }, none)
    else (if b == 0
        then (record { buffer = []; is_escaped = false }, delivered d.buffer)
        else (record d { is_escaped = true }, none))

abbrev encode : List ℕ → List ℕ
encode [] = 0 ∷ []
encode (b ∷ bs) = 1 ∷ b ∷ encode bs

abbrev pub slip : SlipLib
slip = record {
  Decoder = SlipDecoder;
  create = λ n. some (record { buffer = []; is_escaped = false });
  append = slip_append;
  encode = encode;
}

abbrev pub waiting : SlipDecoder
waiting = record { buffer = []; is_escaped = false }

pub encode-IsByte : (bs : List ℕ) → All IsByte bs → All IsByte (encode bs)
encode-IsByte [] h = (omega arith, tt)
encode-IsByte (b ∷ bs) h = (omega arith, (h.0, encode-IsByte bs h.1))

pub feed-frame :
    (done bs : List ℕ)
    → 0 < length done + length bs
    → feed slip (record { buffer = done; is_escaped = false }) (encode bs)
      ≡ (waiting, (done ++ bs) ∷ [])
unfolding feed
feed-frame [] [] h = absurd (omega arith)
feed-frame (c ∷ done) [] h = ap (λ l. (waiting, l ∷ [])) (sym (append-nil (c ∷ done)))
feed-frame done (b ∷ bs) h =
    rw (feed-frame (done ++ b ∷ []) bs (omega (arith, length-append done (b ∷ []))), append_assoc)

unfoldable pub slip-IsSlip : (size : ℕ) → IsSlip slip size
slip-IsSlip size = record {
  Waiting = λ d. d ≡ waiting;
  create-Waiting = λ d e. cc;
  encode_bytes = encode-IsByte;
  feed-encode = λ d bs w h some_byte fits. (waiting, rw w (feed-frame [] bs (omega arith)), refl);
}

-- Each byte is a packet.
abbrev pub sppp : SpppLib
sppp = record {
  Parser = ℕ;
  create = λ n. n;
  feed = λ p bs. (p, map (λ b. b ∷ []) bs);
  reset = λ p. p;
}

pub sppp-IsStream : IsStream sppp
sppp-IsStream = record { feed-nil = λ p. refl; feed-append = λ p xs ys. rw map-append }
