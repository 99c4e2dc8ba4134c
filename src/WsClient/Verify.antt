-- ===== src/WsClient/Verify.antt =====
-- websocketClient.cpp: the check of the server's certificate, where it is compiled in
-- (RCP_VERIFY_SSL). What OpenSSL reads from the certificate is an argument; a string of it is a list of
-- bytes, which may hold a NUL.
use rcp_flext.Prelude.{
  ℕ, ◌+◌, ◌≡◌, refl, Bool, true, false, ◌&&◌, ◌||◌, not, Text, List, [], ◌∷◌, ◌++◌, Option, none,
  some, ◌==◌, leb, if◌then◌else◌, arith, ◌⊎◌,
}

-- A GENERAL_NAME: a DNS name, or one of another type.
pub data GeneralName : Type 0 where
  dns : Text → GeneralName
  other_name : GeneralName

-- A certificate: its subject alternative names, if it has the extension, and its common name, `none`
-- where the name, its entry or its string is missing.
pub record Cert : Type 0 where
  pub san : Option (List GeneralName)
  pub common_name : Option Text

-- ASN1_STRING_length(s) != strlen(s)
abbrev pub has_nul : Text → Bool
has_nul [] = false
has_nul (c ∷ s) = (c == 0) || has_nul s

-- The lower case of an ASCII letter.
abbrev pub lower : ℕ → ℕ
lower c = if leb 65 c && leb c 90 then c + 32 else c

-- strcasecmp(a, b) == 0, for strings without a NUL
unfoldable pub same_name : Text → Text → Bool
same_name [] [] = true
same_name (a ∷ s) (b ∷ t) = (lower a == lower b) && same_name s t
same_name _ _ = false

-- The loop over the names, which goes on behind a match, and stops at a name with a NUL.
unfoldable pub san_loop : Text → List GeneralName → Bool → Bool
unfolding same_name
san_loop host [] result = result
san_loop host (other_name ∷ names) result = san_loop host names result
san_loop host (dns name ∷ names) result = elim (has_nul name) [
  | true ↦ result
  | false ↦ san_loop host names (same_name host name)
]

unfoldable pub verify_subject_alternative_name : Text → Cert → Bool
unfolding san_loop
verify_subject_alternative_name host cert = elim cert.san [
  | none ↦ false
  | some names ↦ san_loop host names false
]

unfoldable pub verify_common_name : Text → Cert → Bool
unfolding same_name
verify_common_name host cert = elim cert.common_name [
  | none ↦ false
  | some name ↦ if has_nul name then false else same_name host name
]

unfoldable pub verify_certificate : Text → Bool → ℕ → Cert → Bool
unfolding verify_subject_alternative_name verify_common_name
verify_certificate host preverified depth cert =
    if (depth == 0) && preverified
    then (if verify_subject_alternative_name host cert then true else verify_common_name host cert)
    else preverified

-- Whether some DNS name without a NUL is the host's.
abbrev pub names_host : Text → List GeneralName → Bool
names_host host [] = false
names_host host (other_name ∷ names) = names_host host names
names_host host (dns name ∷ names) =
    (not (has_nul name) && same_name host name) || names_host host names

abbrev pub or_nothing : {A : Type 0} → Option (List A) → List A
or_nothing none = []
or_nothing (some l) = l

abbrev pub is_common : Text → Option Text → Bool
is_common host none = false
is_common host (some name) = not (has_nul name) && same_name host name

san_loop_sound :
    (host : Text) (names : List GeneralName) (result : Bool)
    → san_loop host names result ≡ true
    → result || names_host host names ≡ true
unfolding san_loop
san_loop_sound host [] result h = ground arith
san_loop_sound host (other_name ∷ names) result h = san_loop_sound host names result h
san_loop_sound host (dns name ∷ names) result h =
    ground (arith, san_loop_sound host names (same_name host name))

-- A certificate is accepted only if it was verified before, and, where it is the server's own, if
-- some DNS name or the common name, without a NUL, is the host's up to the case of letters.
pub verify_certificate_sound :
    (host : Text) (preverified : Bool) (depth : ℕ) (cert : Cert)
    → verify_certificate host preverified depth cert ≡ true
    → (preverified ≡ true)
      × ((depth == 0 ≡ false)
          ⊎ (names_host host (or_nothing cert.san) || is_common host cert.common_name ≡ true))
unfolding verify_certificate verify_subject_alternative_name verify_common_name
verify_certificate_sound host preverified depth cert h =
    ground (arith, san_loop_sound host (or_nothing cert.san) false)

abbrev pub no_nuls : List GeneralName → Bool
no_nuls [] = true
no_nuls (other_name ∷ names) = no_nuls names
no_nuls (dns name ∷ names) = not (has_nul name) && no_nuls names

san_loop_last :
    (host name : Text) (names : List GeneralName) (result : Bool)
    → no_nuls names ≡ true
    → has_nul name ≡ false
    → san_loop host (names ++ dns name ∷ []) result ≡ same_name host name
unfolding san_loop
san_loop_last host name [] result h n = rw (san_loop, n)
san_loop_last host name (other_name ∷ names) result h n = san_loop_last host name names result h n
san_loop_last host name (dns first ∷ names) result h n =
    ground (arith, san_loop_last host name names (same_name host first))

if_same : (b : Bool) → (if b then true else false) ≡ b
if_same true = refl
if_same false = refl

-- Of a verified certificate of the server with DNS names that have no NUL, and no common name,
-- the last DNS name alone decides: it is accepted exactly if that name is the host's.
pub verify_certificate_last :
    (host name : Text) (names : List GeneralName)
    → no_nuls names ≡ true
    → has_nul name ≡ false
    → verify_certificate host true 0
        (record { san = some (names ++ dns name ∷ []); common_name = none })
      ≡ same_name host name
unfolding verify_certificate verify_subject_alternative_name verify_common_name
verify_certificate_last host name names h n =
    rw (san_loop_last host name names false h n) (if_same (same_name host name))
