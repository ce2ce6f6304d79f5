-- ===== src/Mandate/Signature.antt =====
-- The compact JWS of a mandate and the check of its signature: `split_compact`,
-- `decode_unverified` and `verify_signature` of src/mandate.rs. Base64, JSON and Ed25519 are a
-- parameter; a compact JWS is the list of its code points.
pub mod Accepts
use stateset_icp_handler.Prelude.{
  ℕ, String, Bool, not, Option, none, some, List, [], ◌∷◌, ◌++◌, length, any, filter_by,
  is_some_and, is_empty, eqb, if◌then◌else◌,
}
use stateset_icp_handler.Prelude.Keyed.{◌==◌, string_eq}
use stateset_icp_handler.Errors.{Result, ok, err, ◌>>=◌, ◌>>◌, ensure, ok_or, mandate_invalid}
use stateset_icp_handler.Mandate.Terms.{MandatePayload, JwsHeader}

pub record VerifyingKeyEntry : Type 0 where
  pub kid : Option String
  pub alg : String
  pub key : List ℕ

-- `PrincipalResolver::resolve`; `none` is a `ResolveError`.
abbrev pub PrincipalResolver : Type 0
PrincipalResolver = String → Option (List VerifyingKeyEntry)

-- The crates that read a JWS.
pub record Jws : Type 0 where
  pub decode_base64 : List ℕ → Option (List ℕ)
  pub header_from_slice : List ℕ → Option JwsHeader
  pub payload_from_slice : List ℕ → Option MandatePayload
  -- `key.verify(message, signature).is_ok()`
  pub verify : List ℕ → List ℕ → List ℕ → Bool

-- `str::split`: one piece more than there are separators.
pub split : ℕ → List ℕ → List (List ℕ)
split c [] = [] ∷ []
split c (a ∷ s) =
    let rest = split c s in
    if eqb a c then [] ∷ rest else elim rest [ [] ↦ (a ∷ []) ∷ [] | p ∷ ps ↦ (a ∷ p) ∷ ps ]

three_segments : List (List ℕ) → Result (List ℕ × List ℕ × List ℕ)
three_segments (h ∷ p ∷ s ∷ []) = ok (h, p, s)
three_segments _ = err mandate_invalid

unfoldable pub split_compact : List ℕ → Result (List ℕ × List ℕ × List ℕ)
unfolding split three_segments
split_compact compact_jws = three_segments (split b'.' compact_jws)

-- The key that the header names first, then the others.
unfoldable pub candidates : Option String → List VerifyingKeyEntry → List VerifyingKeyEntry
candidates none keys = keys
candidates (some kid) keys =
    filter_by (λ k. is_some_and k.kid (λ j. j == kid)) keys
    ++ filter_by (λ k. not (is_some_and k.kid (λ j. j == kid))) keys

module _ (jws : Jws) where
  unfoldable pub decode_unverified : List ℕ → Result MandatePayload
  decode_unverified compact_jws = do
    segments ← split_compact compact_jws
    bytes ← ok_or (jws.decode_base64 segments.1) mandate_invalid
    ok_or (jws.payload_from_slice bytes) mandate_invalid

  unfoldable pub verify_signature : List ℕ → String → PrincipalResolver → Result (Unit {0})
  verify_signature compact_jws issuer_did resolver = do
    segments ← split_compact compact_jws
    header_bytes ← ok_or (jws.decode_base64 segments.0) mandate_invalid
    header ← ok_or (jws.header_from_slice header_bytes) mandate_invalid
    ensure (not (header.alg == "none")) mandate_invalid
    ensure (header.alg == "EdDSA") mandate_invalid
    signature ← ok_or (jws.decode_base64 segments.2) mandate_invalid
    ensure (eqb (length signature) 64) mandate_invalid
    keys ← ok_or (resolver issuer_did) mandate_invalid
    ensure (not (is_empty (candidates header.kid keys))) mandate_invalid
    ensure
        (any (λ k. jws.verify k.key (segments.0 ++ b'.' ∷ segments.1) signature)
          (candidates header.kid keys))
        mandate_invalid
