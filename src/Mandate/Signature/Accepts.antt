-- ===== src/Mandate/Signature/Accepts.antt =====
-- What `verify_signature` of src/mandate.rs accepts.
use stateset_icp_handler.Prelude.{
  ℕ, String, ◌≡◌, ◌↔◌, ◌⊎◌, inl, inr, refl, ◌∙◌, Bool, true, false, not, ◌||◌, Option, none, some,
  List, [], ◌∷◌, ◌++◌, length, any, filter_by, is_some_and, is_empty, eqb, arith, eq_iff, eqb_iff,
}
use stateset_icp_handler.Prelude.Keyed.{◌==◌, string_eq}
use stateset_icp_handler.Errors.{ok, >>=-eq-ok, ok_or-bind, ensure-bind, ensure-eq-ok}
use stateset_icp_handler.Mandate.Terms.{JwsHeader}
use stateset_icp_handler.Mandate.Signature.{
  Jws, VerifyingKeyEntry, PrincipalResolver, split_compact, candidates, verify_signature,
}

any-append :
    (p : VerifyingKeyEntry → Bool) (xs ys : List VerifyingKeyEntry)
    → any p (xs ++ ys) ≡ (any p xs || any p ys)
any-append p [] ys = refl
any-append p (x ∷ xs) ys = ground (arith, any-append p xs ys)

any-partition :
    (p q : VerifyingKeyEntry → Bool) (xs : List VerifyingKeyEntry)
    → (any p (filter_by q xs) || any p (filter_by (λ k. not (q k)) xs)) ≡ any p xs
any-partition p q [] = refl
any-partition p q (x ∷ xs) = ground (arith, any-partition p q xs)

-- Which key is tried first does not matter for the answer.
any-candidates :
    (p : VerifyingKeyEntry → Bool) (kid : Option String) (keys : List VerifyingKeyEntry)
    → any p (candidates kid keys) ≡ any p keys
unfolding candidates
any-candidates p none keys = refl
any-candidates p (some kid) keys =
    any-append p (filter_by (λ k. is_some_and k.kid (λ j. j == kid)) keys) _
    ∙ any-partition p (λ k. is_some_and k.kid (λ j. j == kid)) keys

-- An element passes the test.
abbrev pub Some : (VerifyingKeyEntry → Bool) → List VerifyingKeyEntry → Type 0
Some p [] = ⊥
Some p (x ∷ xs) = (p x ≡ true) ⊎ Some p xs

any-Some :
    (p : VerifyingKeyEntry → Bool) (xs : List VerifyingKeyEntry) → any p xs ≡ true → Some p xs
any-Some p [] h = cc
any-Some p (x ∷ xs) h = ground (arith, any-Some p xs)

Some-any :
    (p : VerifyingKeyEntry → Bool) (xs : List VerifyingKeyEntry) → Some p xs → any p xs ≡ true
Some-any p [] h = absurd h
Some-any p (x ∷ xs) (inl h) = ground arith
Some-any p (x ∷ xs) (inr h) = ground (arith, Some-any p xs h)

not-is_empty :
    (p : VerifyingKeyEntry → Bool) (xs : List VerifyingKeyEntry)
    → any p xs ≡ true
    → is_empty xs ≡ false
not-is_empty p [] h = cc
not-is_empty p (x ∷ xs) h = refl

-- A JWS of three segments whose header says `EdDSA`, with a signature of 64 bytes over the first
-- two segments that one of the issuer's keys verifies.
pub record IsSigned (jws : Jws) (compact_jws : List ℕ) (issuer_did : String)
    (resolver : PrincipalResolver) : Type 0 where
  pub header_b64 : List ℕ
  pub payload_b64 : List ℕ
  pub signature_b64 : List ℕ
  pub header_bytes : List ℕ
  pub header : JwsHeader
  pub signature : List ℕ
  pub keys : List VerifyingKeyEntry
  pub segments : split_compact compact_jws ≡ ok (header_b64, payload_b64, signature_b64)
  pub header_decodes : jws.decode_base64 header_b64 ≡ some header_bytes
  pub header_reads : jws.header_from_slice header_bytes ≡ some header
  pub alg : header.alg ≡ "EdDSA"
  pub signature_decodes : jws.decode_base64 signature_b64 ≡ some signature
  pub signature_length : length signature ≡ 64
  pub resolves : resolver issuer_did ≡ some keys
  pub verifies : Some (λ k. jws.verify k.key (header_b64 ++ b'.' ∷ payload_b64) signature) keys

module _ (jws : Jws) (compact_jws : List ℕ) (issuer_did : String)
    (resolver : PrincipalResolver) where
  verify_signature-IsSigned :
      verify_signature jws compact_jws issuer_did resolver ≡ ok tt
      → IsSigned jws compact_jws issuer_did resolver
  unfolding verify_signature
  verify_signature-IsSigned h =
      let (segs, e₀, h₀) = >>=-eq-ok (split_compact compact_jws) _ h in
      let (bytes, e₁, h₁) = ok_or-bind (jws.decode_base64 segs.0) _ _ h₀ in
      let (header, e₂, h₂) = ok_or-bind (jws.header_from_slice bytes) _ _ h₁ in
      let (e₃, h₃) = ensure-bind (not (header.alg == "none")) _ _ h₂ in
      let (e₄, h₄) = ensure-bind (header.alg == "EdDSA") _ _ h₃ in
      let (sig, e₅, h₅) = ok_or-bind (jws.decode_base64 segs.2) _ _ h₄ in
      let (e₆, h₆) = ensure-bind (eqb (length sig) 64) _ _ h₅ in
      let (keys, e₇, h₇) = ok_or-bind (resolver issuer_did) _ _ h₆ in
      let (e₈, h₈) = ensure-bind (not (is_empty (candidates header.kid keys))) _ _ h₇ in
      let e₉ = ensure-eq-ok _ _ tt h₈ in
      record {
        header_b64 = segs.0;
        payload_b64 = segs.1;
        signature_b64 = segs.2;
        header_bytes = bytes;
        header = header;
        signature = sig;
        keys = keys;
        segments = e₀;
        header_decodes = e₁;
        header_reads = e₂;
        alg = (eq_iff header.alg "EdDSA").0 e₄;
        signature_decodes = e₅;
        signature_length = (eqb_iff (length sig) 64).0 e₆;
        resolves = e₇;
        verifies = any-Some _ keys (rw (any-candidates _ header.kid keys) at e₉);
      }

  IsSigned-verify_signature :
      IsSigned jws compact_jws issuer_did resolver
      → verify_signature jws compact_jws issuer_did resolver ≡ ok tt
  unfolding verify_signature
  IsSigned-verify_signature s =
      rw (s.segments, verify_signature)
        (rw s.header_decodes (
          rw s.header_reads (
            rw not_none (
              rw eddsa (
                rw s.signature_decodes (
                  rw ((eqb_iff (length s.signature) 64).1 s.signature_length)
                    (rw s.resolves (rw (not-is_empty _ _ tried) (rw tried)))))))))
    where
      eddsa : (s.header.alg == "EdDSA") ≡ true
      eddsa = (eq_iff s.header.alg "EdDSA").1 s.alg

      not_none : (s.header.alg == "none") ≡ false
      not_none = rw s.alg

      tried :
          any
            (λ k. jws.verify k.key (s.header_b64 ++ b'.' ∷ s.payload_b64) s.signature)
            (candidates s.header.kid s.keys)
          ≡ true
      tried = rw (any-candidates _ s.header.kid s.keys) (Some-any _ s.keys s.verifies)

-- A signature is accepted exactly when the mandate is signed by one of the issuer's keys: `none`
-- and every algorithm but `EdDSA` are refused, and the header's `kid` only sets the order in which
-- the keys are tried.
pub verify_signature_iff :
    (jws : Jws) (compact_jws : List ℕ) (issuer_did : String) (resolver : PrincipalResolver)
    → (verify_signature jws compact_jws issuer_did resolver ≡ ok tt)
      ↔ IsSigned jws compact_jws issuer_did resolver
verify_signature_iff jws compact_jws issuer_did resolver = (
  verify_signature-IsSigned jws compact_jws issuer_did resolver,
  IsSigned-verify_signature jws compact_jws issuer_did resolver,
)
