-- ===== src/Mandate/Evaluate/Sound.antt =====
-- `evaluate` of src/mandate.rs as a whole: what it authorizes, and mandates on which it panics.
use stateset_icp_handler.Prelude.{
  ℕ, String, ◌≡◌, Bool, true, false, Option, none, some, List, ◌∷◌, ◌++◌, [], map_some,
}
use stateset_icp_handler.Prelude.Int.{ℤ}
use stateset_icp_handler.Prelude.Text.{codes}
use stateset_icp_handler.Errors.{ok, panic, >>=-eq-ok}
use stateset_icp_handler.Chrono.{Chrono}
use stateset_icp_handler.Storage.{Attempt}
use stateset_icp_handler.Mandate.Period.{parse_period, parse_i64}
use stateset_icp_handler.Mandate.Period.Forms.{period_forms}
use stateset_icp_handler.Mandate.Terms.{MandatePayload}
use stateset_icp_handler.Mandate.Ledger.{MandateUsage, MandateLedger, try_usage}
use stateset_icp_handler.Mandate.Signature.{
  Jws, PrincipalResolver, decode_unverified, verify_signature,
}
use stateset_icp_handler.Mandate.Signature.Accepts.{IsSigned, verify_signature_iff}
use stateset_icp_handler.Mandate.Evaluate.{
  MandateEvaluation, check_validity, check_terms, budget_window, check_budget, check_signature,
  evaluate,
}
use stateset_icp_handler.Mandate.Evaluate.Authorized.{
  InTime, TermsAllow, BudgetAllows, check_validity-InTime, check_terms-TermsAllow,
  check_budget-BudgetAllows,
}

-- With a resolver the issuer signed; without one the signature is marked as not verified.
abbrev pub SignatureHolds : Jws → List ℕ → String → Option PrincipalResolver → Bool → Type 0
SignatureHolds jws compact_jws iss none verified = verified ≡ false
SignatureHolds jws compact_jws iss (some r) verified =
    (verified ≡ true) × IsSigned jws compact_jws iss r

pub record IsAuthorized (chrono : Chrono) (jws : Jws) (compact_jws : List ℕ) (intent_scope : String)
    (amount now : ℤ) (tenant_id : String) (jurisdiction : Option String) (a : Attempt)
    (ledger : MandateLedger) (resolver : Option PrincipalResolver) (ev : MandateEvaluation)
    : Type 0 where
  pub decoded : decode_unverified jws compact_jws ≡ ok ev.payload
  pub in_time : InTime chrono ev.payload now
  pub terms : TermsAllow ev.payload.icp intent_scope tenant_id jurisdiction
  pub budget : BudgetAllows chrono a ledger ev.payload amount now ev.spend_room_minor
  pub signature : SignatureHolds jws compact_jws ev.payload.iss resolver ev.signature_verified

check_signature-Holds :
    (jws : Jws) (compact_jws : List ℕ) (iss : String) (resolver : Option PrincipalResolver)
    (verified : Bool)
    → check_signature jws compact_jws iss resolver ≡ ok verified
    → SignatureHolds jws compact_jws iss resolver verified
unfolding check_signature
check_signature-Holds jws compact_jws iss none verified h = cc
check_signature-Holds jws compact_jws iss (some r) verified h =
    let (u, e, h') = >>=-eq-ok (verify_signature jws compact_jws iss r) _ h in
    (cc, (verify_signature_iff jws compact_jws iss r).0 e)

-- A mandate that `evaluate` accepts decodes, is in its validity window, names the scope, the
-- merchant and the jurisdiction of the intent (or leaves them open), does not prohibit the
-- subscription, covers the amount by its per-transaction cap and by what the ledger leaves of its
-- budget, and, where a resolver is given, is signed by its issuer.
pub evaluate-IsAuthorized :
    (chrono : Chrono) (jws : Jws) (compact_jws : List ℕ) (intent_scope : String) (amount now : ℤ)
    (tenant_id : String) (jurisdiction : Option String) (a : Attempt) (ledger : MandateLedger)
    (resolver : Option PrincipalResolver) (ev : MandateEvaluation)
    → evaluate chrono jws compact_jws intent_scope amount now tenant_id jurisdiction a ledger
        resolver
      ≡ ok ev
    → IsAuthorized chrono jws compact_jws intent_scope amount now tenant_id jurisdiction a ledger
        resolver ev
unfolding evaluate
evaluate-IsAuthorized chrono jws compact_jws intent_scope amount now tenant_id jurisdiction a ledger
      resolver ev h =
    let (payload, e₀, h₀) = >>=-eq-ok (decode_unverified jws compact_jws) _ h in
    let (u₁, e₁, h₁) = >>=-eq-ok (check_validity chrono payload now) _ h₀ in
    let (u₂, e₂, h₂) =
      >>=-eq-ok (check_terms payload.icp intent_scope tenant_id jurisdiction) _ h₁ in
    let (room, e₃, h₃) = >>=-eq-ok (check_budget chrono a ledger payload amount now) _ h₂ in
    let (verified, e₄, h₄) =
      >>=-eq-ok (check_signature jws compact_jws payload.iss resolver) _ h₃ in
    let same_payload : payload ≡ ev.payload = cc h₄ in
    let same_room : room ≡ ev.spend_room_minor = cc h₄ in
    let same_verified : verified ≡ ev.signature_verified = cc h₄ in
    record {
      decoded = rw (← same_payload) e₀;
      in_time = rw (← same_payload) (check_validity-InTime chrono payload now e₁);
      terms =
          rw (← same_payload)
            (check_terms-TermsAllow payload.icp intent_scope tenant_id jurisdiction e₂);
      budget =
          rw (← same_payload, ← same_room)
            (check_budget-BudgetAllows chrono a ledger payload amount now room e₃);
      signature =
          rw (← same_payload, ← same_verified)
            (check_signature-Holds jws compact_jws payload.iss resolver verified e₄);
    }

-- A mandate that decodes, is in time, has matching terms, no per-transaction cap, a ledger that
-- answers, and a period `P<n>D` with more days than a duration holds, makes `evaluate` panic,
-- whatever the resolver: the signature is looked at only after the period.
pub evaluate_panics :
    (chrono : Chrono) (jws : Jws) (compact_jws : List ℕ) (intent_scope : String) (amount now : ℤ)
    (tenant_id : String) (jurisdiction : Option String) (a : Attempt) (ledger : MandateLedger)
    (payload : MandatePayload) (usage : MandateUsage) (period : String) (n : List ℕ) (v : ℤ)
    → decode_unverified jws compact_jws ≡ ok payload
    → check_validity chrono payload now ≡ ok tt
    → check_terms payload.icp intent_scope tenant_id jurisdiction ≡ ok tt
    → payload.icp.budget.per_transaction ≡ none
    → try_usage chrono a ledger payload.jti ≡ ok usage
    → payload.icp.budget.period ≡ some period
    → codes period ≡ b'P' ∷ (n ++ b'D' ∷ [])
    → parse_i64 n ≡ some v
    → chrono.try_days v ≡ none
    → (resolver : Option PrincipalResolver)
    → evaluate chrono jws compact_jws intent_scope amount now tenant_id jurisdiction a ledger
        resolver
      ≡ panic
unfolding evaluate check_budget budget_window
evaluate_panics chrono jws compact_jws intent_scope amount now tenant_id jurisdiction a ledger
      payload usage period n v decodes valid terms uncapped reads has_period shape number long
      resolver =
    rw decodes (rw valid (rw terms (rw uncapped (rw reads (rw window)))))
  where
    forms : parse_period chrono (some (codes period)) ≡ panic
    forms = rw shape (rw (period_forms chrono n v number).1 (rw long))

    window : parse_period chrono (map_some codes payload.icp.budget.period) ≡ panic
    window = rw has_period forms
