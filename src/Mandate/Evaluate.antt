-- ===== src/Mandate/Evaluate.antt =====
-- `evaluate` of src/mandate.rs: a mandate against a candidate intent, in the order of the source's
-- checks. The source's one function is cut where its numbered steps are.
pub mod Authorized
pub mod Sound
use stateset_icp_handler.Prelude.{
  ℕ, String, Bool, true, false, not, ◌&&◌, ◌||◌, Option, none, some, List, [], ◌∷◌, any, is_empty,
  is_none_or, is_some_and, unwrap_or, map_some, if◌then◌else◌,
}
use stateset_icp_handler.Prelude.Int.{ℤ, pos, ◌-ℤ◌, ltb_ℤ}
use stateset_icp_handler.Prelude.Word.{saturating_sub}
use stateset_icp_handler.Prelude.Keyed.{◌==◌, string_eq}
use stateset_icp_handler.Prelude.Text.{codes}
use stateset_icp_handler.Errors.{
  Result, ok, panic, ◌>>=◌, ◌>>◌, ensure, ok_or, mandate_invalid, mandate_out_of_scope,
  mandate_budget_exceeded,
}
use stateset_icp_handler.Chrono.{Chrono}
use stateset_icp_handler.Storage.{Attempt}
use stateset_icp_handler.Mandate.Period.{parse_period}
use stateset_icp_handler.Mandate.Jurisdiction.{jurisdiction_authorizes}
use stateset_icp_handler.Mandate.Terms.{MandatePayload, MandateTerms, MandateBudget}
use stateset_icp_handler.Mandate.Ledger.{MandateUsage, MandateLedger, try_usage}
use stateset_icp_handler.Mandate.Signature.{
  Jws, PrincipalResolver, decode_unverified, verify_signature,
}

pub record MandateEvaluation : Type 0 where
  pub payload : MandatePayload
  pub compact_jws : List ℕ
  pub spend_room_minor : ℤ
  pub signature_verified : Bool

-- `HashSet::contains` and the like
abbrev pub contains : String → List String → Bool
contains s xs = any (λ x. x == s) xs

-- 1. The validity window.
unfoldable pub check_validity : Chrono → MandatePayload → ℤ → Result (Unit {0})
check_validity chrono payload now = do
  nbf ← ok_or (chrono.from_timestamp payload.nbf) mandate_invalid
  exp ← ok_or (chrono.from_timestamp payload.exp) mandate_invalid
  ensure (not (ltb_ℤ now nbf)) mandate_invalid
  ensure (not (ltb_ℤ exp now)) mandate_invalid

-- 4. An empty list of merchants allows all.
unfoldable pub merchant_allowed : List String → String → Bool
merchant_allowed merchants tenant_id =
    is_empty merchants || any (λ m. m == "*" || m == tenant_id) merchants

-- 5. An empty list of jurisdictions, or one with `*`, allows all, and an intent that declares none.
unfoldable pub jurisdiction_allowed : List String → Option String → Bool
jurisdiction_allowed jurisdictions jurisdiction =
    is_empty jurisdictions
    || contains "*" jurisdictions
    || is_some_and jurisdiction
        (λ j. any (λ allowed. jurisdiction_authorizes (codes allowed) (codes j)) jurisdictions)

-- 2, 3, 4, 5 and 6.
unfoldable pub check_terms : MandateTerms → String → String → Option String → Result (Unit {0})
check_terms icp intent_scope tenant_id jurisdiction = do
  ensure (not (icp.version == "")) mandate_invalid
  ensure (contains intent_scope icp.scope) mandate_out_of_scope
  ensure (merchant_allowed icp.merchants tenant_id) mandate_out_of_scope
  ensure (jurisdiction_allowed icp.jurisdictions jurisdiction) mandate_out_of_scope
  ensure (not (icp.policies.prohibit_subscriptions && intent_scope == "subscribe"))
      mandate_out_of_scope

-- The spend that counts: none once the window has elapsed.
unfoldable pub effective_spent : MandateUsage → ℤ → ℤ → ℤ
effective_spent usage now window =
    if is_some_and usage.window_start (λ start. ltb_ℤ window (now -ℤ start))
    then pos 0
    else usage.spent_minor

-- `Duration::days(1)`
one_day : Chrono → Result ℤ
one_day chrono = elim (chrono.try_days (pos 1)) [ none ↦ panic | some d ↦ ok d ]

unfoldable pub budget_window : Chrono → MandateBudget → Result ℤ
unfolding one_day
budget_window chrono budget = do
  period ← parse_period chrono (map_some codes budget.period)
  day ← one_day chrono
  ok (unwrap_or period day)

-- 7. The budget; the answer is what remains of it.
unfoldable pub check_budget : Chrono → Attempt → MandateLedger → MandatePayload → ℤ → ℤ → Result ℤ
check_budget chrono a ledger payload amount now = do
  ensure (is_none_or payload.icp.budget.per_transaction (λ per_txn. not (ltb_ℤ per_txn amount)))
      mandate_budget_exceeded
  usage ← try_usage chrono a ledger payload.jti
  window ← budget_window chrono payload.icp.budget
  let remaining = saturating_sub payload.icp.budget.amount_minor (effective_spent usage now window)
  ensure (not (ltb_ℤ remaining amount)) mandate_budget_exceeded
  ok remaining

-- 8. The signature, if the caller gives a resolver.
unfoldable pub check_signature : Jws → List ℕ → String → Option PrincipalResolver → Result Bool
check_signature jws compact_jws iss none = ok false
check_signature jws compact_jws iss (some r) = do verify_signature jws compact_jws iss r; ok true

module _ (chrono : Chrono) (jws : Jws) where
  unfoldable pub evaluate :
      List ℕ
      → String
      → ℤ
      → ℤ
      → String
      → Option String
      → Attempt
      → MandateLedger
      → Option PrincipalResolver
      → Result MandateEvaluation
  evaluate compact_jws intent_scope amount now tenant_id jurisdiction a ledger resolver = do
    payload ← decode_unverified jws compact_jws
    check_validity chrono payload now
    check_terms payload.icp intent_scope tenant_id jurisdiction
    remaining ← check_budget chrono a ledger payload amount now
    signature_verified ← check_signature jws compact_jws payload.iss resolver
    ok (record {
      payload = payload;
      compact_jws = compact_jws;
      spend_room_minor = remaining;
      signature_verified = signature_verified;
    })
