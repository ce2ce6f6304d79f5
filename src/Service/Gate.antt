-- ===== src/Service/Gate.antt =====
-- `handle_intent` of src/service/mod.rs up to the intent's own handler: who may run which intent.
pub mod Admitted
use stateset_icp_handler.Prelude.{
  ℕ, String, Bool, true, false, Option, none, some, List, [], ◌∷◌, unwrap_or, if◌then◌else◌,
}
use stateset_icp_handler.Prelude.Int.{ℤ, pos}
use stateset_icp_handler.Prelude.Word.{saturating_add, saturating_mul}
use stateset_icp_handler.Prelude.Keyed.{◌==◌, string_eq}
use stateset_icp_handler.Errors.{
  Result, ok, err, ◌>>=◌, ◌>>◌, ensure, authentication_failed, mandate_invalid,
  mandate_out_of_scope,
}
use stateset_icp_handler.Chrono.{Chrono}
use stateset_icp_handler.Storage.{Attempt}
use stateset_icp_handler.Intent.{Intent, parse, scope}
use stateset_icp_handler.Mandate.Signature.{Jws, PrincipalResolver}
use stateset_icp_handler.Mandate.Ledger.{MandateLedger}
use stateset_icp_handler.Mandate.Evaluate.{MandateEvaluation, evaluate}

-- The `quantity` and the hint's `amount_minor` of an item of the parameters, where they are integers.
pub record EstimateItem : Type 0 where
  pub quantity : Option ℤ
  pub amount_minor : Option ℤ

-- The envelope and its caller; `items` is the array of that name in the parameters, if there is one.
pub record IntentInput : Type 0 where
  pub intent : List ℕ
  pub intent_id : Option String
  pub agent_id : String
  pub transaction_id : Option String
  pub mandate_jti : Option String
  pub jurisdiction : Option String
  pub currency : Option String
  pub items : Option (List EstimateItem)
  pub agent_raw : String
  pub tenant_id : String
  pub rate_limit_per_minute : Option ℕ
  pub mandate_jws : Option (List ℕ)
  pub skip_mandate_check : Bool
  pub skip_rate_limit : Bool

pub record IntentConfig : Type 0 where
  pub require_mandate : Bool
  pub verify_mandate_signatures : Bool
  pub is_production : Bool
  pub idempotency_lease_secs : ℕ

unfoldable pub estimate_items : ℤ → List EstimateItem → ℤ
estimate_items total [] = total
estimate_items total (item ∷ items) =
    estimate_items
      (saturating_add total
        (saturating_mul (unwrap_or item.quantity (pos 0)) (unwrap_or item.amount_minor (pos 1000))))
      items

unfoldable pub estimate_intent_amount_minor : IntentInput → ℤ
unfolding estimate_items
estimate_intent_amount_minor input = elim input.items [
  | none ↦ pos 0
  | some items ↦ estimate_items (pos 0) items
]

-- `ev.payload.sub` is the agent.
abbrev pub subject_checked :
    IntentInput → Option MandateEvaluation → Result (Option MandateEvaluation)
subject_checked input none = ok none
subject_checked input (some ev) =
    ensure (ev.payload.sub == input.agent_raw) mandate_out_of_scope >> ok (some ev)

module _ (chrono : Chrono) (jws : Jws) (config : IntentConfig) (resolver : PrincipalResolver) where
  abbrev pub resolver_used : Option PrincipalResolver
  resolver_used = if config.verify_mandate_signatures then some resolver else none

  -- The mandate of an intent with a scope.
  unfoldable pub scoped_mandate :
      IntentInput
      → String
      → Option (List ℕ)
      → Attempt
      → MandateLedger
      → ℤ
      → Result (Option MandateEvaluation)
  scoped_mandate input s (some compact) a ledger now = do
    ev ←
        evaluate chrono jws compact s (estimate_intent_amount_minor input) now input.tenant_id
          input.jurisdiction a ledger resolver_used
    ok (some ev)
  scoped_mandate input s none a ledger now =
      if config.require_mandate then err mandate_invalid else ok none

  unfoldable pub mandate_for :
      IntentInput
      → Option String
      → Bool
      → Attempt
      → MandateLedger
      → ℤ
      → Result (Option MandateEvaluation)
  unfolding scoped_mandate
  mandate_for input (some s) false a ledger now =
      scoped_mandate input s input.mandate_jws a ledger now
  mandate_for input (some s) true a ledger now = ok none
  mandate_for input none skip a ledger now = ok none

  unfoldable pub admit_intent :
      IntentInput → Attempt → MandateLedger → ℤ → Result (Intent × Option MandateEvaluation)
  unfolding mandate_for
  admit_intent input a ledger now = do
    ensure (input.agent_id == input.agent_raw) authentication_failed
    intent ← parse input.intent
    mandate ← mandate_for input (scope intent) input.skip_mandate_check a ledger now
    checked ← subject_checked input mandate
    ok (intent, checked)
