-- ===== src/Service/Gate/Admitted.antt =====
-- What the admission of an intent in src/service/mod.rs guarantees.
use stateset_icp_handler.Prelude.{
  ℕ, String, ◌≡◌, refl, sym, ap, ◌∙◌, subst, Bool, true, false, Option, none, some, List, arith,
}
use stateset_icp_handler.Prelude.Int.{ℤ}
use stateset_icp_handler.Prelude.Keyed.{◌==◌, string_eq}
use stateset_icp_handler.Errors.{ok, >>=-eq-ok, ensure-bind}
use stateset_icp_handler.Chrono.{Chrono}
use stateset_icp_handler.Storage.{Attempt}
use stateset_icp_handler.Intent.{Intent, parse, scope, is_state_change, state_change_has_scope}
use stateset_icp_handler.Mandate.Signature.{Jws, PrincipalResolver}
use stateset_icp_handler.Mandate.Ledger.{MandateLedger}
use stateset_icp_handler.Mandate.Evaluate.{MandateEvaluation, evaluate}
use stateset_icp_handler.Mandate.Evaluate.Sound.{IsAuthorized, evaluate-IsAuthorized}
use stateset_icp_handler.Service.Gate.{
  IntentInput, IntentConfig, estimate_intent_amount_minor, subject_checked, resolver_used,
  scoped_mandate, mandate_for, admit_intent,
}

same_some : {A : Type 0} {a b : A} → some a ≡ some b → a ≡ b
same_some e = cc

-- An intent that runs under a mandate.
pub record IsMandated (chrono : Chrono) (jws : Jws) (config : IntentConfig)
    (resolver : PrincipalResolver) (input : IntentInput) (a : Attempt) (ledger : MandateLedger)
    (now : ℤ) (intent : Intent) (mandate : Option MandateEvaluation) : Type 0 where
  pub named : input.agent_id ≡ input.agent_raw
  pub parsed : parse input.intent ≡ ok intent
  pub intent_scope : String
  pub compact : List ℕ
  pub ev : MandateEvaluation
  pub scoped : scope intent ≡ some intent_scope
  pub given : input.mandate_jws ≡ some compact
  pub kept : mandate ≡ some ev
  pub authorized :
      IsAuthorized chrono jws compact intent_scope
        (estimate_intent_amount_minor input)
        now
        input.tenant_id
        input.jurisdiction
        a
        ledger
        (resolver_used chrono jws config resolver)
        ev
  pub subject : ev.payload.sub ≡ input.agent_raw

module _ (chrono : Chrono) (jws : Jws) (config : IntentConfig) (resolver : PrincipalResolver)
    (required : config.require_mandate ≡ true) where
  scoped-evaluated :
      (input : IntentInput) (s : String) (o : Option (List ℕ)) (a : Attempt)
      (ledger : MandateLedger) (now : ℤ) (m : Option MandateEvaluation)
      → scoped_mandate chrono jws config resolver input s o a ledger now ≡ ok m
      → (compact : List ℕ) × (ev : MandateEvaluation) × (o ≡ some compact)
        × (m ≡ some ev)
        × (evaluate chrono jws compact s
              (estimate_intent_amount_minor input)
              now
              input.tenant_id
              input.jurisdiction
              a
              ledger
              (resolver_used chrono jws config resolver)
            ≡ ok ev)
  unfolding scoped_mandate
  scoped-evaluated input s none a ledger now m h = absurd (ground arith)
  scoped-evaluated input s (some compact) a ledger now m h =
      let (ev, e, h') =
        >>=-eq-ok
          (evaluate chrono jws compact s (estimate_intent_amount_minor input) now input.tenant_id
            input.jurisdiction a ledger (resolver_used chrono jws config resolver))
          _ h in
      (compact, ev, refl, cc h', e)

  for-scoped :
      (input : IntentInput) (sc : Option String) (s : String) (skip : Bool) (a : Attempt)
      (ledger : MandateLedger) (now : ℤ) (m : Option MandateEvaluation)
      → sc ≡ some s
      → skip ≡ false
      → mandate_for chrono jws config resolver input sc skip a ledger now ≡ ok m
      → scoped_mandate chrono jws config resolver input s input.mandate_jws a ledger now ≡ ok m
  unfolding mandate_for
  for-scoped input none s skip a ledger now m e f h = cc
  for-scoped input (some t) s true a ledger now m e f h = cc
  for-scoped input (some t) s false a ledger now m e f h =
      subst
        (λ x.
          scoped_mandate chrono jws config resolver input x input.mandate_jws a ledger now ≡ ok m)
        (same_some e) h

  subject-checked :
      (input : IntentInput) (ev : MandateEvaluation) (m m' : Option MandateEvaluation)
      → m ≡ some ev
      → subject_checked input m ≡ ok m'
      → (ev.payload.sub ≡ input.agent_raw) × (m' ≡ some ev)
  subject-checked input ev none m' e h = cc
  subject-checked input ev (some ev') m' e h =
      let (same, h') = ensure-bind (ev'.payload.sub == input.agent_raw) _ _ h in
      let it : ev' ≡ ev = same_some e in
      (
        ap (λ (x : MandateEvaluation). x.payload.sub) (sym it)
            ∙ (string_eq.same_iff ev'.payload.sub input.agent_raw).0 same,
        cc h' ∙ ap some it,
      )

  -- Where mandates are required and not bypassed, a state-changing intent is admitted only for the
  -- agent that its envelope names, on a mandate that `evaluate` authorizes for the scope of the intent,
  -- the estimated amount, the tenant and the jurisdiction, and whose subject is that agent.
  pub admitted_under_mandate :
      (input : IntentInput) (a : Attempt) (ledger : MandateLedger) (now : ℤ) (intent : Intent)
      (mandate : Option MandateEvaluation)
      → input.skip_mandate_check ≡ false
      → is_state_change intent ≡ true
      → admit_intent chrono jws config resolver input a ledger now ≡ ok (intent, mandate)
      → IsMandated chrono jws config resolver input a ledger now intent mandate
  unfolding admit_intent
  admitted_under_mandate input a ledger now intent mandate checks changes h =
      let (e₀, h₀) = ensure-bind (input.agent_id == input.agent_raw) _ _ h in
      let (intent', e₁, h₁) = >>=-eq-ok (parse input.intent) _ h₀ in
      let (m, e₂, h₂) =
        >>=-eq-ok
          (mandate_for chrono jws config resolver input (scope intent') input.skip_mandate_check a
            ledger now)
          _ h₁ in
      let (m', e₃, h₃) = >>=-eq-ok (subject_checked input m) _ h₂ in
      let same : intent' ≡ intent = cc h₃ in
      let (s, scoped) = state_change_has_scope intent changes in
      let at_scope =
        for-scoped input (scope intent') s input.skip_mandate_check a ledger now m
          (ap scope same ∙ scoped) checks e₂ in
      let (compact, ev, given, found, evaluated) =
        scoped-evaluated input s input.mandate_jws a ledger now m at_scope in
      let (subject, final) = subject-checked input ev m m' found e₃ in
      let last : m' ≡ mandate = cc h₃ in
      record {
        named = (string_eq.same_iff input.agent_id input.agent_raw).0 e₀;
        parsed = e₁ ∙ ap ok same;
        intent_scope = s;
        compact = compact;
        ev = ev;
        scoped = scoped;
        given = given;
        kept = sym last ∙ final;
        authorized =
            evaluate-IsAuthorized chrono jws compact s (estimate_intent_amount_minor input) now
              input.tenant_id input.jurisdiction a ledger (resolver_used chrono jws config resolver)
              ev evaluated;
        subject = subject;
      }
