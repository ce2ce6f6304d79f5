-- ===== src/Service/Subscribe/Stopped.antt =====
-- Subscriptions that are canceled, over the handlers of src/service/subscriptions.rs.
use stateset_icp_handler.Prelude.{
  ℕ, String, ◌≡◌, ap, sym, ◌∙◌, Bool, false, not, Option, some, arith, Bool-cases, inl, inr,
}
use stateset_icp_handler.Prelude.Int.{ℤ}
use stateset_icp_handler.Prelude.Keyed.{◌==◌, string_eq}
use stateset_icp_handler.Errors.{ok, ok_or-bind, ensure, ensure-eq-ok, precondition_failed}
use stateset_icp_handler.Chrono.{Chrono}
use stateset_icp_handler.Storage.{Attempt}
use stateset_icp_handler.Models.Transactions.{Transaction}
use stateset_icp_handler.Models.Subscriptions.{Subscription, canceled, is_terminal, same_status}
use stateset_icp_handler.Mandate.Evaluate.{MandateEvaluation}
use stateset_icp_handler.StateStore.{Serde, JsonStore, memory, sqlite, get}
use stateset_icp_handler.StateStore.Refines.{view}
use stateset_icp_handler.Service.Payment.{validate_payment_instrument}
use stateset_icp_handler.Service.Purchase.{Config, Engine}
use stateset_icp_handler.Service.Purchase.Once.{IsRefused, check-IsRefused}
use stateset_icp_handler.Service.Renewals.{Months}
use stateset_icp_handler.Service.Gate.{IntentInput}
use stateset_icp_handler.Service.Subscribe.{
  RenewParams, Plans, BillingRun, billed_by, is_renewable, subscription_for_input,
}
use stateset_icp_handler.Service.Subscribe.Handlers.{do_renew, do_pause, do_cancel_subscription}

billed_by-same :
    (tenant_id : String) (t sub : Subscription) → billed_by tenant_id t ≡ ok sub → t ≡ sub
billed_by-same tenant_id t sub h = elim (Bool-cases (t.tenant_id == tenant_id)) [
  | inl e ↦ ground arith
  | inr e ↦ absurd (ground arith)
]

module _ (transactions : Serde Transaction) (subscriptions : Serde Subscription) (chrono : Chrono)
    (s : Plans) (id : String) (sub : Subscription)
    (there : view subscriptions s.subscriptions id ≡ some sub) where
  get-same :
      (a : Attempt) (store : JsonStore Subscription) (found : Subscription)
      → view subscriptions store id ≡ some sub
      → get subscriptions a store id ≡ some found
      → found ≡ sub
  unfolding get
  get-same a (memory m) found e h = ground arith
  get-same a (sqlite t) found e h = ground arith

  -- A look-up that succeeds gives the subscription that is there.
  pub found_same :
      (a : Attempt) (tenant_id : String) (found : Subscription)
      → (subscription_for_input transactions subscriptions chrono a id tenant_id s).0 ≡ ok found
      → found ≡ sub
  unfolding subscription_for_input
  found_same a tenant_id found h =
      let (t, read, owned) =
        ok_or-bind (get subscriptions a s.subscriptions id) _ (billed_by tenant_id) h in
      sym (billed_by-same tenant_id t found owned) ∙ get-same a s.subscriptions t there read

  -- A handler that goes on only for some subscriptions is refused where that is not one.
  guarded-IsRefused :
      (test : Subscription → Bool) (run : BillingRun) (tenant_id : String)
      → test sub ≡ false
      → (found : Subscription)
      → (subscription_for_input transactions subscriptions chrono run.found id tenant_id s).0
        ≡ ok found
      → (u : Unit {0}) → ensure (test found) precondition_failed ≡ ok u
      → ⊥
  guarded-IsRefused test run tenant_id off found e u e' =
      let yes = ensure-eq-ok (test found) precondition_failed u e' in
      let same = ap test (found_same run.found tenant_id found e) in cc

  pause-IsRefused :
      (run : BillingRun) (input : IntentInput)
      → sub.status ≡ canceled
      → IsRefused (do_pause transactions subscriptions chrono run input id s) s
  unfolding do_pause subscription_for_input is_terminal
  pause-IsRefused run input ended =
      check-IsRefused
        (subscription_for_input transactions subscriptions chrono run.found id input.tenant_id s).0
        s _
        (λ found e.
          check-IsRefused (ensure (not (is_terminal found.status)) precondition_failed) s _ (λ u e'.
            absurd (
              guarded-IsRefused (λ x. not (is_terminal x.status)) run input.tenant_id
                (ap (λ x. not (is_terminal x)) ended) found e u e')))

  cancel-IsRefused :
      (run : BillingRun) (input : IntentInput)
      → sub.status ≡ canceled
      → IsRefused (do_cancel_subscription transactions subscriptions chrono run input id s) s
  unfolding do_cancel_subscription subscription_for_input
  cancel-IsRefused run input ended =
      check-IsRefused
        (subscription_for_input transactions subscriptions chrono run.found id input.tenant_id s).0
        s _
        (λ found e.
          check-IsRefused (ensure (not (same_status found.status canceled)) precondition_failed) s _
            (λ u e'. absurd (
              guarded-IsRefused (λ x. not (same_status x.status canceled)) run input.tenant_id
                (ap (λ x. not (same_status x canceled)) ended) found e u e')))

module _ (transactions : Serde Transaction) (subscriptions : Serde Subscription) (chrono : Chrono)
    (add_months : Months) (add_signed : ℤ → ℤ → Option ℤ) (line_id : ℕ → String) (config : Config)
    (engine : Option Engine) (mandate : Option MandateEvaluation) (run : BillingRun)
    (input : IntentInput) (params : RenewParams) (s : Plans) (sub : Subscription)
    (there : view subscriptions s.subscriptions params.subscription_id ≡ some sub) where
  renew-IsRefused :
      is_renewable sub.status ≡ false
      → IsRefused
          (do_renew transactions subscriptions chrono add_months add_signed line_id config engine
            mandate run input params s)
          s
  unfolding do_renew subscription_for_input
  renew-IsRefused stopped =
      check-IsRefused (validate_payment_instrument params.payment config.payment_execution_mode) s _
        (λ u e.
          check-IsRefused
            (subscription_for_input transactions subscriptions chrono run.found
              params.subscription_id input.tenant_id s).0
            s _
            (λ found e₁.
              check-IsRefused (ensure (is_renewable found.status) precondition_failed) s _ (λ u₂ e₂.
                absurd (
                  guarded-IsRefused transactions subscriptions chrono s params.subscription_id sub
                    there (λ x. is_renewable x.status) run input.tenant_id stopped found e₁ u₂
                    e₂))))

  -- A canceled subscription stays as it is: every renewal, pause and cancellation of it fails and
  -- changes nothing, neither the mandates' ledger nor the stores, whoever asks and whichever accesses
  -- fail.
  pub canceled_is_final :
      sub.status ≡ canceled
      → IsRefused
          (do_renew transactions subscriptions chrono add_months add_signed line_id config engine
            mandate run input params s)
          s
        × IsRefused
            (do_pause transactions subscriptions chrono run input params.subscription_id s)
            s
        × IsRefused
            (do_cancel_subscription transactions subscriptions chrono run input
              params.subscription_id s)
            s
  canceled_is_final ended = (
    renew-IsRefused (ap is_renewable ended),
    pause-IsRefused transactions subscriptions chrono s params.subscription_id sub there run input
        ended,
    cancel-IsRefused transactions subscriptions chrono s params.subscription_id sub there run input
        ended,
  )
