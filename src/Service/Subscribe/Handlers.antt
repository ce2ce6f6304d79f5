-- ===== src/Service/Subscribe/Handlers.antt =====
-- src/service/subscriptions.rs: `subscribe`, `renew`, `pause` and `cancel_subscription`.
use stateset_icp_handler.Prelude.{
  ℕ, String, not, Option, none, some, List, map_some, unwrap_or, is_empty, leb,
}
use stateset_icp_handler.Prelude.Int.{ℤ}
use stateset_icp_handler.Prelude.Keyed.{string_eq}
use stateset_icp_handler.Errors.{ok, ok_or, ensure, invalid_request, precondition_failed}
use stateset_icp_handler.Chrono.{Chrono}
use stateset_icp_handler.Pricing.{
  RequestItem, LineItem, Totals, price_request_items, total_amount_minor,
}
use stateset_icp_handler.Models.Parties.{Address, Buyer}
use stateset_icp_handler.Models.Transactions.{Transaction, authorized, completed, canceled}
use stateset_icp_handler.Models.Subscriptions.{
  Subscription, SubscriptionStatus, trialing, same_status, is_terminal,
}
use stateset_icp_handler.Mandate.Evaluate.{MandateEvaluation}
use stateset_icp_handler.StateStore.{Serde}
use stateset_icp_handler.Service.Subscribe.{
  SubscribeParams, RenewParams, Plans, BillingRun, on_shop, trial_of, max_trial_days, nobody,
  billing_txn, subscription_pseudo_txn, subscription_for, renewed_by, pause_at, cancel_at,
  is_renewable, billed, subscription_for_input, update_subscription, insert_subscription,
  insert_transaction,
}
use stateset_icp_handler.Service.Steps.{Stateful, ◌>>=◌, ◌>>◌, lift}
use stateset_icp_handler.Service.Payment.{validate_payment_instrument}
use stateset_icp_handler.Service.Parts.{OrderSummary, Outcome, reserve_spend}
use stateset_icp_handler.Service.Purchase.{Config, Engine, persist_order_for_transaction}
use stateset_icp_handler.Service.Renewals.{Months, period_advance, days}
use stateset_icp_handler.Service.Gate.{IntentInput}

module _ (transactions : Serde Transaction) (subscriptions : Serde Subscription)
    (chrono : Chrono) where
  unfoldable pub do_pause : BillingRun → IntentInput → String → Stateful Plans Outcome
  unfolding subscription_for_input update_subscription subscription_pseudo_txn is_terminal
  do_pause run input id = do
    sub ← subscription_for_input transactions subscriptions chrono run.found id input.tenant_id
    lift (ensure (not (is_terminal sub.status)) precondition_failed)
    updated ←
        update_subscription transactions subscriptions chrono run.written id (pause_at run.now)
    insert_transaction transactions subscriptions chrono run.noted
        (subscription_pseudo_txn input run updated canceled)
    lift (ok (billed (subscription_pseudo_txn input run updated canceled) none updated))

  unfoldable pub do_cancel_subscription : BillingRun → IntentInput → String → Stateful Plans Outcome
  unfolding subscription_for_input update_subscription subscription_pseudo_txn
  do_cancel_subscription run input id = do
    sub ← subscription_for_input transactions subscriptions chrono run.found id input.tenant_id
    lift (ensure (not (same_status sub.status SubscriptionStatus.canceled)) precondition_failed)
    updated ←
        update_subscription transactions subscriptions chrono run.written id (cancel_at run.now)
    insert_transaction transactions subscriptions chrono run.noted
        (subscription_pseudo_txn input run updated canceled)
    lift (ok (billed (subscription_pseudo_txn input run updated canceled) none updated))

  -- `add_signed` is `checked_add_signed`.
  module _ (add_months : Months) (add_signed : ℤ → ℤ → Option ℤ) (line_id : ℕ → String)
      (config : Config) (engine : Option Engine) where
    unfoldable pub run_subscription_charge :
        BillingRun
        → IntentInput
        → Buyer
        → Option Address
        → List RequestItem
        → String
        → Stateful Plans (Transaction × Option OrderSummary)
    run_subscription_charge run input buyer ship_to items currency = do
      priced ← lift (price_request_items line_id items currency)
      let txn =
          billing_txn input run.charge_id completed input.mandate_jti currency buyer ship_to
            priced.0 priced.1 run.charged_at
      order ← lift (persist_order_for_transaction config engine txn)
      let ordered = record txn { order_id = map_some (λ o. o.id) order }
      insert_transaction transactions subscriptions chrono run.charged ordered
      lift (ok (ordered, order))

    unfoldable pub subscribe_on_trial :
        Option MandateEvaluation
        → BillingRun
        → IntentInput
        → SubscribeParams
        → String
        → List LineItem × Totals
        → ℕ
        → Stateful Plans Outcome
    unfolding subscription_pseudo_txn
    subscribe_on_trial mandate run input params currency preview trial_days = do
      lift (ensure (leb trial_days max_trial_days) invalid_request)
      end ← lift (ok_or (add_signed run.now (days trial_days)) invalid_request)
      let sub = record (subscription_for input mandate run params currency end) {
        status = trialing;
        trial_end = some end;
      }
      insert_subscription transactions subscriptions chrono run.written sub
      let txn = record (subscription_pseudo_txn input run sub authorized) {
        line_items = preview.0;
        totals = preview.1;
      }
      insert_transaction transactions subscriptions chrono run.noted txn
      lift (ok (billed txn none sub))

    unfoldable pub subscribe_and_charge :
        Option MandateEvaluation
        → BillingRun
        → IntentInput
        → SubscribeParams
        → String
        → Stateful Plans Outcome
    unfolding run_subscription_charge
    subscribe_and_charge mandate run input params currency = do
      charge ←
          run_subscription_charge run input (unwrap_or params.buyer nobody) params.ship_to
            params.items currency
      let sub =
          record (subscription_for input mandate run params currency
            (period_advance add_months run.now params.cadence)) {
              charges_completed = 1;
              last_transaction_id = some charge.0.id;
            }
      insert_subscription transactions subscriptions chrono run.written sub
      lift (ok (billed charge.0 charge.1 sub))

    -- The trial, or the first charge.
    abbrev pub enroll :
        Option MandateEvaluation
        → BillingRun
        → IntentInput
        → SubscribeParams
        → String
        → List LineItem × Totals
        → Option ℕ
        → Stateful Plans Outcome
    enroll mandate run input params currency preview none =
        subscribe_and_charge mandate run input params currency
    enroll mandate run input params currency preview (some trial_days) =
        subscribe_on_trial mandate run input params currency preview trial_days

    unfoldable pub do_subscribe :
        Option MandateEvaluation
        → BillingRun
        → IntentInput
        → SubscribeParams
        → Stateful Plans Outcome
    unfolding subscribe_on_trial subscribe_and_charge
    do_subscribe mandate run input params = do
      lift (ensure (not (is_empty params.items)) invalid_request)
      lift (validate_payment_instrument params.payment config.payment_execution_mode)
      let currency = unwrap_or input.currency "USD"
      preview ← lift (price_request_items line_id params.items currency)
      on_shop (
          reserve_spend transactions chrono run.spent mandate input.tenant_id
            (total_amount_minor preview.1) currency run.spent_at)
      enroll mandate run input params currency preview (trial_of params.trial_days)

    unfoldable pub do_renew :
        Option MandateEvaluation → BillingRun → IntentInput → RenewParams → Stateful Plans Outcome
    unfolding subscription_for_input update_subscription
    do_renew mandate run input params = do
      lift (validate_payment_instrument params.payment config.payment_execution_mode)
      sub ←
          subscription_for_input transactions subscriptions chrono run.found params.subscription_id
            input.tenant_id
      lift (ensure (is_renewable sub.status) precondition_failed)
      estimated ← lift (price_request_items line_id sub.items sub.currency)
      on_shop (
          reserve_spend transactions chrono run.spent mandate input.tenant_id
            (total_amount_minor estimated.1) sub.currency run.spent_at)
      charge ← run_subscription_charge run input sub.buyer sub.ship_to sub.items sub.currency
      updated ←
          update_subscription transactions subscriptions chrono run.written params.subscription_id
            (renewed_by add_months mandate params sub charge.0.id run.now)
      lift (ok (billed charge.0 charge.1 updated))
