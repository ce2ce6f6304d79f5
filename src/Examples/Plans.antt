-- ===== src/Examples/Plans.antt =====
-- The theorems on subscriptions (src/service/subscriptions.rs) at concrete inputs.
use stateset_icp_handler.Prelude.{
  ℕ, String, ◌≡◌, refl, false, Option, none, some, List, [], ◌∷◌, arith,
}
use stateset_icp_handler.Prelude.Int.{ℤ, pos, ◌+ℤ◌, ◌-ℤ◌, ◌*ℤ◌}
use stateset_icp_handler.Prelude.Keyed.{get as entry, string_eq}
use stateset_icp_handler.Prelude.Word.{
  saturating_add, saturating_sub, saturating_mul, clamp_i64, max_i64, min_i64,
}
use stateset_icp_handler.Prelude.Text.{trim, eq_ignore_ascii_case, strip_suffix}
use stateset_icp_handler.Errors.{err, panic, invalid_request}
use stateset_icp_handler.Storage.{smooth}
use stateset_icp_handler.Pricing.{
  RequestItem, LineItem, Totals, money, line_item, totals_of, price_request_items, price_lines,
  flat_tax_minor, total_amount_minor,
}
use stateset_icp_handler.Models.Parties.{card}
use stateset_icp_handler.Models.Transactions.{Transaction, completed}
use stateset_icp_handler.Models.Subscriptions.{Subscription, SubscriptionStatus, monthly}
use stateset_icp_handler.Mandate.Period.{parse_i64, parse_period}
use stateset_icp_handler.Mandate.Ledger.{
  MandateLedger, try_record_spend_checked, precheck, spend_backend, spend_memory, fits, current,
}
use stateset_icp_handler.Mandate.Ledger.Budget.{usage_in}
use stateset_icp_handler.Mandate.Reserve.{reserve_mandate_spend, reserve_within}
use stateset_icp_handler.Mandate.Evaluate.{budget_window}
use stateset_icp_handler.StateStore.{Serde, memory, get, update as update_value}
use stateset_icp_handler.StateStore.Refines.{view}
use stateset_icp_handler.StateStore.Transactions.{insert}
use stateset_icp_handler.StateStore.Subscriptions.{update}
use stateset_icp_handler.Service.Payment.{
  validate_payment_instrument, instrument_complete, require_non_empty,
}
use stateset_icp_handler.Service.Parts.{Shop, reserve_spend}
use stateset_icp_handler.Service.Purchase.{Config, persist_order_for_transaction}
use stateset_icp_handler.Service.Purchase.Once.{IsRefused}
use stateset_icp_handler.Service.Renewals.{Months}
use stateset_icp_handler.Service.Subscribe.{
  SubscribeParams, RenewParams, Plans, BillingRun, subscription_for_input, billing_txn,
}
use stateset_icp_handler.Service.Subscribe.Handlers.{
  do_subscribe, do_renew, do_pause, do_cancel_subscription, run_subscription_charge,
}
use stateset_icp_handler.Service.Subscribe.Stopped.{canceled_is_final}
use stateset_icp_handler.Service.Subscribe.Spends.{refused_trial_spends, unwritten_renewal_panics}
use stateset_icp_handler.Examples.Clock.{calendar, span}
use stateset_icp_handler.Examples.Documents.{nobody, plan_of, read_only}
use stateset_icp_handler.Examples.Mandates.{evaluated, partly_spent}
use stateset_icp_handler.Examples.Requests.{purchase}

abbrev serde : Serde Transaction
serde = read_only (λ text. none)

abbrev plans : Serde Subscription
plans = read_only (λ text. none)

abbrev no_months : Months
no_months t n = none

abbrev later : ℤ → ℤ → Option ℤ
later t d = some (t +ℤ d)

abbrev line_id : ℕ → String
line_id n = "li"

abbrev config : Config
config = record { is_production = false; payment_execution_mode = "demo" }

abbrev shop : Shop
shop = record { transactions = memory []; mandates = MandateLedger.memory [] }

abbrev billing : BillingRun
billing = record {
  found = smooth;
  spent = smooth;
  charged = smooth;
  written = smooth;
  noted = smooth;
  now = pos 10;
  spent_at = pos 11;
  charged_at = pos 12;
  noted_at = pos 13;
  subscription_id = "s1";
  charge_id = "t1";
  note_id = "t2";
}

abbrev renewal : RenewParams
renewal = record { subscription_id = "s1"; payment = card (some "tok") none none }

abbrev ended : Subscription
ended = plan_of "s1" SubscriptionStatus.canceled (pos 5)

abbrev ended_plans : Plans
ended_plans = record { shop = shop; subscriptions = memory (("s1", ended) ∷ []) }

canceled_is_final_example :
    IsRefused
      (do_renew serde plans calendar no_months later line_id config none none billing purchase
        renewal ended_plans)
      ended_plans
    × IsRefused (do_pause serde plans calendar billing purchase "s1" ended_plans) ended_plans
    × IsRefused
        (do_cancel_subscription serde plans calendar billing purchase "s1" ended_plans)
        ended_plans
unfolding entry
canceled_is_final_example =
    canceled_is_final serde plans calendar no_months later line_id config none none billing purchase
      renewal ended_plans ended refl refl

abbrev pens : List RequestItem
pens = record { sku = "pen"; quantity = pos 1; unit_price_hint = some (money (pos 100) "USD") } ∷ []

abbrev long_trial : SubscribeParams
long_trial = record {
  items = pens;
  buyer = none;
  ship_to = none;
  cadence = monthly;
  payment = card (some "tok") none none;
  trial_days = some 400;
}

abbrev preview : List LineItem × Totals
preview = (
  line_item line_id "USD" 0
        (record { sku = "pen"; quantity = pos 1; unit_price_hint = some (money (pos 100) "USD") })
        (pos 100)
      ∷ [],
  totals_of "USD" (pos 100),
)

-- 300 of the mandate's 1000 are spent.
abbrev partly_spent_plans : Plans
partly_spent_plans = record ended_plans {
  shop = record shop { mandates = MandateLedger.memory (("m2", partly_spent) ∷ []) };
}

refused_trial_spends_example :
    let (answer, after) =
      do_subscribe serde plans calendar no_months later line_id config none
        (some evaluated)
        billing
        purchase
        long_trial
        partly_spent_plans in
    (answer ≡ err invalid_request)
    × ((usage_in calendar after.shop.mandates "m2").spent_minor ≡ pos 300 +ℤ pos 108)
    × (after.shop.transactions ≡ partly_spent_plans.shop.transactions)
    × (after.subscriptions ≡ partly_spent_plans.subscriptions)
unfolding validate_payment_instrument instrument_complete require_non_empty trim price_request_items
    price_lines flat_tax_minor saturating_add saturating_mul clamp_i64 max_i64 min_i64 ◌+ℤ◌ ◌*ℤ◌
    reserve_mandate_spend reserve_within total_amount_minor eq_ignore_ascii_case budget_window
    parse_period strip_suffix parse_i64 span try_record_spend_checked precheck spend_backend
    spend_memory fits saturating_sub ◌-ℤ◌ current entry
refused_trial_spends_example =
    refused_trial_spends serde plans calendar no_months later line_id config none (some evaluated)
      billing purchase long_trial preview 400 partly_spent_plans evaluated (pos 100)
      (pos 86400000000000) refl refl refl refl refl (omega arith) (omega arith) refl
      (omega arith, omega arith) (omega arith)
      (record { started = refl; nonneg = omega arith; within = omega arith }) refl

abbrev due : Subscription
due = plan_of "s1" SubscriptionStatus.active (pos 5)

abbrev due_plans : Plans
due_plans = record { shop = shop; subscriptions = memory (("s1", due) ∷ []) }

-- The lock of the subscriptions is poisoned when the renewal is to be written.
abbrev failing : BillingRun
failing = record billing { written = record smooth { lock = false } }

abbrev charged : Transaction
charged =
    billing_txn purchase "t1" completed none "USD" nobody none [] (totals_of "USD" (pos 0)) (pos 12)

abbrev charged_plans : Plans
charged_plans = record due_plans {
  shop = record shop { transactions = insert serde calendar smooth shop.transactions charged };
}

unwritten_renewal_panics_example :
    (do_renew serde plans calendar no_months later line_id config none none failing purchase renewal
        due_plans
      ≡ (panic, charged_plans))
    × (charged.state ≡ completed)
    × (charged_plans.shop.transactions ≡ insert serde calendar smooth shop.transactions charged)
    × ((j : String) → view plans due_plans.subscriptions j ≡ view plans due_plans.subscriptions j)
unfolding validate_payment_instrument instrument_complete require_non_empty trim
    subscription_for_input get entry price_request_items price_lines reserve_spend
    reserve_mandate_spend run_subscription_charge persist_order_for_transaction flat_tax_minor
    saturating_add clamp_i64 max_i64 min_i64 ◌+ℤ◌ update update_value
unwritten_renewal_panics_example =
    unwritten_renewal_panics serde plans calendar no_months later line_id config none none failing
      purchase renewal due ([], totals_of "USD" (pos 0)) shop due_plans charged_plans charged none
      due_plans.subscriptions refl refl refl refl refl refl refl
