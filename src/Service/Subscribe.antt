-- ===== src/Service/Subscribe.antt =====
-- src/service/subscriptions.rs: what its handlers make of a subscription, and the steps that they share,
-- with `subscription_for_input` of src/service/helpers.rs. The parameters of an intent are given parsed, and
-- the ids that are drawn are arguments.
pub mod Handlers
pub mod Stopped
pub mod Spends
use stateset_icp_handler.Prelude.{
  ℕ, zero, suc, String, Bool, true, false, Option, none, some, List, [], ◌∷◌, map_some, unwrap_or,
  if◌then◌else◌,
}
use stateset_icp_handler.Prelude.Int.{ℤ}
use stateset_icp_handler.Prelude.Keyed.{◌==◌, string_eq}
use stateset_icp_handler.Errors.{Result, ok, err, panic, ◌>>=◌ as bind, ok_or, resource_not_found}
use stateset_icp_handler.Chrono.{Chrono}
use stateset_icp_handler.Storage.{Attempt}
use stateset_icp_handler.Pricing.{RequestItem, LineItem, Totals}
use stateset_icp_handler.Models.Parties.{Address, Buyer, PaymentInstrument}
use stateset_icp_handler.Models.Transactions.{Transaction, TransactionState}
use stateset_icp_handler.Models.Subscriptions.{
  Subscription, SubscriptionStatus, BillingCadence, active, paused,
}
use stateset_icp_handler.Mandate.Evaluate.{MandateEvaluation}
use stateset_icp_handler.StateStore.{Serde, JsonStore, get}
use stateset_icp_handler.StateStore.Transactions.{insert as insert_document}
use stateset_icp_handler.StateStore.Subscriptions.{update, insert}
use stateset_icp_handler.Service.Steps.{Stateful, ◌>>=◌, ◌>>◌}
use stateset_icp_handler.Service.Parts.{OrderSummary, Outcome, Shop}
use stateset_icp_handler.Service.Purchase.{outcome}
use stateset_icp_handler.Service.Renewals.{Months, period_advance, add_one}
use stateset_icp_handler.Service.Gate.{IntentInput}

pub record SubscribeParams : Type 0 where
  pub items : List RequestItem
  pub buyer : Option Buyer
  pub ship_to : Option Address
  pub cadence : BillingCadence
  pub payment : PaymentInstrument
  pub trial_days : Option ℕ

pub record RenewParams : Type 0 where
  pub subscription_id : String
  pub payment : PaymentInstrument

-- The state with the subscriptions.
pub record Plans : Type 0 where
  pub shop : Shop
  pub subscriptions : JsonStore Subscription

-- The accesses of a run, in their order, the instants at which it asks for the time and the ids that it
-- draws.
pub record BillingRun : Type 0 where
  pub found : Attempt
  pub spent : Attempt
  pub charged : Attempt
  pub written : Attempt
  pub noted : Attempt
  pub now : ℤ
  pub spent_at : ℤ
  pub charged_at : ℤ
  pub noted_at : ℤ
  pub subscription_id : String
  pub charge_id : String
  pub note_id : String

abbrev pub on_shop : {A : Type 0} → Stateful Shop A → Stateful Plans A
on_shop m s = let (r, shop) = m s.shop in (r, record s { shop = shop })

-- `expect`
abbrev pub expected : {A : Type 0} → Option A → Result A
expected none = panic
expected (some a) = ok a

abbrev pub billed_by : String → Subscription → Result Subscription
billed_by tenant_id sub = if sub.tenant_id == tenant_id then ok sub else err resource_not_found

-- A trial of no days is none.
abbrev pub trial_of : Option ℕ → Option ℕ
trial_of none = none
trial_of (some zero) = none
trial_of (some (suc n)) = some (suc n)

abbrev pub max_trial_days : ℕ
max_trial_days = 366

-- `Buyer::default`
abbrev pub nobody : Buyer
nobody = record {
  first_name = none;
  last_name = none;
  email = none;
  phone_number = none;
  principal_did = none;
}

abbrev pub jti_of : Option MandateEvaluation → Option String
jti_of mandate = map_some (λ ev. ev.payload.jti) mandate

abbrev pub unpriced : Totals
unpriced = record { subtotal = none; discount = none; shipping = none; tax = none; total = none }

-- A transaction of a subscription, without an order.
abbrev pub billing_txn :
    IntentInput
    → String
    → TransactionState
    → Option String
    → String
    → Buyer
    → Option Address
    → List LineItem
    → Totals
    → ℤ
    → Transaction
billing_txn input id state mandate_jti currency buyer ship_to line_items totals now = record {
  id = id;
  state = state;
  agent_id = input.agent_raw;
  tenant_id = input.tenant_id;
  mandate_jti = mandate_jti;
  currency = currency;
  jurisdiction = input.jurisdiction;
  buyer = buyer;
  ship_to = ship_to;
  bill_to = none;
  line_items = line_items;
  totals = totals;
  order_id = none;
  quote_expires_at = none;
  created_at = now;
  updated_at = now;
  external_refs = [];
}

unfoldable pub subscription_pseudo_txn :
    IntentInput → BillingRun → Subscription → TransactionState → Transaction
subscription_pseudo_txn input run sub state =
    record (billing_txn input run.note_id state sub.mandate_jti sub.currency sub.buyer sub.ship_to
      [] unpriced run.noted_at) { external_refs = ("subscription_id", sub.id) ∷ [] }

-- What a subscription has when it begins, its first period up to `end`.
abbrev pub subscription_for :
    IntentInput
    → Option MandateEvaluation
    → BillingRun
    → SubscribeParams
    → String
    → ℤ
    → Subscription
subscription_for input mandate run params currency end = record {
  id = run.subscription_id;
  status = active;
  agent_id = input.agent_raw;
  tenant_id = input.tenant_id;
  mandate_jti = jti_of mandate;
  buyer = unwrap_or params.buyer nobody;
  ship_to = params.ship_to;
  items = params.items;
  currency = currency;
  cadence = params.cadence;
  current_period_start = run.now;
  current_period_end = end;
  next_charge_at = end;
  charges_completed = 0;
  last_transaction_id = none;
  payment_instrument = some params.payment;
  created_at = run.now;
  updated_at = run.now;
  canceled_at = none;
  paused_at = none;
  failed_renewal_attempts = 0;
  trial_end = none;
}

abbrev pub renewed_by :
    Months
    → Option MandateEvaluation
    → RenewParams
    → Subscription
    → String
    → ℤ
    → Subscription
    → Subscription
renewed_by add_months mandate params found txn_id now s =
    let end = period_advance add_months found.current_period_end found.cadence in
    record s {
      current_period_start = found.current_period_end;
      current_period_end = end;
      next_charge_at = end;
      charges_completed = add_one s.charges_completed;
      last_transaction_id = some txn_id;
      status = active;
      trial_end = none;
      failed_renewal_attempts = 0;
      payment_instrument = some params.payment;
      updated_at = now;
      mandate_jti = elim mandate [ none ↦ s.mandate_jti | some ev ↦ some ev.payload.jti ];
    }

abbrev pub pause_at : ℤ → Subscription → Subscription
pause_at now s = record s { status = paused; paused_at = some now; updated_at = now }

abbrev pub cancel_at : ℤ → Subscription → Subscription
cancel_at now s = record s {
  status = SubscriptionStatus.canceled;
  canceled_at = some now;
  updated_at = now;
}

abbrev pub is_renewable : SubscriptionStatus → Bool
is_renewable SubscriptionStatus.canceled = false
is_renewable paused = false
is_renewable _ = true

abbrev pub billed : Transaction → Option OrderSummary → Subscription → Outcome
billed txn order sub = record (outcome txn order) { subscription = some sub }

module _ (transactions : Serde Transaction) (subscriptions : Serde Subscription)
    (chrono : Chrono) where
  unfoldable pub subscription_for_input : Attempt → String → String → Stateful Plans Subscription
  subscription_for_input a id tenant_id s = (
    bind (ok_or (get subscriptions a s.subscriptions id) resource_not_found) (billed_by tenant_id),
    s,
  )

  -- `self.subscriptions.update(…).expect(…)`
  unfoldable pub update_subscription :
      Attempt → String → (Subscription → Subscription) → Stateful Plans Subscription
  update_subscription a id f s =
      let (updated, store) = update subscriptions chrono a s.subscriptions id f in
      (expected updated, record s { subscriptions = store })

  abbrev pub insert_subscription : Attempt → Subscription → Stateful Plans (Unit {0})
  insert_subscription a sub s =
      (ok tt, record s { subscriptions = insert subscriptions chrono a s.subscriptions sub })

  abbrev pub insert_transaction : Attempt → Transaction → Stateful Plans (Unit {0})
  insert_transaction a txn s = (
    ok tt,
    record s {
      shop = record s.shop {
        transactions = insert_document transactions chrono a s.shop.transactions txn;
      };
    },
  )
