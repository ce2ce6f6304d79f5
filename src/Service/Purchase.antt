-- ===== src/Service/Purchase.antt =====
-- src/service/purchase.rs: `authorize` and `buy`. The engine, if there is one, answers an order or
-- none, or fails; the parameters of the intent are given parsed.
pub mod Bought
pub mod Once
use stateset_icp_handler.Prelude.{
  String, Bool, true, false, not, Option, none, some, map_some, unwrap_or, is_some_and,
  if◌then◌else◌,
}
use stateset_icp_handler.Prelude.Int.{ℤ}
use stateset_icp_handler.Prelude.Keyed.{get as entry, string_eq}
use stateset_icp_handler.Errors.{
  Result, ok, err, panic, ensure, precondition_failed, engine_unavailable,
}
use stateset_icp_handler.Chrono.{Chrono}
use stateset_icp_handler.Storage.{Attempt}
use stateset_icp_handler.Pricing.{Money, total_amount_minor}
use stateset_icp_handler.Models.Parties.{Address, Buyer, PaymentInstrument}
use stateset_icp_handler.Models.Transactions.{
  Transaction, TransactionState, quoted, authorized, completed, same_state,
}
use stateset_icp_handler.Mandate.Evaluate.{MandateEvaluation}
use stateset_icp_handler.StateStore.{Serde}
use stateset_icp_handler.Service.Steps.{Stateful, ◌>>=◌, ◌>>◌, lift}
use stateset_icp_handler.Service.Payment.{validate_payment_instrument}
use stateset_icp_handler.Service.Parts.{
  OrderSummary, Outcome, Shop, transaction_for_input, update_transaction, ensure_quote_open,
  reserve_spend,
}

-- What the handlers read of the configuration.
pub record Config : Type 0 where
  pub is_production : Bool
  pub payment_execution_mode : String

pub record EngineOrder : Type 0 where
  pub id : String
  pub order_number : String
  pub total : Money

abbrev pub Engine : Type 0
Engine = Transaction → Result (Option EngineOrder)

pub record AuthorizeParams : Type 0 where
  pub transaction_id : String
  pub buyer : Option Buyer
  pub ship_to : Option Address
  pub bill_to : Option Address

pub record BuyParams : Type 0 where
  pub transaction_id : String
  pub payment : PaymentInstrument

-- The accesses of a run, in their order, and the instants at which it asks for the time.
pub record Run : Type 0 where
  pub found : Attempt
  pub expired : Attempt
  pub spent : Attempt
  pub written : Attempt
  pub checked_at : ℤ
  pub spent_at : ℤ
  pub written_at : ℤ

unfoldable pub ensure_not_subscription_linked : Transaction → Result (Unit {0})
ensure_not_subscription_linked txn =
    ensure (not (is_some_and (entry "subscription_id" txn.external_refs) (λ _. true)))
      precondition_failed

abbrev pub summary : EngineOrder → OrderSummary
summary o = record {
  id = o.id;
  order_number = o.order_number;
  status = "created";
  permalink_url = none;
  total = o.total;
}

-- The answer of an engine, by its outcome and by whether this is production.
unfoldable pub persisted : Bool → Result (Option EngineOrder) → Result (Option EngineOrder)
persisted is_production (ok (some order)) = ok (some order)
persisted true (ok none) = err precondition_failed
persisted false (ok none) = ok none
persisted true (err e) = err e
persisted false (err e) = ok none
persisted is_production panic = panic

unfoldable pub persist_order_for_transaction :
    Config → Option Engine → Transaction → Result (Option OrderSummary)
unfolding persisted
persist_order_for_transaction config none txn =
    if config.is_production then err engine_unavailable else ok none
persist_order_for_transaction config (some engine) txn =
    elim (persisted config.is_production (engine txn)) [
      | ok order ↦ ok (map_some summary order)
      | err e ↦ err e
      | panic ↦ panic
    ]

abbrev pub outcome : Transaction → Option OrderSummary → Outcome
outcome txn order = record {
  transaction = txn;
  order = order;
  subscription = none;
  peer_quote = none;
}

abbrev pub authorize_with : AuthorizeParams → ℤ → Transaction → Transaction
authorize_with params now t = record t {
  buyer = unwrap_or params.buyer t.buyer;
  ship_to = elim params.ship_to [ none ↦ t.ship_to | some a ↦ some a ];
  bill_to = elim params.bill_to [ none ↦ t.bill_to | some a ↦ some a ];
  state = authorized;
  updated_at = now;
}

abbrev pub complete_with : Option OrderSummary → ℤ → Transaction → Transaction
complete_with order now t = record t {
  state = completed;
  order_id = map_some (λ o. o.id) order;
  updated_at = now;
}

module _ (serde : Serde Transaction) (chrono : Chrono) where
  unfoldable pub do_authorize : Run → String → AuthorizeParams → Stateful Shop Outcome
  unfolding ensure_not_subscription_linked
  do_authorize run tenant_id params = do
    txn ← transaction_for_input serde chrono run.found params.transaction_id tenant_id
    lift (ensure_not_subscription_linked txn)
    lift (ensure (same_state txn.state quoted) precondition_failed)
    ensure_quote_open serde chrono run.expired txn run.checked_at
    updated ←
        update_transaction serde chrono run.written params.transaction_id
          (authorize_with params run.written_at)
    lift (ok (outcome updated none))

  -- A quote is open, or the transaction is authorized.
  unfoldable pub ensure_buyable : Run → Transaction → TransactionState → Stateful Shop (Unit {0})
  ensure_buyable run txn quoted = ensure_quote_open serde chrono run.expired txn run.checked_at
  ensure_buyable run txn authorized = lift (ok tt)
  ensure_buyable run txn other = lift (err precondition_failed)

  -- The mandate, the order and the transaction, once the purchase is admitted.
  unfoldable pub charge :
      Config
      → Option Engine
      → Run
      → String
      → Option MandateEvaluation
      → BuyParams
      → Transaction
      → Stateful Shop Outcome
  unfolding persist_order_for_transaction
  charge config engine run tenant_id mandate params txn = do
    reserve_spend serde chrono run.spent mandate tenant_id (total_amount_minor txn.totals)
        txn.currency run.spent_at
    order ← lift (persist_order_for_transaction config engine txn)
    bought ←
        update_transaction serde chrono run.written params.transaction_id
          (complete_with order run.written_at)
    lift (ok (outcome bought order))

  unfoldable pub do_buy :
      Config
      → Option Engine
      → Run
      → String
      → Option MandateEvaluation
      → BuyParams
      → Stateful Shop Outcome
  unfolding ensure_not_subscription_linked ensure_buyable charge
  do_buy config engine run tenant_id mandate params = do
    lift (validate_payment_instrument params.payment config.payment_execution_mode)
    txn ← transaction_for_input serde chrono run.found params.transaction_id tenant_id
    lift (ensure_not_subscription_linked txn)
    ensure_buyable run txn txn.state
    charge config engine run tenant_id mandate params txn
