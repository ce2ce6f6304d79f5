-- ===== src/Service/Parts.antt =====
-- src/service/helpers.rs: the steps that the handlers share. What each access of a run meets, and the
-- instants at which it asks for the time, are arguments.
use stateset_icp_handler.Prelude.{String, Option, is_some_and, if◌then◌else◌}
use stateset_icp_handler.Prelude.Int.{ℤ, leb_ℤ}
use stateset_icp_handler.Prelude.Keyed.{◌==◌, string_eq}
use stateset_icp_handler.Errors.{
  Result, ok, err, ◌>>=◌ as bind, ok_or, resource_not_found, precondition_failed,
}
use stateset_icp_handler.Chrono.{Chrono}
use stateset_icp_handler.Storage.{Attempt}
use stateset_icp_handler.Pricing.{Money}
use stateset_icp_handler.Models.Transactions.{Transaction, expired}
use stateset_icp_handler.Models.Subscriptions.{Subscription}
use stateset_icp_handler.Models.Peers.{PeerQuote}
use stateset_icp_handler.Mandate.Ledger.{MandateLedger}
use stateset_icp_handler.Mandate.Evaluate.{MandateEvaluation}
use stateset_icp_handler.Mandate.Reserve.{reserve_mandate_spend}
use stateset_icp_handler.StateStore.{Serde, JsonStore, get}
use stateset_icp_handler.StateStore.Transactions.{update, is_open, is_due}
use stateset_icp_handler.Service.Steps.{Stateful}

pub record OrderSummary : Type 0 where
  pub id : String
  pub order_number : String
  pub status : String
  pub permalink_url : Option String
  pub total : Money

pub record Outcome : Type 0 where
  pub transaction : Transaction
  pub order : Option OrderSummary
  pub subscription : Option Subscription
  pub peer_quote : Option PeerQuote

-- The parts of `IcpService` that the handlers of transactions change.
pub record Shop : Type 0 where
  pub transactions : JsonStore Transaction
  pub mandates : MandateLedger

abbrev pub owned_by : String → Transaction → Result Transaction
owned_by tenant_id txn = if txn.tenant_id == tenant_id then ok txn else err resource_not_found

-- What `ensure_quote_open` makes of the transaction that it reads again.
abbrev pub expire_if_over : ℤ → Transaction → Transaction
expire_if_over now txn =
    if is_due now txn then record txn { state = expired; updated_at = now } else txn

module _ (serde : Serde Transaction) (chrono : Chrono) where
  unfoldable pub transaction_for_input : Attempt → String → String → Stateful Shop Transaction
  transaction_for_input a transaction_id tenant_id s = (
    bind (ok_or (get serde a s.transactions transaction_id) resource_not_found)
        (owned_by tenant_id),
    s,
  )

  -- `self.transactions.update(…).ok_or_else(…)`
  unfoldable pub update_transaction :
      Attempt → String → (Transaction → Transaction) → Stateful Shop Transaction
  update_transaction a id f s =
      let (updated, store) = update serde chrono a s.transactions id f in
      (ok_or updated resource_not_found, record s { transactions = store })

  unfoldable pub ensure_quote_open : Attempt → Transaction → ℤ → Stateful Shop (Unit {0})
  ensure_quote_open a txn now s =
      if is_some_and txn.quote_expires_at (λ expires_at. leb_ℤ expires_at now)
      then (
        err precondition_failed,
        if is_open txn.state
            then record s {
              transactions = (update serde chrono a s.transactions txn.id (expire_if_over now)).1;
            }
            else s,
      )
      else (ok tt, s)

  -- `reserve_mandate_spend` on the ledger of the state.
  unfoldable pub reserve_spend :
      Attempt → Option MandateEvaluation → String → ℤ → String → ℤ → Stateful Shop (Unit {0})
  reserve_spend a mandate tenant_id amount currency now s =
      let (reserved, ledger) =
        reserve_mandate_spend chrono a s.mandates mandate tenant_id amount currency now in
      (reserved, record s { mandates = ledger })
