-- ===== src/Service/Orders.antt =====
-- src/service/orders.rs: tracking and returns, with the transaction's id that the intent names; and the
-- sweep of expired transactions and quotes between agents of src/service/lifecycle.rs.
use stateset_icp_handler.Prelude.{ℕ, suc, String, Option, none, List, [], ◌∷◌, length}
use stateset_icp_handler.Prelude.Int.{ℤ}
use stateset_icp_handler.Errors.{ok, ok_or, invalid_request}
use stateset_icp_handler.Chrono.{Chrono}
use stateset_icp_handler.Storage.{Attempt}
use stateset_icp_handler.Models.Transactions.{Transaction, reversed, expired}
use stateset_icp_handler.Models.Peers.{PeerQuote, PeerQuoteStatus}
use stateset_icp_handler.StateStore.{Serde, JsonStore}
use stateset_icp_handler.StateStore.Transactions.{update, list_due_for_expiry}
use stateset_icp_handler.StateStore.PeerQuotes.{
  update as update_quote, list_due_for_expiry as list_due_quotes,
}
use stateset_icp_handler.Service.Steps.{Stateful, ◌>>=◌, lift}
use stateset_icp_handler.Service.Parts.{Outcome, Shop, transaction_for_input, update_transaction}
use stateset_icp_handler.Service.Purchase.{outcome}

abbrev pub reverse_at : ℤ → Transaction → Transaction
reverse_at now t = record t { state = reversed; updated_at = now }

abbrev pub expire_at : ℤ → Transaction → Transaction
expire_at now t = record t { state = expired; updated_at = now }

module _ (serde : Serde Transaction) (chrono : Chrono) where
  unfoldable pub do_track : Attempt → String → Option String → Stateful Shop Outcome
  do_track found tenant_id transaction_id = do
    id ← lift (ok_or transaction_id invalid_request)
    txn ← transaction_for_input serde chrono found id tenant_id
    lift (ok (outcome txn none))

  unfoldable pub do_return : Attempt → Attempt → String → ℤ → Option String → Stateful Shop Outcome
  do_return found written tenant_id now transaction_id = do
    id ← lift (ok_or transaction_id invalid_request)
    txn ← transaction_for_input serde chrono found id tenant_id
    updated ← update_transaction serde chrono written id (reverse_at now)
    lift (ok (outcome updated none))

  -- The write of the sweep for a transaction that it has listed, whatever its state is by now.
  unfoldable pub expire_one :
      Attempt → ℤ → Transaction → JsonStore Transaction → JsonStore Transaction
  expire_one a now txn store = (update serde chrono a store txn.id (expire_at now)).1

  -- The loop over the transactions that were listed: `turn` is the access of each write and what other
  -- calls have done to the store before it.
  unfoldable pub expire_listed :
      (ℕ → Attempt × (JsonStore Transaction → JsonStore Transaction))
      → ℤ
      → List Transaction
      → JsonStore Transaction
      → JsonStore Transaction
  unfolding expire_one
  expire_listed turn now [] store = store
  expire_listed turn now (txn ∷ txns) store =
      expire_listed (λ k. turn (suc k)) now txns (expire_one (turn 0).0 now txn ((turn 0).1 store))

-- The same for the quotes between agents.
abbrev pub expire_quote_at : ℤ → PeerQuote → PeerQuote
expire_quote_at now q = record q { status = PeerQuoteStatus.expired; updated_at = now }

unfoldable pub expire_quotes :
    Serde PeerQuote
    → Chrono
    → (ℕ → Attempt × (JsonStore PeerQuote → JsonStore PeerQuote))
    → ℤ
    → List PeerQuote
    → JsonStore PeerQuote
    → JsonStore PeerQuote
expire_quotes serde chrono turn now [] store = store
expire_quotes serde chrono turn now (quote ∷ quotes) store =
    expire_quotes serde chrono (λ k. turn (suc k)) now quotes
      ((update_quote serde chrono (turn 0).0 ((turn 0).1 store) quote.id (expire_quote_at now)).1)

pub record ExpiryTickReport : Type 0 where
  pub transactions_expired : ℕ
  pub peer_quotes_expired : ℕ

-- The two sweeps, each with the accesses of its list, and what it lists. What the first does to the
-- transactions does not reach the quotes.
unfoldable pub tick_expiries :
    Serde Transaction
    → Serde PeerQuote
    → Chrono
    → (ℕ → Attempt × (JsonStore Transaction → JsonStore Transaction))
    → (ℕ → Attempt × (JsonStore PeerQuote → JsonStore PeerQuote))
    → (ℕ → Attempt)
    → ℤ
    → JsonStore Transaction
    → JsonStore PeerQuote
    → ExpiryTickReport × JsonStore Transaction × JsonStore PeerQuote
unfolding expire_listed expire_quotes
tick_expiries transactions quotes chrono turn quote_turn a now store quote_store =
    let due_txns = list_due_for_expiry transactions chrono (a 0) (a 1) (a 2) store now in
    let due_quotes = list_due_quotes quotes chrono (a 3) (a 4) (a 5) quote_store now in
    (
      record { transactions_expired = length due_txns; peer_quotes_expired = length due_quotes },
      expire_listed transactions chrono turn now due_txns store,
      expire_quotes quotes chrono quote_turn now due_quotes quote_store,
    )
