-- ===== src/Service/Catalog.antt =====
-- src/service/catalog.rs: `search`, `describe` and `quote`, with `fresh_transaction` of
-- src/service/helpers.rs. The id drawn for a transaction is an argument, and so is the discount that the
-- engine computes.
pub mod Reopens
use stateset_icp_handler.Prelude.{
  ℕ, ◌^◌, ◌*◌, String, not, ◌&&◌, Option, none, some, List, [], is_empty, unwrap_or, if◌then◌else◌,
}
use stateset_icp_handler.Prelude.Int.{ℤ, pos, ◌+ℤ◌, ltb_ℤ}
use stateset_icp_handler.Errors.{Result, ok, ensure, invalid_request}
use stateset_icp_handler.Chrono.{Chrono}
use stateset_icp_handler.Storage.{Attempt}
use stateset_icp_handler.Pricing.{
  RequestItem, LineItem, Totals, price_request_items, apply_discount_to_totals,
}
use stateset_icp_handler.Models.Parties.{Address, Buyer}
use stateset_icp_handler.Models.Transactions.{Transaction, TransactionState, draft, quoted}
use stateset_icp_handler.StateStore.{Serde}
use stateset_icp_handler.StateStore.Transactions.{insert}
use stateset_icp_handler.Service.Steps.{Stateful, ◌>>=◌, ◌>>◌, lift}
use stateset_icp_handler.Service.Parts.{Outcome, Shop}
use stateset_icp_handler.Service.Purchase.{outcome}
use stateset_icp_handler.Service.Gate.{IntentInput}

pub record QuoteParams : Type 0 where
  pub items : List RequestItem
  pub buyer : Option Buyer
  pub ship_to : Option Address
  pub discount_codes : List String

-- The id that is drawn, the instants at which the handler asks for the time, and what its write meets.
pub record Draw : Type 0 where
  pub id : String
  pub created_at : ℤ
  pub updated_at : ℤ
  pub quoted_at : ℤ
  pub inserted : Attempt

-- `compute_discount_minor` of an engine
abbrev pub Discounts : Type 0
Discounts = List RequestItem → String → Option Address → List String → ℤ

abbrev pub default_buyer : Buyer
default_buyer = record {
  first_name = none;
  last_name = none;
  email = none;
  phone_number = none;
  principal_did = none;
}

abbrev pub default_totals : Totals
default_totals = record {
  subtotal = none;
  discount = none;
  shipping = none;
  tax = none;
  total = none;
}

abbrev pub currency_of : IntentInput → String
currency_of input = unwrap_or input.currency "USD"

-- The transaction that the envelope names, or the one that is drawn.
abbrev pub fresh_id : Draw → IntentInput → String
fresh_id run input = unwrap_or input.transaction_id run.id

unfoldable pub fresh_transaction : Draw → IntentInput → TransactionState → Transaction
fresh_transaction run input state = record {
  id = fresh_id run input;
  state = state;
  agent_id = input.agent_raw;
  tenant_id = input.tenant_id;
  mandate_jti = input.mandate_jti;
  currency = currency_of input;
  jurisdiction = input.jurisdiction;
  buyer = default_buyer;
  ship_to = none;
  bill_to = none;
  line_items = [];
  totals = default_totals;
  order_id = none;
  quote_expires_at = none;
  created_at = run.created_at;
  updated_at = run.updated_at;
  external_refs = [];
}

-- 15 minutes
abbrev pub quote_lifetime : ℤ
quote_lifetime = pos (15 * 60 * 10 ^ 9)

unfoldable pub discounted : Option Discounts → QuoteParams → String → Totals → Result Totals
discounted none params currency totals = ok totals
discounted (some compute) params currency totals =
    let discount = compute params.items currency params.ship_to params.discount_codes in
    if not (is_empty params.discount_codes) && ltb_ℤ (pos 0) discount
    then apply_discount_to_totals totals discount currency
    else ok totals

abbrev pub quote_with :
    Draw → IntentInput → QuoteParams → List LineItem → Totals → Transaction → Transaction
quote_with run input params line_items totals txn = record txn {
  buyer = unwrap_or params.buyer default_buyer;
  ship_to = params.ship_to;
  line_items = line_items;
  totals = totals;
  currency = currency_of input;
  quote_expires_at = some (run.quoted_at +ℤ quote_lifetime);
}

module _ (serde : Serde Transaction) (chrono : Chrono) where
  -- `self.transactions.insert(txn.clone())`, and the answer
  unfoldable pub insert_transaction : Attempt → Transaction → Stateful Shop Outcome
  insert_transaction a txn s =
      (ok (outcome txn none), record s { transactions = insert serde chrono a s.transactions txn })

  unfoldable pub do_search : Draw → IntentInput → Stateful Shop Outcome
  unfolding fresh_transaction insert_transaction
  do_search run input = insert_transaction run.inserted (fresh_transaction run input draft)

  unfoldable pub do_describe : Draw → IntentInput → Stateful Shop Outcome
  unfolding fresh_transaction insert_transaction
  do_describe run input = insert_transaction run.inserted (fresh_transaction run input draft)

  unfoldable pub do_quote :
      (ℕ → String) → Option Discounts → Draw → IntentInput → QuoteParams → Stateful Shop Outcome
  unfolding fresh_transaction insert_transaction discounted
  do_quote line_id engine run input params = do
    lift (ensure (not (is_empty params.items)) invalid_request)
    (line_items, totals) ← lift (price_request_items line_id params.items (currency_of input))
    reduced ← lift (discounted engine params (currency_of input) totals)
    insert_transaction run.inserted
        (quote_with run input params line_items reduced (fresh_transaction run input quoted))
