-- ===== src/Examples/Purchases.antt =====
-- The theorems on purchases, counter-offers, returns and the sweep (src/service) at concrete inputs.
use stateset_icp_handler.Prelude.{
  ℕ, String, List, ◌≡◌, ◌⊎◌, refl, false, Option, none, some, [], ◌∷◌, arith, eq_iff,
}
use stateset_icp_handler.Prelude.Word.{saturating_add, saturating_mul, clamp_i64, max_i64, min_i64}
use stateset_icp_handler.Prelude.Int.{pos, ◌≤ℤ◌, ◌+ℤ◌, ◌*ℤ◌}
use stateset_icp_handler.Prelude.Keyed.{get as entry, insert as put, string_eq}
use stateset_icp_handler.Prelude.Text.{trim}
use stateset_icp_handler.Errors.{ok}
use stateset_icp_handler.Storage.{smooth}
use stateset_icp_handler.Pricing.{
  RequestItem, money, total_amount_minor, line_item, totals_of, price_request_items, price_lines,
  flat_tax_minor,
}
use stateset_icp_handler.Models.Parties.{card}
use stateset_icp_handler.Models.Transactions.{Transaction, TransactionState}
use stateset_icp_handler.Mandate.Ledger.{MandateLedger}
use stateset_icp_handler.Mandate.Reserve.{reserve_mandate_spend}
use stateset_icp_handler.StateStore.{
  Serde, memory, get, insert as insert_value, update as update_value,
}
use stateset_icp_handler.StateStore.Refines.{view}
use stateset_icp_handler.StateStore.Transactions.{insert, update}
use stateset_icp_handler.Service.Payment.{
  validate_payment_instrument, instrument_complete, require_non_empty,
}
use stateset_icp_handler.Service.Parts.{
  Shop, transaction_for_input, update_transaction, ensure_quote_open, reserve_spend,
}
use stateset_icp_handler.Service.Purchase.{
  Config, Run, BuyParams, AuthorizeParams, ensure_not_subscription_linked,
  persist_order_for_transaction, outcome, complete_with, ensure_buyable, charge, do_buy,
  do_authorize,
}
use stateset_icp_handler.Service.Purchase.Bought.{IsBuyable, IsBought, buy-IsBought}
use stateset_icp_handler.Service.Purchase.Once.{IsRefused, bought_is_charged_once}
use stateset_icp_handler.Service.Negotiate.{
  NegotiateParams, Offers, new_total_minor, do_negotiate, renegotiate_with,
}
use stateset_icp_handler.Service.Negotiate.Price.{offer_is_charged}
use stateset_icp_handler.Service.States.Calls.{
  Call, buy_call, return_call, quote_call, serve_calls, completed_stays_settled,
}
use stateset_icp_handler.Service.Gate.{IntentInput}
use stateset_icp_handler.Service.Catalog.{
  Draw, QuoteParams, fresh_transaction, discounted, quote_with, insert_transaction, do_quote,
}
use stateset_icp_handler.Service.Catalog.Reopens.{quote_reopens_bought}
use stateset_icp_handler.Examples.Requests.{purchase}
use stateset_icp_handler.Examples.Clock.{calendar}
use stateset_icp_handler.Examples.Documents.{quote_of, read_only}

abbrev serde : Serde Transaction
serde = read_only (λ text. none)

abbrev quote : Transaction
quote = quote_of "t1" TransactionState.quoted "acme" (pos 50)

abbrev shop : Shop
shop = record { transactions = memory (("t1", quote) ∷ []); mandates = MandateLedger.memory [] }

abbrev config : Config
config = record { is_production = false; payment_execution_mode = "demo" }

abbrev run : Run
run = record {
  found = smooth;
  expired = smooth;
  spent = smooth;
  written = smooth;
  checked_at = pos 10;
  spent_at = pos 11;
  written_at = pos 12;
}

abbrev order : BuyParams
order = record { transaction_id = "t1"; payment = card (some "tok") none none }

abbrev bought : Transaction
bought = complete_with none (pos 12) quote

abbrev sold : Shop
sold = record shop { transactions = memory (("t1", bought) ∷ []) }

bought_lem :
    do_buy serde calendar config none run "acme" none order shop ≡ (ok (outcome bought none), sold)
unfolding do_buy validate_payment_instrument instrument_complete require_non_empty
    transaction_for_input get entry ensure_not_subscription_linked ensure_buyable ensure_quote_open
    charge reserve_spend reserve_mandate_spend persist_order_for_transaction update_transaction
    update update_value put trim
bought_lem = refl

buy-IsBought_example :
    IsBought serde calendar config run "acme" none order (outcome bought none) shop sold
buy-IsBought_example =
    buy-IsBought serde calendar config none run "acme" none order shop sold (outcome bought none)
      bought_lem

abbrev authorization : AuthorizeParams
authorization = record { transaction_id = "t1"; buyer = none; ship_to = none; bill_to = none }

bought_is_charged_once_example :
    IsRefused (do_buy serde calendar config none run "other" none order sold) sold
    × IsRefused (do_authorize serde calendar run "other" authorization sold) sold
bought_is_charged_once_example =
    bought_is_charged_once serde calendar config config none none run run "acme" "other" none none
      order order authorization shop sold (outcome bought none) bought_lem refl refl

-- A quote at another tenant, of one pen, whose envelope names `id`.
abbrev asking : Option String → IntentInput
asking id = record purchase { transaction_id = id; tenant_id = "other" }

abbrev pen : RequestItem
pen = record { sku = "pen"; quantity = pos 1; unit_price_hint = some (money (pos 100) "USD") }

abbrev pens : QuoteParams
pens = record { items = pen ∷ []; buyer = none; ship_to = none; discount_codes = [] }

abbrev draw : Draw
draw = record {
  id = "t2";
  created_at = pos 20;
  updated_at = pos 21;
  quoted_at = pos 22;
  inserted = smooth;
}

abbrev line_id : ℕ → String
line_id n = "li"

abbrev later_calls : List Call
later_calls =
    buy_call config none run "acme" none order
    ∷ quote_call line_id none draw (asking none) pens
    ∷ return_call smooth smooth "acme" (pos 70) (some "t1")
    ∷ []

completed_stays_settled_example :
    (t' : Transaction) × (view serde (serve_calls serde calendar later_calls sold).transactions "t1"
      ≡ some t')
    × ((t'.state ≡ TransactionState.completed) ⊎ (t'.state ≡ TransactionState.reversed))
unfolding entry
completed_stays_settled_example =
    completed_stays_settled serde calendar sold later_calls "t1" bought refl refl
      (tt, ((λ e. ground (arith, (eq_iff "t2" "t1").1 e)), (tt, tt)))

abbrev quoted_again : Transaction
quoted_again =
    quote_with draw (asking (some "t1")) pens (line_item line_id "USD" 0 pen (pos 100) ∷ [])
      (totals_of "USD" (pos 100))
      (fresh_transaction draw (asking (some "t1")) TransactionState.quoted)

abbrev reopened : Shop
reopened = record shop { transactions = memory (("t1", quoted_again) ∷ []) }

quote_reopens_bought_example :
    (view serde sold.transactions "t1" ≡ some bought)
    × (bought.state ≡ TransactionState.completed)
    × (view serde reopened.transactions "t1" ≡ some quoted_again)
    × IsBuyable quoted_again (pos 30)
    × (quoted_again.tenant_id ≡ "other")
    × (quoted_again.order_id ≡ none)
unfolding do_quote fresh_transaction discounted insert_transaction price_request_items price_lines
    flat_tax_minor saturating_add saturating_mul clamp_i64 max_i64 min_i64 ◌+ℤ◌ ◌*ℤ◌ insert
    insert_value put
quote_reopens_bought_example =
    quote_reopens_bought serde calendar config none run "acme" none order shop sold reopened
      (outcome bought none) (outcome quoted_again none) line_id none draw (asking (some "t1")) pens
      (pos 30) bought_lem refl refl refl (omega arith)

abbrev offers : Offers
offers = record { history_key = λ n. "negotiation_000"; offer_json = λ a b c p n g. "{}" }

-- A cent for a basket of $10.87.
abbrev offer : NegotiateParams
offer = record {
  transaction_id = "t1";
  proposed_total = some (money (pos 1) "USD");
  discount_pct = none;
  message = none;
}

abbrev offered : Transaction
offered = renegotiate_with offers offer (pos 1087) (pos 1) "USD" "agent" (pos 9) quote

abbrev open_offer : Shop
open_offer = record shop { transactions = memory (("t1", offered) ∷ []) }

offered_lem :
    do_negotiate serde calendar offers smooth smooth "acme" "agent" (pos 9) offer shop
    ≡ (ok (outcome offered none), open_offer)
unfolding do_negotiate transaction_for_input get entry new_total_minor update_transaction update
    update_value put total_amount_minor
offered_lem = refl

abbrev cheap : Transaction
cheap = complete_with none (pos 12) offered

cheap_lem :
    do_buy serde calendar config none run "acme" none order open_offer
    ≡ (ok (outcome cheap none), record shop { transactions = memory (("t1", cheap) ∷ []) })
unfolding do_buy validate_payment_instrument instrument_complete require_non_empty
    transaction_for_input get entry ensure_not_subscription_linked ensure_buyable ensure_quote_open
    charge reserve_spend reserve_mandate_spend persist_order_for_transaction update_transaction
    update update_value put trim
cheap_lem = refl

offer_is_charged_example :
    (pos 0 ≤ℤ pos 1)
    × (reserve_mandate_spend calendar smooth shop.mandates none "acme" (pos 1) "USD" (pos 11)
        ≡ (ok tt, shop.mandates))
offer_is_charged_example =
    offer_is_charged serde calendar offers smooth smooth "acme" "agent" (pos 9) offer
      (money (pos 1) "USD") config none run none order shop open_offer
      (record shop { transactions = memory (("t1", cheap) ∷ []) }) (outcome offered none)
      (outcome cheap none) offered_lem refl refl cheap_lem
