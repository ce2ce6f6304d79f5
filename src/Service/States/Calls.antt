-- ===== src/Service/States/Calls.antt =====
-- The states of transactions over calls of the handlers of src/service, in any order.
use stateset_icp_handler.Prelude.{
  ℕ, String, ◌≡◌, ◌≢◌, ◌∙◌, ◌⊎◌, inl, inr, refl, Option, some, List, [], ◌∷◌, arith, not, is_empty,
}
use stateset_icp_handler.Prelude.Int.{ℤ}
use stateset_icp_handler.Prelude.Sequences.{All}
use stateset_icp_handler.Errors.{Result, ok, err, panic, ensure, invalid_request}
use stateset_icp_handler.Chrono.{Chrono}
use stateset_icp_handler.Storage.{Attempt}
use stateset_icp_handler.Models.Transactions.{
  Transaction, TransactionState, draft, quoted, completed, reversed,
}
use stateset_icp_handler.Mandate.Evaluate.{MandateEvaluation}
use stateset_icp_handler.StateStore.{Serde}
use stateset_icp_handler.StateStore.Refines.{view}
use stateset_icp_handler.StateStore.Transactions.{insert, index_columns}
use stateset_icp_handler.StateStore.Inserted.{insert_elsewhere}
use stateset_icp_handler.Pricing.{price_request_items}
use stateset_icp_handler.Service.Steps.{Stateful, continue}
use stateset_icp_handler.Service.Gate.{IntentInput}
use stateset_icp_handler.Service.Catalog.{
  Draw, Discounts, QuoteParams, fresh_id, fresh_transaction, currency_of, discounted, quote_with,
  insert_transaction, do_search, do_describe, do_quote,
}
use stateset_icp_handler.Service.Parts.{Shop}
use stateset_icp_handler.Service.Purchase.{
  Config, Engine, Run, BuyParams, AuthorizeParams, do_buy, do_authorize,
}
use stateset_icp_handler.Service.Negotiate.{
  NegotiateParams, ConfirmReceiptParams, Offers, do_negotiate, do_confirm_receipt,
}
use stateset_icp_handler.Service.Orders.{do_return}
use stateset_icp_handler.Service.States.{
  Move, authorizes, buys_quoted, buys_authorized, expires_draft, expires_quoted, reverses, Reach,
  stays, moves_on, Reach-trans,
}
use stateset_icp_handler.Service.States.Handlers.{
  authorize-Moves, buy-Moves, negotiate-Moves, confirm-Moves, return-Moves,
}

-- A call, with what its accesses meet.
pub data Call : Type 0 where
  authorize_call : Run → String → AuthorizeParams → Call
  buy_call : Config → Option Engine → Run → String → Option MandateEvaluation → BuyParams → Call
  negotiate_call : Offers → Attempt → Attempt → String → String → ℤ → NegotiateParams → Call
  confirm_call : Attempt → Attempt → String → String → ℤ → ConfirmReceiptParams → Call
  return_call : Attempt → Attempt → String → ℤ → Option String → Call
  search_call : Draw → IntentInput → Call
  describe_call : Draw → IntentInput → Call
  quote_call : (ℕ → String) → Option Discounts → Draw → IntentInput → QuoteParams → Call

-- A call that opens a transaction opens it under another id.
abbrev pub Spares : String → Call → Type 0
Spares id (search_call run input) = fresh_id run input ≢ id
Spares id (describe_call run input) = fresh_id run input ≢ id
Spares id (quote_call line_id engine run input params) = fresh_id run input ≢ id
Spares id other = Unit

module _ (serde : Serde Transaction) (chrono : Chrono) where
  unfoldable pub serve : Call → Shop → Shop
  serve (authorize_call run tenant_id params) s =
      (do_authorize serde chrono run tenant_id params s).1
  serve (buy_call config engine run tenant_id mandate params) s =
      (do_buy serde chrono config engine run tenant_id mandate params s).1
  serve (negotiate_call offers found written tenant_id agent now params) s =
      (do_negotiate serde chrono offers found written tenant_id agent now params s).1
  serve (confirm_call found written tenant_id agent now params) s =
      (do_confirm_receipt serde chrono found written tenant_id agent now params s).1
  serve (return_call found written tenant_id now id) s =
      (do_return serde chrono found written tenant_id now id s).1
  serve (search_call run input) s = (do_search serde chrono run input s).1
  serve (describe_call run input) s = (do_describe serde chrono run input s).1
  serve (quote_call line_id engine run input params) s =
      (do_quote serde chrono line_id engine run input params s).1

  unfoldable pub serve_calls : List Call → Shop → Shop
  unfolding serve
  serve_calls [] s = s
  serve_calls (c ∷ cs) s = serve_calls cs (serve c s)

  -- The transaction is still there, moved by those moves.
  abbrev MovesAt : String → Shop → Shop → Type 0
  MovesAt id s s' =
      (t : Transaction)
      → view serde s.transactions id ≡ some t
      → (t' : Transaction) × (view serde s'.transactions id ≡ some t') × Reach t.state t'.state

  kept-MovesAt :
      (id : String) (s s' : Shop)
      → view serde s'.transactions id ≡ view serde s.transactions id
      → MovesAt id s s'
  kept-MovesAt id s s' same t h = (t, same ∙ h, stays)

  inserted-MovesAt :
      (id : String) (a : Attempt) (txn : Transaction) (s : Shop)
      → txn.id ≢ id
      → MovesAt id s (insert_transaction serde chrono a txn s).1
  unfolding insert_transaction insert
  inserted-MovesAt id a txn s other =
      kept-MovesAt id s (insert_transaction serde chrono a txn s).1
        (insert_elsewhere serde a s.transactions txn.id txn (index_columns chrono txn) id other)

  checked-MovesAt :
      {A B : Type 0} (id : String) (r : Result A) (step : A → Stateful Shop B) (s : Shop)
      → ((a : A) → MovesAt id s (step a s).1)
      → MovesAt id s (continue (r, s) step).1
  checked-MovesAt id panic step s k t h = (t, h, stays)
  checked-MovesAt id (err e) step s k t h = (t, h, stays)
  checked-MovesAt id (ok a) step s k t h = k a t h

  serve-MovesAt : (id : String) (c : Call) (s : Shop) → Spares id c → MovesAt id s (serve c s)
  unfolding serve do_search do_describe do_quote fresh_transaction
  serve-MovesAt id (authorize_call run tenant_id params) s h =
      authorize-Moves serde chrono run tenant_id params s id
  serve-MovesAt id (buy_call config engine run tenant_id mandate params) s h =
      buy-Moves serde chrono config engine run tenant_id mandate params s id
  serve-MovesAt id (negotiate_call offers found written tenant_id agent now params) s h =
      negotiate-Moves serde chrono offers found written tenant_id agent now params s id
  serve-MovesAt id (confirm_call found written tenant_id agent now params) s h =
      confirm-Moves serde chrono found written tenant_id agent now params s id
  serve-MovesAt id (return_call found written tenant_id now params) s h =
      return-Moves serde chrono found written tenant_id now params s id
  serve-MovesAt id (search_call run input) s h =
      inserted-MovesAt id run.inserted (fresh_transaction run input draft) s h
  serve-MovesAt id (describe_call run input) s h =
      inserted-MovesAt id run.inserted (fresh_transaction run input draft) s h
  serve-MovesAt id (quote_call line_id engine run input params) s h =
      checked-MovesAt id (ensure (not (is_empty params.items)) invalid_request) _ s (λ u.
        checked-MovesAt id (price_request_items line_id params.items (currency_of input)) _ s
          (λ priced.
            checked-MovesAt id (discounted engine params (currency_of input) priced.1) _ s
              (λ reduced.
                inserted-MovesAt id run.inserted
                  (quote_with run input params priced.0 reduced
                    (fresh_transaction run input quoted))
                  s h)))

  serve_calls-MovesAt :
      (id : String) (cs : List Call) (s : Shop)
      → All (Spares id) cs
      → MovesAt id s (serve_calls cs s)
  unfolding serve_calls
  serve_calls-MovesAt id [] s h t there = (t, there, stays)
  serve_calls-MovesAt id (c ∷ cs) s h t there =
      let (t', there', r) = serve-MovesAt id c s h.0 t there in
      let (t'', there'', q) = serve_calls-MovesAt id cs (serve c s) h.1 t' there' in
      (t'', there'', Reach-trans r q)

abbrev IsSettled : TransactionState → Type 0
IsSettled s = (s ≡ completed) ⊎ (s ≡ reversed)

IsSettled-moves : {s t : TransactionState} → Move s t → IsSettled s → IsSettled t
IsSettled-moves authorizes h = ground arith
IsSettled-moves buys_quoted h = ground arith
IsSettled-moves buys_authorized h = ground arith
IsSettled-moves expires_draft h = ground arith
IsSettled-moves expires_quoted h = ground arith
IsSettled-moves (reverses s) h = inr refl

IsSettled-reaches : {s t : TransactionState} → Reach s t → IsSettled s → IsSettled t
IsSettled-reaches stays h = h
IsSettled-reaches (moves_on r m) h = IsSettled-moves m (IsSettled-reaches r h)

-- Whatever calls of authorize, buy, negotiate, confirm_receipt, return, search, describe and quote
-- follow, and whichever of their accesses fail, a transaction that is completed is still there, and is
-- completed or reversed: as long as no search, describe or quote among them opens its transaction under
-- the id of this one.
pub completed_stays_settled :
    (serde : Serde Transaction) (chrono : Chrono) (s : Shop) (calls : List Call) (id : String)
    (t : Transaction)
    → view serde s.transactions id ≡ some t
    → t.state ≡ completed
    → All (Spares id) calls
    → (t' : Transaction) × (view serde (serve_calls serde chrono calls s).transactions id ≡ some t')
      × ((t'.state ≡ completed) ⊎ (t'.state ≡ reversed))
completed_stays_settled serde chrono s calls id t there done spared =
    let (t', after, reached) = serve_calls-MovesAt serde chrono id calls s spared t there in
    (t', after, IsSettled-reaches reached (inl done))
