-- ===== src/Service/Catalog/Reopens.antt =====
-- What a quote of src/service/catalog.rs does to the transaction that its envelope names.
use stateset_icp_handler.Prelude.{
  ℕ, String, ◌≡◌, ap, sym, ◌∙◌, Option, none, some, inl, not, is_empty, unwrap_or, is_some_and,
  if◌then◌else◌,
}
use stateset_icp_handler.Prelude.Int.{ℤ, leb_ℤ, leb_ℤ_of_gt, ◌+ℤ◌, ◌<ℤ◌}
use stateset_icp_handler.Prelude.Keyed.{◌==◌, string_eq, ==_refl}
use stateset_icp_handler.Errors.{ok, ensure, invalid_request}
use stateset_icp_handler.Chrono.{Chrono}
use stateset_icp_handler.Pricing.{price_request_items}
use stateset_icp_handler.Models.Transactions.{Transaction, quoted, completed}
use stateset_icp_handler.Mandate.Evaluate.{MandateEvaluation}
use stateset_icp_handler.StateStore.{Serde}
use stateset_icp_handler.StateStore.Transactions.{insert, index_columns}
use stateset_icp_handler.StateStore.Refines.{view}
use stateset_icp_handler.StateStore.Inserted.{Accepts, insert_written}
use stateset_icp_handler.Service.Steps.{check_passed}
use stateset_icp_handler.Service.Parts.{Outcome, Shop}
use stateset_icp_handler.Service.Purchase.{Config, Engine, Run, BuyParams, outcome, do_buy}
use stateset_icp_handler.Service.Purchase.Bought.{IsBuyable, buy-IsBought}
use stateset_icp_handler.Service.Gate.{IntentInput}
use stateset_icp_handler.Service.Catalog.{
  Draw, Discounts, QuoteParams, quote_lifetime, currency_of, fresh_id, fresh_transaction,
  discounted, quote_with, insert_transaction, do_quote,
}

ok_same : {A : Type 0} {a b : A} → ok a ≡ ok b → a ≡ b
ok_same e = cc

-- What a quote that succeeds has written.
record IsQuoted (serde : Serde Transaction) (chrono : Chrono) (run : Draw) (input : IntentInput)
    (o : Outcome) (s s' : Shop) : Type 0 where
  pub id : o.transaction.id ≡ fresh_id run input
  pub state : o.transaction.state ≡ quoted
  pub tenant : o.transaction.tenant_id ≡ input.tenant_id
  pub unordered : o.transaction.order_id ≡ none
  pub ends : o.transaction.quote_expires_at ≡ some (run.quoted_at +ℤ quote_lifetime)
  pub written :
      s' ≡ record s { transactions = insert serde chrono run.inserted s.transactions o.transaction }

module _ (serde : Serde Transaction) (chrono : Chrono) (line_id : ℕ → String)
    (engine : Option Discounts) (run : Draw) (input : IntentInput) (params : QuoteParams) where
  quote-IsQuoted :
      (s s' : Shop) (o : Outcome)
      → do_quote serde chrono line_id engine run input params s ≡ (ok o, s')
      → IsQuoted serde chrono run input o s s'
  unfolding do_quote fresh_transaction insert_transaction
  quote-IsQuoted s s' o h =
      check_passed (ensure (not (is_empty params.items)) invalid_request) s _ h (λ u e₁ h₁.
        check_passed (price_request_items line_id params.items (currency_of input)) s _ h₁
          (λ priced e₂ h₂.
            check_passed (discounted engine params (currency_of input) priced.1) s _ h₂
              (λ reduced e₃ h₃.
                let made : outcome
                      (quote_with run input params priced.0 reduced
                        (fresh_transaction run input quoted))
                      none
                    ≡ o =
                  ok_same (ap (λ r. r.0) h₃) in
                let put = ap (λ r. r.1) h₃ in
                record {
                  id = ap (λ (x : Outcome). x.transaction.id) (sym made);
                  state = ap (λ (x : Outcome). x.transaction.state) (sym made);
                  tenant = ap (λ (x : Outcome). x.transaction.tenant_id) (sym made);
                  unordered = ap (λ (x : Outcome). x.transaction.order_id) (sym made);
                  ends = ap (λ (x : Outcome). x.transaction.quote_expires_at) (sym made);
                  written =
                      sym put
                      ∙ ap
                          (λ (x : Outcome). record s {
                            transactions =
                                insert serde chrono run.inserted s.transactions x.transaction;
                          })
                          made;
                })))

-- A purchase that has succeeded is undone by a quote whose envelope names its transaction, whichever
-- tenant asks: the transaction was completed, and after the quote it is quoted again, belongs to the
-- tenant that asked, has no order and can be bought until the quote ends. The quote succeeds and
-- its write goes through.
pub quote_reopens_bought :
    (serde : Serde Transaction) (chrono : Chrono) (config : Config) (engine : Option Engine)
    (run : Run) (tenant_id : String) (mandate : Option MandateEvaluation) (params : BuyParams)
    (s s' s'' : Shop) (o o' : Outcome) (line_id : ℕ → String) (discounts : Option Discounts)
    (drawn : Draw) (input : IntentInput) (asked : QuoteParams) (now : ℤ)
    → do_buy serde chrono config engine run tenant_id mandate params s ≡ (ok o, s')
    → input.transaction_id ≡ some params.transaction_id
    → do_quote serde chrono line_id discounts drawn input asked s' ≡ (ok o', s'')
    → Accepts serde drawn.inserted s'.transactions o'.transaction
    → now <ℤ drawn.quoted_at +ℤ quote_lifetime
    → (view serde s'.transactions params.transaction_id ≡ some o.transaction)
      × (o.transaction.state ≡ completed)
      × (view serde s''.transactions params.transaction_id ≡ some o'.transaction)
      × IsBuyable o'.transaction now
      × (o'.transaction.tenant_id ≡ input.tenant_id)
      × (o'.transaction.order_id ≡ none)
unfolding insert
quote_reopens_bought serde chrono config engine run tenant_id mandate params s s' s'' o o' line_id
      discounts drawn input asked now h named quoted_again works early =
    let facts = buy-IsBought serde chrono config engine run tenant_id mandate params s s' o h in
    let again =
      quote-IsQuoted serde chrono line_id discounts drawn input asked s' s'' o' quoted_again in
    let id = params.transaction_id in
    let same : o'.transaction.id ≡ id = again.id ∙ ap (λ t. unwrap_or t drawn.id) named in
    (
      facts.kept id
          ∙ ap (λ b. if b then some o.transaction else view serde s.transactions id) (==_refl id),
      ap (λ (t : Transaction). t.state) facts.answered,
      ap (λ (x : Shop). view serde x.transactions id) again.written
          ∙ (insert_written serde drawn.inserted s'.transactions o'.transaction.id o'.transaction
                (index_columns chrono o'.transaction) works id
              ∙ ap (λ b. if b then some o'.transaction else view serde s'.transactions id)
                  (ap (λ i. i == id) same ∙ ==_refl id)),
      inl (
        again.state,
        ap (λ end. is_some_and end (λ expires_at. leb_ℤ expires_at now)) again.ends
            ∙ leb_ℤ_of_gt (drawn.quoted_at +ℤ quote_lifetime) now early,
      ),
      again.tenant,
      again.unordered,
    )
