-- ===== src/Service/States/Handlers.antt =====
-- Each handler of src/service moves the states of transactions along the relation.
use stateset_icp_handler.Prelude.{
  String, ◌≡◌, ◌⊎◌, inl, inr, ap, sym, ◌∙◌, subst, not, ◌&&◌, Option, none, some, is_some_and,
}
use stateset_icp_handler.Prelude.Int.{ℤ}
use stateset_icp_handler.Prelude.Keyed.{string_eq, get as entry}
use stateset_icp_handler.Errors.{
  ok, ensure, ensure-eq-ok, ok_or, precondition_failed, invalid_request,
}
use stateset_icp_handler.Chrono.{Chrono}
use stateset_icp_handler.Storage.{Attempt}
use stateset_icp_handler.Pricing.{total_amount_minor}
use stateset_icp_handler.Models.Transactions.{
  Transaction, TransactionState, draft, quoted, authorized, captured, fulfilled, completed,
  reversed, canceled, expired, same_state,
}
use stateset_icp_handler.Mandate.Evaluate.{MandateEvaluation}
use stateset_icp_handler.StateStore.{Serde}
use stateset_icp_handler.StateStore.Refines.{view}
use stateset_icp_handler.Service.Steps.{continue, lift}
use stateset_icp_handler.Service.Payment.{validate_payment_instrument}
use stateset_icp_handler.Service.Parts.{
  Outcome, Shop, transaction_for_input, update_transaction, ensure_quote_open, reserve_spend,
}
use stateset_icp_handler.Service.Purchase.{
  Config, Engine, Run, BuyParams, AuthorizeParams, ensure_not_subscription_linked, ensure_buyable,
  persist_order_for_transaction, complete_with, authorize_with, charge, do_buy, do_authorize,
  outcome,
}
use stateset_icp_handler.Service.Purchase.Bought.{
  transaction_for_input-ok, ensure_quote_open-ok, ensure_buyable-ok,
}
use stateset_icp_handler.Service.Negotiate.{
  NegotiateParams, ConfirmReceiptParams, Offers, is_none, is_paid, new_total_minor,
  renegotiate_with, confirm_with, do_negotiate, do_confirm_receipt,
}
use stateset_icp_handler.Service.Orders.{do_return, reverse_at}
use stateset_icp_handler.Service.States.{
  Reach, stays, moves_on, authorizes, buys_quoted, buys_authorized, reverses, Moves, Moves-refl,
  continue-Moves, check-Moves, write-Moves, quote_open-Moves, is_quoted, some_same,
}

module _ (serde : Serde Transaction) (chrono : Chrono) where
  -- What was read is what is there when the change is written.
  same_read :
      (a : Attempt) (id tenant_id : String) (s : Shop) (txn v : Transaction)
      → (transaction_for_input serde chrono a id tenant_id s).0 ≡ ok txn
      → view serde s.transactions id ≡ some v
      → txn ≡ v
  unfolding transaction_for_input
  same_read a id tenant_id s txn v e h =
      let (there, owned, same) =
        transaction_for_input-ok serde chrono a id tenant_id s s txn (ap (λ r. (r, s)) e) in
      some_same (sym there ∙ h)

  last-Moves :
      (a : Attempt) (id : String) (f : Transaction → Transaction) (out : Transaction → Outcome)
      (s : Shop)
      → ((v : Transaction) → view serde s.transactions id ≡ some v → Reach v.state (f v).state)
      → Moves serde chrono s.transactions
          (continue
            (update_transaction serde chrono a id f s)
            (λ t. lift (ok (out t)))).1.transactions
  last-Moves a id f out s moves =
      continue-Moves serde chrono (update_transaction serde chrono a id f s) _ s
        (write-Moves serde chrono a id f s moves) (λ t e. Moves-refl serde chrono _)

  pub authorize-Moves :
      (run : Run) (tenant_id : String) (params : AuthorizeParams) (s : Shop)
      → Moves serde chrono s.transactions
          (do_authorize serde chrono run tenant_id params s).1.transactions
  unfolding do_authorize transaction_for_input ensure_quote_open
  authorize-Moves run tenant_id params s =
      check-Moves serde chrono
        (transaction_for_input serde chrono run.found params.transaction_id tenant_id s).0 _ s
        (λ txn e₁. check-Moves serde chrono (ensure_not_subscription_linked txn) _ s (λ u₂ e₂.
          check-Moves serde chrono (ensure (same_state txn.state quoted) precondition_failed) _ s
            (λ u₃ e₃.
              continue-Moves serde chrono
                (ensure_quote_open serde chrono run.expired txn run.checked_at s) _ s
                (quote_open-Moves serde chrono run.expired txn run.checked_at s)
                (λ u₄ e₄.
                  let (opened, same) =
                    ensure_quote_open-ok serde chrono run.expired txn run.checked_at s
                      (ensure_quote_open serde chrono run.expired txn run.checked_at s).1 u₄
                      (ap
                        (λ r.
                          (r, (ensure_quote_open serde chrono run.expired txn run.checked_at s).1))
                        e₄) in
                  last-Moves run.written params.transaction_id
                    (authorize_with params run.written_at) (λ t. outcome t none) _
                    (λ v h.
                      subst (λ st. Reach st authorized)
                        (sym (
                            is_quoted txn.state
                              (ensure-eq-ok (same_state txn.state quoted) _ u₃ e₃))
                          ∙ ap (λ (t : Transaction). t.state)
                              (same_read run.found params.transaction_id tenant_id s txn v e₁ (
                                ap (λ (r : Shop). view serde r.transactions params.transaction_id)
                                  (sym same)
                                ∙ h)))
                        (moves_on stays authorizes))))))

  buyable_completes :
      (st : TransactionState) (P : Type 0)
      → ((st ≡ quoted) × P) ⊎ (st ≡ authorized)
      → Reach st completed
  buyable_completes st P (inl (e, p)) =
      subst (λ x. Reach x completed) (sym e) (moves_on stays buys_quoted)
  buyable_completes st P (inr e) =
      subst (λ x. Reach x completed) (sym e) (moves_on stays buys_authorized)

  buyable-Moves :
      (run : Run) (txn : Transaction) (st : TransactionState) (s : Shop)
      → Moves serde chrono s.transactions (ensure_buyable serde chrono run txn st s).1.transactions
  unfolding ensure_buyable
  buyable-Moves run txn quoted s = quote_open-Moves serde chrono run.expired txn run.checked_at s
  buyable-Moves run txn authorized s = Moves-refl serde chrono s.transactions
  buyable-Moves run txn draft s = Moves-refl serde chrono s.transactions
  buyable-Moves run txn captured s = Moves-refl serde chrono s.transactions
  buyable-Moves run txn fulfilled s = Moves-refl serde chrono s.transactions
  buyable-Moves run txn completed s = Moves-refl serde chrono s.transactions
  buyable-Moves run txn reversed s = Moves-refl serde chrono s.transactions
  buyable-Moves run txn canceled s = Moves-refl serde chrono s.transactions
  buyable-Moves run txn expired s = Moves-refl serde chrono s.transactions

  charge-Moves :
      (config : Config) (engine : Option Engine) (run : Run) (tenant_id : String)
      (mandate : Option MandateEvaluation) (params : BuyParams) (txn : Transaction) (s : Shop)
      → ((v : Transaction)
          → view serde s.transactions params.transaction_id ≡ some v
          → Reach v.state completed)
      → Moves serde chrono s.transactions
          (charge serde chrono config engine run tenant_id mandate params txn s).1.transactions
  unfolding charge reserve_spend
  charge-Moves config engine run tenant_id mandate params txn s ready =
      continue-Moves serde chrono
        (reserve_spend serde chrono run.spent mandate tenant_id (total_amount_minor txn.totals)
          txn.currency run.spent_at s)
        _ s (Moves-refl serde chrono s.transactions)
        (λ u₁ e₁.
          check-Moves serde chrono (persist_order_for_transaction config engine txn) _ _
            (λ order e₂.
              last-Moves run.written params.transaction_id (complete_with order run.written_at)
                (λ t. outcome t order) _ ready))

  pub buy-Moves :
      (config : Config) (engine : Option Engine) (run : Run) (tenant_id : String)
      (mandate : Option MandateEvaluation) (params : BuyParams) (s : Shop)
      → Moves serde chrono s.transactions
          (do_buy serde chrono config engine run tenant_id mandate params s).1.transactions
  unfolding do_buy transaction_for_input
  buy-Moves config engine run tenant_id mandate params s =
      check-Moves serde chrono
        (validate_payment_instrument params.payment config.payment_execution_mode) _ s
        (λ u₀ e₀.
          check-Moves serde chrono
            (transaction_for_input serde chrono run.found params.transaction_id tenant_id s).0 _ s
            (λ txn e₁. check-Moves serde chrono (ensure_not_subscription_linked txn) _ s (λ u₂ e₂.
              continue-Moves serde chrono (ensure_buyable serde chrono run txn txn.state s) _ s
                (buyable-Moves run txn txn.state s)
                (λ u₃ e₃.
                  let s₃ = (ensure_buyable serde chrono run txn txn.state s).1 in
                  let (buyable, same) =
                    ensure_buyable-ok serde chrono run txn txn.state s s₃ u₃
                      (ap (λ r. (r, s₃)) e₃) in
                  charge-Moves config engine run tenant_id mandate params txn s₃ (λ v h.
                    subst (λ (t : Transaction). Reach t.state completed)
                      (same_read run.found params.transaction_id tenant_id s txn v e₁ (
                        ap (λ (r : Shop). view serde r.transactions params.transaction_id)
                          (sym same)
                        ∙ h))
                      (buyable_completes txn.state _ buyable))))))

  pub negotiate-Moves :
      (offers : Offers) (found written : Attempt) (tenant_id agent : String) (now : ℤ)
      (params : NegotiateParams) (s : Shop)
      → Moves serde chrono s.transactions
          (do_negotiate serde chrono offers found written tenant_id agent now params
            s).1.transactions
  unfolding do_negotiate transaction_for_input
  negotiate-Moves offers found written tenant_id agent now params s =
      check-Moves serde chrono
        (ensure (not (is_none params.proposed_total && is_none params.discount_pct))
          invalid_request)
        _ s
        (λ u₀ e₀.
          check-Moves serde chrono
            (ensure (not (is_some_and params.discount_pct (λ p. not p.in_range))) invalid_request) _
            s
            (λ u₁ e₁.
              check-Moves serde chrono
                (transaction_for_input serde chrono found params.transaction_id tenant_id s).0 _ s
                (λ txn e₂.
                  check-Moves serde chrono
                    (ensure (same_state txn.state quoted) precondition_failed) _ s
                    (λ u₃ e₃.
                      check-Moves serde chrono
                        (new_total_minor params (total_amount_minor txn.totals)) _ s
                        (λ total e₄.
                          last-Moves written params.transaction_id
                            (renegotiate_with offers params (total_amount_minor txn.totals) total
                              txn.currency agent now)
                            (λ t. outcome t none) s (λ v h. stays))))))

  pub confirm-Moves :
      (found written : Attempt) (tenant_id agent : String) (now : ℤ) (params : ConfirmReceiptParams)
      (s : Shop)
      → Moves serde chrono s.transactions
          (do_confirm_receipt serde chrono found written tenant_id agent now params
            s).1.transactions
  unfolding do_confirm_receipt transaction_for_input
  confirm-Moves found written tenant_id agent now params s =
      check-Moves serde chrono
        (transaction_for_input serde chrono found params.transaction_id tenant_id s).0 _ s
        (λ txn e₁.
          check-Moves serde chrono (ensure (is_paid txn.state) precondition_failed) _ s (λ u₂ e₂.
            check-Moves serde chrono
              (ensure (is_none (entry "receipt_confirmed_at" txn.external_refs))
                precondition_failed)
              _ s
              (λ u₃ e₃.
                last-Moves written params.transaction_id (confirm_with chrono params agent now)
                  (λ t. outcome t none) s (λ v h. stays))))

  pub return-Moves :
      (found written : Attempt) (tenant_id : String) (now : ℤ) (id : Option String) (s : Shop)
      → Moves serde chrono s.transactions
          (do_return serde chrono found written tenant_id now id s).1.transactions
  unfolding do_return transaction_for_input
  return-Moves found written tenant_id now id s =
      check-Moves serde chrono (ok_or id invalid_request) _ s (λ i e₀.
        check-Moves serde chrono (transaction_for_input serde chrono found i tenant_id s).0 _ s
          (λ txn e₁.
            last-Moves written i (reverse_at now) (λ t. outcome t none) s
              (λ v h. moves_on stays (reverses v.state))))
