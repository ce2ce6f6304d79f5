-- ===== src/Service/Negotiate/Price.antt =====
-- The price of a counter-offer of src/service/negotiate.rs.
use stateset_icp_handler.Prelude.{
  ℕ, zero, suc, ◌*◌, ◌/◌, ◌≤◌, String, ◌≡◌, ap, sym, ◌∙◌, not, ◌&&◌, is_some_and, Option, none,
  some, arith, if◌then◌else◌,
}
use stateset_icp_handler.Prelude.Int.{ℤ, pos, ◌*ℤ◌, ◌≤ℤ◌}
use stateset_icp_handler.Prelude.Keyed.{==_refl, string_eq}
use stateset_icp_handler.Errors.{Result, ok, ensure, invalid_request, precondition_failed}
use stateset_icp_handler.Chrono.{Chrono}
use stateset_icp_handler.Storage.{Attempt}
use stateset_icp_handler.Pricing.{Money, total_amount_minor}
use stateset_icp_handler.Models.Transactions.{Transaction, quoted, same_state}
use stateset_icp_handler.Mandate.Ledger.{MandateLedger}
use stateset_icp_handler.Mandate.Evaluate.{MandateEvaluation}
use stateset_icp_handler.Mandate.Reserve.{reserve_mandate_spend}
use stateset_icp_handler.StateStore.{Serde}
use stateset_icp_handler.StateStore.Refines.{view, override}
use stateset_icp_handler.Service.Steps.{step_passed, check_passed}
use stateset_icp_handler.Service.Parts.{Outcome, Shop, transaction_for_input, update_transaction}
use stateset_icp_handler.Service.Purchase.{Config, Engine, Run, BuyParams, do_buy}
use stateset_icp_handler.Service.Purchase.Bought.{
  transaction_for_input-ok, update_transaction-ok, buy-IsBought,
}
use stateset_icp_handler.Service.Negotiate.{
  Percent, NegotiateParams, Offers, is_none, new_total_minor, renegotiate_with, do_negotiate,
}

mul_mono : (n a b : ℕ) → a ≤ b → n * a ≤ n * b
mul_mono zero a b h = omega arith
mul_mono (suc n) a b h = omega (arith, mul_mono n a b h)

-- With a percentage that keeps between a tenth and all, the new total is between a tenth and all of the
-- old one, cut to whole units, where that is not negative.
pub discount_bounds :
    (params : NegotiateParams) (original kept : ℕ) (p : Percent) (total : ℤ)
    → params.proposed_total ≡ none
    → params.discount_pct ≡ some p
    → p.kept ≡ pos kept
    → 1000 ≤ kept
    → kept ≤ 10000
    → new_total_minor params (pos original) ≡ ok total
    → (pos (original / 10) ≤ℤ total) × (total ≤ℤ pos original)
unfolding new_total_minor ◌*ℤ◌
discount_bounds params original kept p total none_proposed given is low high h =
    let more = mul_mono original 1000 kept low in
    let less = mul_mono original kept 10000 high in
    let kept_part : total ≡ pos (original * kept / 10000) = ground arith in
    rw kept_part (omega (arith, more, less), omega (arith, more, less))

some_eq : {A : Type 0} {a b : A} → some a ≡ some b → a ≡ b
some_eq e = cc

offer_wins :
    (params : NegotiateParams) (offer : Money) (original total : ℤ)
    → params.proposed_total ≡ some offer
    → new_total_minor params original ≡ ok total
    → (pos 0 ≤ℤ offer.amount_minor) × (total ≡ offer.amount_minor)
unfolding new_total_minor
offer_wins params offer original total e h = ground arith

at_self :
    (id : String) (m : String → Option Transaction) (t : Transaction) → override m id t id ≡ some t
at_self id m t = ap (λ b. if b then some t else m id) (==_refl id)

module _ (serde : Serde Transaction) (chrono : Chrono) where
  -- A counter-offer that succeeds has put the new total on the transaction.
  negotiated :
      (offers : Offers) (found written : Attempt) (tenant_id agent : String) (now : ℤ)
      (params : NegotiateParams) (s s' : Shop) (o : Outcome)
      → do_negotiate serde chrono offers found written tenant_id agent now params s ≡ (ok o, s')
      → (txn : Transaction) × (total : ℤ) × (view serde s.transactions params.transaction_id
          ≡ some txn)
        × (new_total_minor params (total_amount_minor txn.totals) ≡ ok total)
        × (view serde s'.transactions params.transaction_id
            ≡ some (
                renegotiate_with offers params
                  (total_amount_minor txn.totals)
                  total
                  txn.currency
                  agent
                  now
                  txn))
        × (s'.mandates ≡ s.mandates)
  unfolding do_negotiate
  negotiated offers found written tenant_id agent now params s s' o h =
      check_passed
        (ensure (not (is_none params.proposed_total && is_none params.discount_pct))
          invalid_request)
        s _ h
        (λ u₀ e₀ h₀.
          check_passed
            (ensure (not (is_some_and params.discount_pct (λ p. not p.in_range))) invalid_request) s
            _ h₀
            (λ u₁ e₁ h₁.
              step_passed
                (transaction_for_input serde chrono found params.transaction_id tenant_id s) _ h₁
                (λ txn s₂ e₂ h₂.
                  check_passed (ensure (same_state txn.state quoted) precondition_failed) s₂ _ h₂
                    (λ u₃ e₃ h₃.
                      check_passed (new_total_minor params (total_amount_minor txn.totals)) s₂ _ h₃
                        (λ total e₄ h₄.
                          step_passed
                            (update_transaction serde chrono written params.transaction_id
                              (renegotiate_with offers params (total_amount_minor txn.totals) total
                                txn.currency agent now)
                              s₂)
                            _ h₄
                            (λ updated s₅ e₅ h₅.
                              let (there, owned, same₂) =
                                transaction_for_input-ok serde chrono found params.transaction_id
                                  tenant_id s s₂ txn e₂ in
                              let (v, was, changed, after, ledger) =
                                update_transaction-ok serde chrono written params.transaction_id _
                                  s₂ s₅ updated e₅ in
                              let was_there : view serde s.transactions params.transaction_id
                                  ≡ some v =
                                ap (λ (r : Shop). view serde r.transactions params.transaction_id)
                                  (sym same₂)
                                ∙ was in
                              let same : v ≡ txn = cc (there, was_there) in
                              let final : s₅ ≡ s' = ap (λ r. r.1) h₅ in
                              (
                                txn,
                                total,
                                there,
                                e₄,
                                ap (λ (r : Shop). view serde r.transactions params.transaction_id)
                                      (sym final)
                                    ∙ (after params.transaction_id
                                        ∙ (at_self params.transaction_id
                                              (view serde s₂.transactions) _
                                            ∙ ap
                                                (λ t. some (
                                                  renegotiate_with offers params
                                                    (total_amount_minor txn.totals) total
                                                    txn.currency agent now t))
                                                same)),
                                ap (λ (r : Shop). r.mandates) (sym final)
                                    ∙ (ledger ∙ ap (λ (r : Shop). r.mandates) same₂),
                              )))))))

  same_charge :
      (a : Attempt) (mandate : Option MandateEvaluation) (tenant_id : String) (at : ℤ)
      (r : Result (Unit {0}) × MandateLedger) (l l' : MandateLedger) (x y : ℤ) (c d : String)
      → l ≡ l'
      → x ≡ y
      → c ≡ d
      → reserve_mandate_spend chrono a l mandate tenant_id x c at ≡ r
      → reserve_mandate_spend chrono a l' mandate tenant_id y d at ≡ r
  same_charge a mandate tenant_id at r l l' x y c d e f g h = cc

  -- What a buyer offers is what the purchase that follows charges: after a counter-offer that proposes
  -- a total and succeeds, that total is not negative, and a purchase of the transaction that succeeds
  -- puts exactly it on the mandate's ledger, however small it is.
  pub offer_is_charged :
      (offers : Offers) (found written : Attempt) (tenant_id agent : String) (now : ℤ)
      (params : NegotiateParams) (offer : Money) (config : Config) (engine : Option Engine)
      (run : Run) (mandate : Option MandateEvaluation) (buy : BuyParams) (s s₁ s₂ : Shop)
      (o o' : Outcome)
      → do_negotiate serde chrono offers found written tenant_id agent now params s ≡ (ok o, s₁)
      → params.proposed_total ≡ some offer
      → buy.transaction_id ≡ params.transaction_id
      → do_buy serde chrono config engine run tenant_id mandate buy s₁ ≡ (ok o', s₂)
      → (pos 0 ≤ℤ offer.amount_minor)
        × (reserve_mandate_spend chrono run.spent s.mandates mandate tenant_id offer.amount_minor
              o'.transaction.currency run.spent_at
            ≡ (ok tt, s₂.mandates))
  unfolding total_amount_minor
  offer_is_charged offers found written tenant_id agent now params offer config engine run mandate
        buy s s₁ s₂ o o' h proposed same h' =
      let (txn, total, there, priced, after, ledger) =
        negotiated offers found written tenant_id agent now params s s₁ o h in
      let facts = buy-IsBought serde chrono config engine run tenant_id mandate buy s₁ s₂ o' h' in
      let there' : view serde s₁.transactions params.transaction_id ≡ some facts.txn =
        ap (view serde s₁.transactions) (sym same) ∙ facts.there in
      let found = some_eq (sym there' ∙ after) in
      let (not_negative, price) =
        offer_wins params offer (total_amount_minor txn.totals) total proposed priced in
      let amount : total_amount_minor facts.txn.totals ≡ offer.amount_minor =
        ap (λ (t : Transaction). total_amount_minor t.totals) found ∙ price in
      let currency : facts.txn.currency ≡ o'.transaction.currency =
        sym (ap (λ (t : Transaction). t.currency) facts.answered) in
      (
        not_negative,
        same_charge run.spent mandate tenant_id run.spent_at _ s₁.mandates s.mandates _ _ _ _ ledger
            amount currency facts.charged,
      )
