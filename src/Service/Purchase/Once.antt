-- ===== src/Service/Purchase/Once.antt =====
-- A transaction of src/service/purchase.rs that was bought is not charged again.
use stateset_icp_handler.Prelude.{
  String, ◌≡◌, ◌≢◌, refl, ap, sym, ◌∙◌, subst, true, false, Option, none, some, arith,
  if◌then◌else◌,
}
use stateset_icp_handler.Prelude.Keyed.{string_eq, ==_refl}
use stateset_icp_handler.Errors.{Result, ok, err, panic, ensure, ensure-eq-ok, precondition_failed}
use stateset_icp_handler.Chrono.{Chrono}
use stateset_icp_handler.Models.Transactions.{Transaction, quoted, completed, same_state}
use stateset_icp_handler.Mandate.Evaluate.{MandateEvaluation}
use stateset_icp_handler.StateStore.{Serde}
use stateset_icp_handler.StateStore.Refines.{view}
use stateset_icp_handler.Service.Steps.{Stateful, continue}
use stateset_icp_handler.Service.Payment.{validate_payment_instrument}
use stateset_icp_handler.Service.Parts.{Outcome, Shop, transaction_for_input}
use stateset_icp_handler.Service.Purchase.{
  Config, Engine, Run, BuyParams, AuthorizeParams, ensure_not_subscription_linked, ensure_buyable,
  charge, do_buy, do_authorize,
}
use stateset_icp_handler.Service.Purchase.Bought.{transaction_for_input-ok, buy-IsBought}

-- The call fails, and has changed nothing.
abbrev pub IsRefused : {S B : Type 0} → Result B × S → S → Type 0
IsRefused {B = B} r s = (r.1 ≡ s) × ((b : B) → r.0 ≢ ok b)

pub check-IsRefused :
    {S A B : Type 0} (r : Result A) (s : S) (next : A → Stateful S B)
    → ((a : A) → r ≡ ok a → IsRefused (next a s) s)
    → IsRefused (continue (r, s) next) s
check-IsRefused panic s next h = (refl, λ b e. cc)
check-IsRefused (err x) s next h = (refl, λ b e. cc)
check-IsRefused (ok a) s next h = h a refl

module _ (serde : Serde Transaction) (chrono : Chrono) (s : Shop) (id : String) (t : Transaction)
    (there : view serde s.transactions id ≡ some t) (bought : t.state ≡ completed) where
  found_bought :
      (run : Run) (tenant_id : String) (txn : Transaction)
      → (transaction_for_input serde chrono run.found id tenant_id s).0 ≡ ok txn
      → txn.state ≡ completed
  unfolding transaction_for_input
  found_bought run tenant_id txn e =
      let (found, owned, same) =
        transaction_for_input-ok serde chrono run.found id tenant_id s s txn (ap (λ r. (r, s)) e) in
      ap (λ (o : Option Transaction). elim o [ none ↦ completed | some x ↦ x.state ])
        (sym found ∙ there)
      ∙ bought

  completed-IsRefused :
      (config : Config) (engine : Option Engine) (run : Run) (tenant_id : String)
      (mandate : Option MandateEvaluation) (params : BuyParams) (txn : Transaction)
      → IsRefused
          (continue
            (ensure_buyable serde chrono run txn completed s)
            (λ _. charge serde chrono config engine run tenant_id mandate params txn))
          s
  unfolding ensure_buyable
  completed-IsRefused config engine run tenant_id mandate params txn = (refl, λ b e. cc)

  buy-IsRefused :
      (config : Config) (engine : Option Engine) (run : Run) (tenant_id : String)
      (mandate : Option MandateEvaluation) (params : BuyParams)
      → params.transaction_id ≡ id
      → IsRefused (do_buy serde chrono config engine run tenant_id mandate params s) s
  unfolding do_buy transaction_for_input
  buy-IsRefused config engine run tenant_id mandate params same =
      check-IsRefused (validate_payment_instrument params.payment config.payment_execution_mode) s _
        (λ u₀ e₀.
          check-IsRefused
            (transaction_for_input serde chrono run.found params.transaction_id tenant_id s).0 s _
            (λ txn e₁. check-IsRefused (ensure_not_subscription_linked txn) s _ (λ u₂ e₂.
              let state : txn.state ≡ completed = found_bought run tenant_id txn (
                subst (λ i. (transaction_for_input serde chrono run.found i tenant_id s).0 ≡ ok txn)
                  same e₁) in
              subst
                (λ st.
                  IsRefused
                    (continue (ensure_buyable serde chrono run txn st s)
                      (λ _. charge serde chrono config engine run tenant_id mandate params txn))
                    s)
                (sym state) (completed-IsRefused config engine run tenant_id mandate params txn))))

  authorize-IsRefused :
      (run : Run) (tenant_id : String) (params : AuthorizeParams)
      → params.transaction_id ≡ id
      → IsRefused (do_authorize serde chrono run tenant_id params s) s
  unfolding do_authorize transaction_for_input
  authorize-IsRefused run tenant_id params same =
      check-IsRefused
        (transaction_for_input serde chrono run.found params.transaction_id tenant_id s).0 s _
        (λ txn e₁. check-IsRefused (ensure_not_subscription_linked txn) s _ (λ u₂ e₂.
          check-IsRefused (ensure (same_state txn.state quoted) precondition_failed) s _ (λ u₃ e₃.
            let state : txn.state ≡ completed = found_bought run tenant_id txn (
              subst (λ i. (transaction_for_input serde chrono run.found i tenant_id s).0 ≡ ok txn)
                same e₁) in
            let still = ensure-eq-ok (same_state txn.state quoted) precondition_failed u₃ e₃ in
            let not_quoted : false ≡ true = subst (λ st. same_state st quoted ≡ true) state still in
            absurd (ground arith))))

-- After a purchase that succeeds, the next purchase or authorization of the transaction, made on the
-- state that the purchase left, fails and changes nothing: whatever instrument, mandate, engine and
-- configuration it comes with, whoever asks, and whichever of its accesses fail, the mandates' ledger
-- and the transactions stay as they are.
pub bought_is_charged_once :
    (serde : Serde Transaction) (chrono : Chrono) (config config' : Config)
    (engine engine' : Option Engine) (run run' : Run) (tenant_id tenant_id' : String)
    (mandate mandate' : Option MandateEvaluation) (params params' : BuyParams)
    (again : AuthorizeParams) (s s' : Shop) (o : Outcome)
    → do_buy serde chrono config engine run tenant_id mandate params s ≡ (ok o, s')
    → params'.transaction_id ≡ params.transaction_id
    → again.transaction_id ≡ params.transaction_id
    → IsRefused (do_buy serde chrono config' engine' run' tenant_id' mandate' params' s') s'
      × IsRefused (do_authorize serde chrono run' tenant_id' again s') s'
bought_is_charged_once serde chrono config config' engine engine' run run' tenant_id tenant_id'
      mandate mandate' params params' again s s' o h same same' =
    let facts = buy-IsBought serde chrono config engine run tenant_id mandate params s s' o h in
    let id = params.transaction_id in
    let there : view serde s'.transactions id ≡ some o.transaction =
      facts.kept id
      ∙ ap (λ b. if b then some o.transaction else view serde s.transactions id) (==_refl id) in
    let bought : o.transaction.state ≡ completed =
      ap (λ (t : Transaction). t.state) facts.answered in
    (
      buy-IsRefused serde chrono s' id o.transaction there bought config' engine' run' tenant_id'
          mandate' params' same,
      authorize-IsRefused serde chrono s' id o.transaction there bought run' tenant_id' again same',
    )
