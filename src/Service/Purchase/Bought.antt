-- ===== src/Service/Purchase/Bought.antt =====
-- What a purchase of src/service/purchase.rs has done when it succeeds.
use stateset_icp_handler.Prelude.{
  String, ◌≡◌, ◌⊎◌, inl, inr, refl, ap, ap₂, sym, ◌∙◌, subst, false, Option, some, Bool-cases,
  is_some_and, arith,
}
use stateset_icp_handler.Prelude.Int.{ℤ, leb_ℤ}
use stateset_icp_handler.Prelude.Keyed.{◌==◌, string_eq}
use stateset_icp_handler.Errors.{ok, ok_or-bind, ok_or-eq-ok}
use stateset_icp_handler.Chrono.{Chrono}
use stateset_icp_handler.Storage.{Attempt}
use stateset_icp_handler.Pricing.{total_amount_minor}
use stateset_icp_handler.Models.Transactions.{
  Transaction, TransactionState, draft, quoted, authorized, captured, fulfilled, completed,
  reversed, canceled, expired,
}
use stateset_icp_handler.Mandate.Evaluate.{MandateEvaluation}
use stateset_icp_handler.Mandate.Reserve.{reserve_mandate_spend}
use stateset_icp_handler.StateStore.{Serde, JsonStore, memory, sqlite, get}
use stateset_icp_handler.StateStore.Refines.{view, override}
use stateset_icp_handler.StateStore.Atomic.{update_all_or_nothing}
use stateset_icp_handler.StateStore.Transactions.{update, index_columns}
use stateset_icp_handler.Service.Steps.{step_passed, check_passed}
use stateset_icp_handler.Service.Payment.{validate_payment_instrument}
use stateset_icp_handler.Service.Parts.{
  OrderSummary, Outcome, Shop, transaction_for_input, update_transaction, ensure_quote_open,
  reserve_spend, owned_by,
}
use stateset_icp_handler.Service.Purchase.{
  Config, Engine, Run, BuyParams, ensure_not_subscription_linked, complete_with, ensure_buyable,
  charge, do_buy, persist_order_for_transaction, outcome,
}

pair_eq_of : {A B : Type 0} {a c : A} {b d : B} → a ≡ c → b ≡ d → ◌≡◌ {A = A × B} (a, b) (c, d)
pair_eq_of e f = ap₂ (λ x y. (x, y)) e f

-- The quote has no end, or its end is still to come.
abbrev pub IsOpen : Transaction → ℤ → Type 0
IsOpen txn now = is_some_and txn.quote_expires_at (λ expires_at. leb_ℤ expires_at now) ≡ false

abbrev pub IsBuyable : Transaction → ℤ → Type 0
IsBuyable txn now = ((txn.state ≡ quoted) × IsOpen txn now) ⊎ (txn.state ≡ authorized)

module _ (serde : Serde Transaction) (chrono : Chrono) where
  -- A read gives what the store holds, or fails.
  get-view :
      (a : Attempt) (s : JsonStore Transaction) (id : String) (txn : Transaction)
      → get serde a s id ≡ some txn
      → view serde s id ≡ some txn
  unfolding get
  get-view a (memory m) id txn h = ground arith
  get-view a (sqlite t) id txn h = ground arith

  owned_by-ok :
      (tenant_id : String) (t txn : Transaction)
      → owned_by tenant_id t ≡ ok txn
      → (t ≡ txn) × (txn.tenant_id ≡ tenant_id)
  owned_by-ok tenant_id t txn h = elim (Bool-cases (t.tenant_id == tenant_id)) [
    | inl e ↦
        let same : t ≡ txn = ground arith in
        (same, subst (λ u. u.tenant_id ≡ tenant_id) same ((string_eq.same_iff _ _).0 e))
    | inr e ↦ absurd (ground arith)
  ]

  pub transaction_for_input-ok :
      (a : Attempt) (id tenant_id : String) (s s' : Shop) (txn : Transaction)
      → transaction_for_input serde chrono a id tenant_id s ≡ (ok txn, s')
      → (view serde s.transactions id ≡ some txn) × (txn.tenant_id ≡ tenant_id) × (s' ≡ s)
  unfolding transaction_for_input
  transaction_for_input-ok a id tenant_id s s' txn h =
      let (t, read, owned) =
        ok_or-bind (get serde a s.transactions id) _ (owned_by tenant_id) (ap (λ r. r.0) h) in
      let (same, tenant) = owned_by-ok tenant_id t txn owned in
      (get-view a s.transactions id txn (read ∙ ap some same), tenant, sym (ap (λ r. r.1) h))

  pub update_transaction-ok :
      (a : Attempt) (id : String) (f : Transaction → Transaction) (s s' : Shop) (t : Transaction)
      → update_transaction serde chrono a id f s ≡ (ok t, s')
      → (v : Transaction) × (view serde s.transactions id ≡ some v)
        × (t ≡ f v)
        × ((j : String)
            → view serde s'.transactions j ≡ override (view serde s.transactions) id (f v) j)
        × (s'.mandates ≡ s.mandates)
  unfolding update_transaction update
  update_transaction-ok a id f s s' t h =
      let answered = ok_or-eq-ok _ _ (ap (λ r. r.0) h) in
      elim (update_all_or_nothing serde (index_columns chrono) a s.transactions id f) [
        | inl (missing, kept) ↦ absurd (ground arith)
        | inr (v, found, changed, after) ↦ (
          v,
          found,
          ground arith,
          λ j. ap (λ (r : Shop). view serde r.transactions j) (sym (ap (λ r. r.1) h)) ∙ after j,
          ap (λ (r : Shop). r.mandates) (sym (ap (λ r. r.1) h)),
        )
      ]

  pub ensure_quote_open-ok :
      (a : Attempt) (txn : Transaction) (now : ℤ) (s s' : Shop) (u : Unit {0})
      → ensure_quote_open serde chrono a txn now s ≡ (ok u, s')
      → IsOpen txn now × (s' ≡ s)
  unfolding ensure_quote_open
  ensure_quote_open-ok a txn now s s' u h =
      elim (Bool-cases (is_some_and txn.quote_expires_at (λ expires_at. leb_ℤ expires_at now))) [
        | inl e ↦ absurd (ground arith)
        | inr e ↦ (e, ground arith)
      ]

  pub ensure_buyable-ok :
      (run : Run) (txn : Transaction) (state : TransactionState) (s s' : Shop) (u : Unit {0})
      → ensure_buyable serde chrono run txn state s ≡ (ok u, s')
      → (((state ≡ quoted) × IsOpen txn run.checked_at) ⊎ (state ≡ authorized)) × (s' ≡ s)
  unfolding ensure_buyable
  ensure_buyable-ok run txn quoted s s' u h =
      let (opened, same) = ensure_quote_open-ok run.expired txn run.checked_at s s' u h in
      (inl (refl, opened), same)
  ensure_buyable-ok run txn authorized s s' u h = (inr refl, sym (ap (λ r. r.1) h))
  ensure_buyable-ok run txn draft s s' u h = cc
  ensure_buyable-ok run txn captured s s' u h = cc
  ensure_buyable-ok run txn fulfilled s s' u h = cc
  ensure_buyable-ok run txn completed s s' u h = cc
  ensure_buyable-ok run txn reversed s s' u h = cc
  ensure_buyable-ok run txn canceled s s' u h = cc
  ensure_buyable-ok run txn expired s s' u h = cc

-- What a purchase has checked, charged and written.
pub record IsBought (serde : Serde Transaction) (chrono : Chrono) (config : Config) (run : Run)
    (tenant_id : String) (mandate : Option MandateEvaluation) (params : BuyParams) (o : Outcome)
    (s s' : Shop) : Type 0 where
  pub txn : Transaction
  pub payable : validate_payment_instrument params.payment config.payment_execution_mode ≡ ok tt
  pub there : view serde s.transactions params.transaction_id ≡ some txn
  pub owned : txn.tenant_id ≡ tenant_id
  pub unlinked : ensure_not_subscription_linked txn ≡ ok tt
  pub buyable : IsBuyable txn run.checked_at
  pub charged :
      reserve_mandate_spend chrono run.spent s.mandates mandate tenant_id
        (total_amount_minor txn.totals)
        txn.currency
        run.spent_at
      ≡ (ok tt, s'.mandates)
  pub answered : o.transaction ≡ complete_with o.order run.written_at txn
  pub kept :
      (id : String)
      → view serde s'.transactions id
        ≡ override (view serde s.transactions) params.transaction_id o.transaction id

module _ (serde : Serde Transaction) (chrono : Chrono) (config : Config) (engine : Option Engine)
    (run : Run) (tenant_id : String) (mandate : Option MandateEvaluation) (params : BuyParams) where
  after_written :
      (txn : Transaction) (s s₁ s₃ s' : Shop) (order : Option OrderSummary) (v : Transaction)
      (o : Outcome) (id : String)
      → s₁.transactions ≡ s.transactions
      → s₃ ≡ s'
      → o.transaction ≡ complete_with order run.written_at v
      → view serde s₃.transactions id
        ≡ override
            (view serde s₁.transactions)
            params.transaction_id
            (complete_with order run.written_at v)
            id
      → view serde s'.transactions id
        ≡ override (view serde s.transactions) params.transaction_id o.transaction id
  after_written txn s s₁ s₃ s' order v o id same_store final back h =
      sym (ap (λ (r : Shop). view serde r.transactions id) final)
      ∙ (h
          ∙ ap₂
              (λ (st : JsonStore Transaction) (t : Transaction).
                override (view serde st) params.transaction_id t id)
              same_store (sym back))

  -- From the charge on, with the transaction that was found.
  charged_and_written :
      (txn : Transaction) (s s' : Shop) (o : Outcome)
      → validate_payment_instrument params.payment config.payment_execution_mode ≡ ok tt
      → view serde s.transactions params.transaction_id ≡ some txn
      → txn.tenant_id ≡ tenant_id
      → ensure_not_subscription_linked txn ≡ ok tt
      → IsBuyable txn run.checked_at
      → charge serde chrono config engine run tenant_id mandate params txn s ≡ (ok o, s')
      → IsBought serde chrono config run tenant_id mandate params o s s'
  unfolding charge reserve_spend
  charged_and_written txn s s' o payable there owned unlinked buyable h =
      step_passed
        (reserve_spend serde chrono run.spent mandate tenant_id (total_amount_minor txn.totals)
          txn.currency run.spent_at s)
        _ h
        (λ u₁ s₁ e₁ h₁.
          check_passed (persist_order_for_transaction config engine txn) s₁ _ h₁ (λ order e₂ h₂.
            step_passed
              (update_transaction serde chrono run.written params.transaction_id
                (complete_with order run.written_at) s₁)
              _ h₂
              (λ bought s₃ e₃ h₃.
                let (v, found, written, after, ledger) =
                  update_transaction-ok serde chrono run.written params.transaction_id
                    (complete_with order run.written_at) s₁ s₃ bought e₃ in
                let same_store = ap (λ (r : Shop). r.transactions) (sym (ap (λ r. r.1) e₁)) in
                let found_there : view serde s.transactions params.transaction_id ≡ some v =
                  subst (λ st. view serde st params.transaction_id ≡ some v) same_store found in
                let same : v ≡ txn = cc (there, found_there) in
                let answer : outcome bought order ≡ o = cc h₃ in
                let final : s₃ ≡ s' = ap (λ r. r.1) h₃ in
                let back : o.transaction ≡ complete_with order run.written_at v =
                  ap (λ (x : Outcome). x.transaction) (sym answer) ∙ written in
                record {
                  txn = txn;
                  payable = payable;
                  there = there;
                  owned = owned;
                  unlinked = unlinked;
                  buyable = buyable;
                  charged = pair_eq_of (ap (λ r. r.0) e₁) (
                      ap (λ r. r.1.mandates) e₁
                      ∙ (sym ledger ∙ ap (λ (r : Shop). r.mandates) final));
                  answered =
                      back
                      ∙ ap₂ (λ x y. complete_with x run.written_at y)
                          (ap (λ (x : Outcome). x.order) answer) same;
                  kept = λ id.
                      after_written txn s s₁ s₃ s' order v o id same_store final back (after id);
                })))

  -- A purchase that succeeds was made with a complete payment instrument, on a transaction of the
  -- tenant that belongs to no subscription and is authorized or quoted with its quote open; it has
  -- put the transaction's total on the mandate's ledger, and written the transaction as completed
  -- with its order's id, and no other transaction.
  pub buy-IsBought :
      (s s' : Shop) (o : Outcome)
      → do_buy serde chrono config engine run tenant_id mandate params s ≡ (ok o, s')
      → IsBought serde chrono config run tenant_id mandate params o s s'
  unfolding do_buy
  buy-IsBought s s' o h =
      check_passed (validate_payment_instrument params.payment config.payment_execution_mode) s _ h
        (λ u₀ e₀ h₀.
          step_passed
            (transaction_for_input serde chrono run.found params.transaction_id tenant_id s) _ h₀
            (λ txn s₁ e₁ h₁. check_passed (ensure_not_subscription_linked txn) s₁ _ h₁ (λ u₂ e₂ h₂.
              step_passed (ensure_buyable serde chrono run txn txn.state s₁) _ h₂ (λ u₃ s₃ e₃ h₃.
                let (there, owned, same₁) =
                  transaction_for_input-ok serde chrono run.found params.transaction_id tenant_id s
                    s₁ txn e₁ in
                let (buyable, same₃) =
                  ensure_buyable-ok serde chrono run txn txn.state s₁ s₃ u₃ e₃ in
                charged_and_written txn s s' o e₀ there owned e₂ buyable (
                  subst
                    (λ t.
                      charge serde chrono config engine run tenant_id mandate params txn t
                      ≡ (ok o, s'))
                    (same₃ ∙ same₁) h₃)))))
