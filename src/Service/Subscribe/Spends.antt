-- ===== src/Service/Subscribe/Spends.antt =====
-- What the handlers of src/service/subscriptions.rs leave behind when they fail.
use stateset_icp_handler.Prelude.{
  ℕ, zero, suc, ◌<◌, String, ◌≡◌, refl, ap, sym, ◌∙◌, true, false, Option, none, some, List, arith,
  inl, inr, is_empty, unwrap_or, leb,
}
use stateset_icp_handler.Prelude.Int.{ℤ, pos, ◌+ℤ◌, ◌-ℤ◌, ◌≤ℤ◌, ◌<ℤ◌, leb_ℤ_of_gt}
use stateset_icp_handler.Errors.{ok, err, panic, invalid_request}
use stateset_icp_handler.Chrono.{Chrono}
use stateset_icp_handler.Pricing.{
  RequestItem, LineItem, Totals, price_request_items, total_amount_minor,
}
use stateset_icp_handler.Models.Parties.{Address, Buyer}
use stateset_icp_handler.Models.Transactions.{Transaction, completed}
use stateset_icp_handler.Models.Subscriptions.{Subscription}
use stateset_icp_handler.Mandate.Evaluate.{MandateEvaluation, budget_window}
use stateset_icp_handler.Prelude.Word.{IsI64}
use stateset_icp_handler.Mandate.Ledger.Budget.{IsWithin, usage_in}
use stateset_icp_handler.Mandate.Reserve.{limits_of, reserve_mandate_spend}
use stateset_icp_handler.Mandate.Reserve.Gains.{reserve_adds}
use stateset_icp_handler.StateStore.{Serde, JsonStore}
use stateset_icp_handler.StateStore.Transactions.{insert}
use stateset_icp_handler.StateStore.Refines.{view}
use stateset_icp_handler.StateStore.Atomic.{update_all_or_nothing}
use stateset_icp_handler.StateStore.Subscriptions.{update, index_columns}
use stateset_icp_handler.Service.Steps.{check_passed}
use stateset_icp_handler.Service.Payment.{validate_payment_instrument}
use stateset_icp_handler.Service.Parts.{OrderSummary, Shop, reserve_spend}
use stateset_icp_handler.Service.Purchase.{Config, Engine, persist_order_for_transaction}
use stateset_icp_handler.Service.Renewals.{Months}
use stateset_icp_handler.Service.Gate.{IntentInput}
use stateset_icp_handler.Service.Subscribe.{
  SubscribeParams, RenewParams, Plans, BillingRun, trial_of, max_trial_days, is_renewable,
  renewed_by, subscription_for_input, update_subscription,
}
use stateset_icp_handler.Service.Subscribe.Handlers.{
  do_renew, do_subscribe, enroll, subscribe_on_trial, run_subscription_charge,
}

module _ (transactions : Serde Transaction) (subscriptions : Serde Subscription) (chrono : Chrono)
    (add_months : Months) (add_signed : ℤ → ℤ → Option ℤ) (line_id : ℕ → String) (config : Config)
    (engine : Option Engine) (mandate : Option MandateEvaluation) (run : BillingRun)
    (input : IntentInput) where
  too_long :
      (params : SubscribeParams) (currency : String) (preview : List LineItem × Totals)
      (trial_days : Option ℕ) (n : ℕ) (s : Plans)
      → trial_days ≡ some n
      → max_trial_days < n
      → enroll transactions subscriptions chrono add_months add_signed line_id config engine mandate
          run input params currency preview
          (trial_of trial_days)
          s
        ≡ (err invalid_request, s)
  unfolding subscribe_on_trial
  too_long params currency preview none n s e long = cc
  too_long params currency preview (some zero) n s e long = absurd (ground arith)
  too_long params currency preview (some (suc d)) n s e long =
      let over : leb (suc d) max_trial_days ≡ false = ground arith in rw over refl

  -- The currency of a request.
  abbrev asked_in : String
  asked_in = unwrap_or input.currency "USD"

  refused_trial :
      (params : SubscribeParams) (preview : List LineItem × Totals) (n : ℕ) (s : Plans)
      (shop : Shop)
      → is_empty params.items ≡ false
      → validate_payment_instrument params.payment config.payment_execution_mode ≡ ok tt
      → price_request_items line_id params.items asked_in ≡ ok preview
      → params.trial_days ≡ some n
      → max_trial_days < n
      → reserve_spend transactions chrono run.spent mandate input.tenant_id
          (total_amount_minor preview.1)
          asked_in
          run.spent_at
          s.shop
        ≡ (ok tt, shop)
      → do_subscribe transactions subscriptions chrono add_months add_signed line_id config engine
          mandate run input params s
        ≡ (err invalid_request, record s { shop = shop })
  unfolding do_subscribe
  refused_trial params preview n s shop some_items valid priced trial long reserved =
      rw (some_items, do_subscribe)
        (rw (valid, do_subscribe)
          (rw (priced, do_subscribe)
            (rw (reserved, do_subscribe)
              (too_long params asked_in preview params.trial_days n (record s { shop = shop }) trial
                long))))

  -- A subscription that asks for a trial of more than 366 days is refused as invalid and changes
  -- neither the transactions nor the subscriptions, but the mandate's ledger then holds the amount of
  -- its first charge on top of what was spent before. The request has items and a complete payment
  -- instrument, its items are priced at more than zero, and the reservation of that amount succeeds,
  -- under a mandate whose budget is kept in the window in which the charge falls.
  pub refused_trial_spends :
      (params : SubscribeParams) (preview : List LineItem × Totals) (n : ℕ) (s : Plans)
      (ev : MandateEvaluation) (start window : ℤ)
      → mandate ≡ some ev
      → is_empty params.items ≡ false
      → validate_payment_instrument params.payment config.payment_execution_mode ≡ ok tt
      → price_request_items line_id params.items asked_in ≡ ok preview
      → params.trial_days ≡ some n
      → 366 < n
      → pos 0 <ℤ total_amount_minor preview.1
      → budget_window chrono ev.payload.icp.budget ≡ ok window
      → IsI64 ev.payload.icp.budget.amount_minor
      → run.spent_at -ℤ start ≤ℤ window
      → IsWithin start
          (limits_of ev.payload.icp.budget window)
          (usage_in chrono s.shop.mandates ev.payload.jti)
      → (reserve_mandate_spend chrono run.spent s.shop.mandates mandate input.tenant_id
          (total_amount_minor preview.1)
          asked_in
          run.spent_at).0
        ≡ ok tt
      → let (answer, after) =
          do_subscribe transactions subscriptions chrono add_months add_signed line_id config engine
            mandate run input params s in
        (answer ≡ err invalid_request)
        × ((usage_in chrono after.shop.mandates ev.payload.jti).spent_minor
            ≡ (usage_in chrono s.shop.mandates ev.payload.jti).spent_minor
              +ℤ total_amount_minor preview.1)
        × (after.shop.transactions ≡ s.shop.transactions)
        × (after.subscriptions ≡ s.subscriptions)
  unfolding reserve_spend
  refused_trial_spends params preview n s ev start window under some_items valid priced trial long
        costs read budget inside within reserved =
      let amount = total_amount_minor preview.1 in
      let (reserving, ledger) =
        reserve_mandate_spend chrono run.spent s.shop.mandates mandate input.tenant_id amount
          asked_in run.spent_at in
      let shop : Shop = record (s.shop) { mandates = ledger } in
      let done =
        refused_trial params preview n s shop some_items valid priced trial long
          (ap (λ r. (r, shop)) reserved) in
      let spent =
        reserve_adds chrono run.spent s.shop.mandates ev input.tenant_id amount asked_in
          run.spent_at start window (leb_ℤ_of_gt amount (pos 0) costs) read budget inside within
          (rw under at reserved) in
      (
        ap (λ r. r.0) done,
        ap (λ r. (usage_in chrono r.1.shop.mandates ev.payload.jti).spent_minor) done
            ∙ (ap
                  (λ m.
                    (usage_in chrono
                      (reserve_mandate_spend chrono run.spent s.shop.mandates m input.tenant_id
                        amount asked_in run.spent_at).1
                      ev.payload.jti).spent_minor)
                  under
                ∙ spent),
        ap (λ r. r.1.shop.transactions) done,
        ap (λ r. r.1.subscriptions) done,
      )

  charge_completed :
      (buyer : Buyer) (ship_to : Option Address) (items : List RequestItem) (currency : String)
      (s s' : Plans) (txn : Transaction) (order : Option OrderSummary)
      → run_subscription_charge transactions subscriptions chrono add_months add_signed line_id
          config engine run input buyer ship_to items currency s
        ≡ (ok (txn, order), s')
      → (txn.state ≡ completed)
        × (s'.shop.transactions ≡ insert transactions chrono run.charged s.shop.transactions txn)
        × (s'.subscriptions ≡ s.subscriptions)
  unfolding run_subscription_charge
  charge_completed buyer ship_to items currency s s' txn order h =
      check_passed (price_request_items line_id items currency) s _ h (λ priced e₁ h₁.
        check_passed (persist_order_for_transaction config engine _) s _ h₁ (λ found e₂ h₂.
          let made = ap (λ r. elim r.0 [ ok c ↦ c.0 | err e ↦ txn | panic ↦ txn ]) h₂ in
          (
            ap (λ (t : Transaction). t.state) (sym made),
            ap (λ r. r.1.shop.transactions) (sym h₂)
                ∙ ap (insert transactions chrono run.charged s.shop.transactions) made,
            ap (λ r. r.1.subscriptions) (sym h₂),
          )))

  -- An update that answers nothing keeps every subscription.
  unwritten_kept :
      (id : String) (f : Subscription → Subscription) (now : JsonStore Subscription)
      (store : JsonStore Subscription)
      → update subscriptions chrono run.written now id f ≡ (none, store)
      → (j : String) → view subscriptions store j ≡ view subscriptions now j
  unfolding update
  unwritten_kept id f now store h j =
      elim (update_all_or_nothing subscriptions (index_columns chrono) run.written now id f) [
        | inl (missing, kept) ↦ ap (λ r. view subscriptions r.1 j) (sym h) ∙ kept j
        | inr (v, found, changed, after) ↦ absurd (ground arith)
      ]

  -- A renewal whose charge goes through panics where the subscription is not written: the charge's
  -- transaction is completed and handed to the store, and every subscription is as it was. That is so
  -- for a complete payment instrument, a subscription of the tenant that is neither canceled nor
  -- paused, and an amount that is priced and reserved.
  pub unwritten_renewal_panics :
      (params : RenewParams) (sub : Subscription) (estimated : List LineItem × Totals) (shop : Shop)
      (s s' : Plans) (txn : Transaction) (order : Option OrderSummary)
      (store : JsonStore Subscription)
      → validate_payment_instrument params.payment config.payment_execution_mode ≡ ok tt
      → subscription_for_input transactions subscriptions chrono run.found params.subscription_id
          input.tenant_id s
        ≡ (ok sub, s)
      → is_renewable sub.status ≡ true
      → price_request_items line_id sub.items sub.currency ≡ ok estimated
      → reserve_spend transactions chrono run.spent mandate input.tenant_id
          (total_amount_minor estimated.1)
          sub.currency
          run.spent_at
          s.shop
        ≡ (ok tt, shop)
      → run_subscription_charge transactions subscriptions chrono add_months add_signed line_id
          config engine run input sub.buyer sub.ship_to sub.items sub.currency
          (record s { shop = shop })
        ≡ (ok (txn, order), s')
      → update subscriptions chrono run.written s'.subscriptions params.subscription_id
          (renewed_by add_months mandate params sub txn.id run.now)
        ≡ (none, store)
      → (do_renew transactions subscriptions chrono add_months add_signed line_id config engine
            mandate run input params s
          ≡ (panic, record s' { subscriptions = store }))
        × (txn.state ≡ completed)
        × (s'.shop.transactions ≡ insert transactions chrono run.charged shop.transactions txn)
        × ((j : String) → view subscriptions store j ≡ view subscriptions s.subscriptions j)
  unfolding do_renew update_subscription
  unwritten_renewal_panics params sub estimated shop s s' txn order store valid found active priced
        reserved charged unwritten =
      let (done, kept, same) =
        charge_completed sub.buyer sub.ship_to sub.items sub.currency (record s { shop = shop }) s'
          txn order charged in
      (
        rw (valid, do_renew)
            (rw (found, do_renew)
              (rw (active, do_renew)
                (rw (priced, do_renew)
                  (rw (reserved, do_renew)
                    (rw (charged, do_renew) (rw (unwritten, do_renew) refl)))))),
        done,
        kept,
        λ j.
            unwritten_kept params.subscription_id
              (renewed_by add_months mandate params sub txn.id run.now) s'.subscriptions store
              unwritten j
            ∙ ap (λ x. view subscriptions x j) same,
      )
