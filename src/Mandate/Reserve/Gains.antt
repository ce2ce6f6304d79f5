-- ===== src/Mandate/Reserve/Gains.antt =====
-- What `reserve_mandate_spend` of src/service/helpers.rs adds to the ledger when it succeeds.
use stateset_icp_handler.Prelude.{
  String, ◌≡◌, refl, ap, sym, ◌∙◌, false, some, Bool-cases, inl, inr, arith, if◌then◌else◌,
}
use stateset_icp_handler.Prelude.Int.{ℤ, pos, ◌+ℤ◌, ◌-ℤ◌, ◌≤ℤ◌, leb_ℤ}
use stateset_icp_handler.Prelude.Word.{IsI64}
use stateset_icp_handler.Prelude.Text.{codes, eq_ignore_ascii_case}
use stateset_icp_handler.Errors.{ok}
use stateset_icp_handler.Chrono.{Chrono}
use stateset_icp_handler.Storage.{Attempt}
use stateset_icp_handler.Mandate.Evaluate.{MandateEvaluation, budget_window}
use stateset_icp_handler.Mandate.Ledger.{MandateLedger, MandateSpendLimits}
use stateset_icp_handler.Mandate.Ledger.Budget.{IsWithin, usage_in, gain}
use stateset_icp_handler.Mandate.Ledger.Window.{SpendCall, spend, spend-Gains}
use stateset_icp_handler.Mandate.Reserve.{limits_of, reserve_within, reserve_mandate_spend}

module _ (chrono : Chrono) (a : Attempt) (l : MandateLedger) (ev : MandateEvaluation)
    (tenant_id : String) (amount : ℤ) (currency : String) (now start window : ℤ) where
  abbrev limits : MandateSpendLimits
  limits = limits_of ev.payload.icp.budget window

  abbrev call : SpendCall
  call = record {
    attempt = a;
    jti = ev.payload.jti;
    tenant_id = tenant_id;
    amount = amount;
    now = now;
  }

  -- A reservation of a positive amount that succeeds adds just that amount to the mandate's spend:
  -- inside the window that began at `start`, where the budget was kept before.
  pub reserve_adds :
      leb_ℤ amount (pos 0) ≡ false
      → budget_window chrono ev.payload.icp.budget ≡ ok window
      → IsI64 ev.payload.icp.budget.amount_minor
      → now -ℤ start ≤ℤ window
      → IsWithin start limits (usage_in chrono l ev.payload.jti)
      → (reserve_mandate_spend chrono a l (some ev) tenant_id amount currency now).0 ≡ ok tt
      → (usage_in chrono
          (reserve_mandate_spend chrono a l (some ev) tenant_id amount currency now).1
          ev.payload.jti).spent_minor
        ≡ (usage_in chrono l ev.payload.jti).spent_minor +ℤ amount
  unfolding reserve_mandate_spend reserve_within
  reserve_adds positive read budget inside within reserved =
      elim (Bool-cases
        (eq_ignore_ascii_case (codes ev.payload.icp.budget.currency) (codes currency))) [
          | inl same ↦
              let spent = spend chrono (λ _. limits) call l in
              let (w, plus) =
                spend-Gains chrono (λ _. limits) start ev.payload.jti budget call l refl inside
                  within in
              let done : reserve_mandate_spend chrono a l (some ev) tenant_id amount currency now
                  ≡ spent =
                rw (positive, reserve_mandate_spend)
                  (rw (same, reserve_mandate_spend) (rw (read, reserve_within) refl)) in
              ap (λ r. (usage_in chrono r.1 ev.payload.jti).spent_minor) done
              ∙ (plus
                  ∙ (ap (λ r. (usage_in chrono l ev.payload.jti).spent_minor +ℤ gain r amount)
                        (ap (λ r. r.0) (sym done) ∙ reserved)
                      ∙ ap
                          (λ b.
                            (usage_in chrono l ev.payload.jti).spent_minor
                            +ℤ (if b then pos 0 else amount))
                          positive))
          | inr other ↦ absurd (ground arith)
        ]
