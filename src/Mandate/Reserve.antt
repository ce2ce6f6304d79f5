-- ===== src/Mandate/Reserve.antt =====
-- `reserve_mandate_spend` of src/service/helpers.rs: the amount of a charge is put on the ledger of the
-- mandate that was evaluated.
pub mod Agrees
pub mod Gains
use stateset_icp_handler.Prelude.{String, Option, none, some, if◌then◌else◌}
use stateset_icp_handler.Prelude.Int.{ℤ, pos, leb_ℤ}
use stateset_icp_handler.Prelude.Text.{codes, eq_ignore_ascii_case}
use stateset_icp_handler.Errors.{Result, ok, err, panic, mandate_out_of_scope}
use stateset_icp_handler.Chrono.{Chrono}
use stateset_icp_handler.Storage.{Attempt}
use stateset_icp_handler.Mandate.Terms.{MandateBudget}
use stateset_icp_handler.Mandate.Ledger.{
  MandateLedger, MandateSpendLimits, try_record_spend_checked,
}
use stateset_icp_handler.Mandate.Evaluate.{MandateEvaluation, budget_window}

abbrev pub limits_of : MandateBudget → ℤ → MandateSpendLimits
limits_of budget window = record {
  budget_minor = budget.amount_minor;
  per_transaction = budget.per_transaction;
  window = window;
}

-- With the window that was read; a period out of range panics.
unfoldable pub reserve_within :
    Chrono
    → Attempt
    → MandateLedger
    → MandateEvaluation
    → String
    → ℤ
    → ℤ
    → Result ℤ
    → Result (Unit {0}) × MandateLedger
reserve_within chrono a l ev tenant_id amount now (ok window) =
    try_record_spend_checked chrono a l ev.payload.jti tenant_id amount now
      (limits_of ev.payload.icp.budget window)
reserve_within chrono a l ev tenant_id amount now (err e) = (err e, l)
reserve_within chrono a l ev tenant_id amount now panic = (panic, l)

unfoldable pub reserve_mandate_spend :
    Chrono
    → Attempt
    → MandateLedger
    → Option MandateEvaluation
    → String
    → ℤ
    → String
    → ℤ
    → Result (Unit {0}) × MandateLedger
reserve_mandate_spend chrono a l none tenant_id amount currency now = (ok tt, l)
reserve_mandate_spend chrono a l (some ev) tenant_id amount currency now =
    if leb_ℤ amount (pos 0)
    then (ok tt, l)
    else if eq_ignore_ascii_case (codes ev.payload.icp.budget.currency) (codes currency)
    then reserve_within chrono a l ev tenant_id amount now
        (budget_window chrono ev.payload.icp.budget)
    else (err mandate_out_of_scope, l)
