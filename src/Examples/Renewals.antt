-- ===== src/Examples/Renewals.antt =====
-- The theorems on automatic renewals (src/service/lifecycle.rs) at concrete inputs.
use stateset_icp_handler.Prelude.{ℕ, ◌*◌, ◌^◌, ◌≡◌, refl, none, List, [], ◌∷◌, arith}
use stateset_icp_handler.Prelude.Int.{ℤ, pos, ◌+ℤ◌}
use stateset_icp_handler.Models.Subscriptions.{Subscription, SubscriptionStatus}
use stateset_icp_handler.Service.Renewals.{Months, dunning_max_attempts, failed_with}
use stateset_icp_handler.Service.Renewals.Dunning.{
  fail_all, past_due_exactly, retry_follows_schedule,
}
use stateset_icp_handler.Service.Renewals.Periods.{renew_all, boundary, renewals_do_not_drift}
use stateset_icp_handler.Examples.Documents.{plan_of}

abbrev plan : Subscription
plan = plan_of "s1" SubscriptionStatus.active (pos 5)

abbrev schedule : List ℕ
schedule = 24 ∷ 72 ∷ []

abbrev failures : List ℤ
failures = pos 6 ∷ pos 7 ∷ []

past_due_exactly_example :
    ((fail_all schedule failures plan).status ≡ plan.status)
    × ((failed_with schedule
          (fail_all schedule failures plan)
          (pos 8)
          (fail_all schedule failures plan)).status
        ≡ SubscriptionStatus.past_due)
unfolding dunning_max_attempts
past_due_exactly_example = past_due_exactly schedule failures (pos 8) plan refl refl (omega arith)

retry_follows_schedule_example :
    (failed_with schedule
      (fail_all schedule (pos 6 ∷ []) plan)
      (pos 8)
      (fail_all schedule (pos 6 ∷ []) plan)).next_charge_at
    ≡ pos 8 +ℤ pos (72 * (3600 * 10 ^ 9))
retry_follows_schedule_example =
    retry_follows_schedule schedule (pos 6 ∷ []) (pos 8) plan 72 refl refl (omega arith)

abbrev no_months : Months
no_months t n = none

-- A failed charge has put the next one off by 20.
abbrev put_off : Subscription
put_off = record plan { next_charge_at = pos 25; failed_renewal_attempts = 1 }

renewals_do_not_drift_example :
    let s' = renew_all no_months (("t1", pos 29) ∷ ("t2", pos 31) ∷ []) put_off in
    (s'.current_period_end ≡ boundary no_months put_off.cadence 2 (pos 5))
    × (s'.next_charge_at ≡ s'.current_period_end)
    × (s'.charges_completed ≡ 3)
renewals_do_not_drift_example =
    renewals_do_not_drift no_months "t1" (pos 29) (("t2", pos 31) ∷ []) put_off (omega arith)
