-- ===== src/Service/Renewals.antt =====
-- The automatic renewals of src/service/lifecycle.rs, with the billing periods of
-- src/service/helpers.rs. The charge of a subscription is a parameter: the id of its transaction, or a
-- failure. So is chrono's calendar of months.
pub mod Dunning
pub mod Periods
use stateset_icp_handler.Prelude.{
  ℕ, zero, suc, ◌+◌, ◌-◌, ◌*◌, ◌^◌, min, String, Option, none, some, List, [], ◌∷◌, length,
  get_elem?, is_empty, unwrap_or, leb, if◌then◌else◌,
}
use stateset_icp_handler.Prelude.Int.{ℤ, pos, ◌+ℤ◌}
use stateset_icp_handler.Chrono.{Chrono}
use stateset_icp_handler.Storage.{Attempt}
use stateset_icp_handler.Models.Subscriptions.{
  Subscription, SubscriptionStatus, BillingCadence, weekly, monthly, annual, trialing, active,
  past_due, same_status,
}
use stateset_icp_handler.StateStore.{Serde, JsonStore, len}
use stateset_icp_handler.StateStore.Subscriptions.{update, list_due_for_renewal}

abbrev pub hour : ℤ
hour = pos (3600 * 10 ^ 9)

abbrev pub days : ℕ → ℤ
days n = pos (n * (86400 * 10 ^ 9))

-- `checked_add_months`
abbrev pub Months : Type 0
Months = ℤ → ℕ → Option ℤ

unfoldable pub period_advance : Months → ℤ → BillingCadence → ℤ
period_advance add_months start weekly = start +ℤ days 7
period_advance add_months start monthly = unwrap_or (add_months start 1) (start +ℤ days 30)
period_advance add_months start annual = unwrap_or (add_months start 12) (start +ℤ days 365)

-- `u32::saturating_add(1)`
abbrev pub add_one : ℕ → ℕ
add_one n = min (n + 1) (2 ^ 32 - 1)

abbrev pub max_renewal_failures : ℕ
max_renewal_failures = 3

-- The schedule's length is a `u32`.
unfoldable pub dunning_max_attempts : List ℕ → ℕ
dunning_max_attempts schedule =
    if is_empty schedule then max_renewal_failures else add_one (length schedule)

unfoldable pub dunning_next_attempt : List ℕ → ℕ → ℤ → Option ℤ
dunning_next_attempt schedule zero now = none
dunning_next_attempt schedule (suc idx) now = elim (get_elem? schedule idx) [
  | none ↦ none
  | some hours ↦ some (now +ℤ pos (hours * (3600 * 10 ^ 9)))
]

-- A success: the row that was listed gives the periods and the count.
unfoldable pub renewed_with : Months → Subscription → String → ℤ → Subscription → Subscription
unfolding period_advance
renewed_with add_months listed txn_id now s =
    let end = period_advance add_months listed.current_period_end listed.cadence in
    let trial = same_status s.status trialing in
    record s {
      status = if trial then active else s.status;
      trial_end = if trial then none else s.trial_end;
      current_period_start = listed.current_period_end;
      current_period_end = end;
      next_charge_at = end;
      charges_completed = add_one listed.charges_completed;
      last_transaction_id = some txn_id;
      failed_renewal_attempts = 0;
      updated_at = now;
    }

-- A failure, counted from the row that was listed.
unfoldable pub failed_with : List ℕ → Subscription → ℤ → Subscription → Subscription
unfolding dunning_max_attempts dunning_next_attempt
failed_with schedule listed now s =
    let count = add_one listed.failed_renewal_attempts in
    let exhausted = leb (dunning_max_attempts schedule) count in
    record s {
      failed_renewal_attempts = count;
      status = if exhausted then past_due else s.status;
      next_charge_at =
          if exhausted
          then s.next_charge_at
          else unwrap_or (dunning_next_attempt schedule count now) s.next_charge_at;
      updated_at = now;
    }

pub record SchedulerTickReport : Type 0 where
  pub scanned : ℕ
  pub due : ℕ
  pub renewed : ℕ
  pub failed : ℕ
  pub past_due : ℕ

abbrev pub became_past_due : Option Subscription → ℕ
became_past_due none = 0
became_past_due (some s) = if same_status s.status SubscriptionStatus.past_due then 1 else 0

module _ (serde : Serde Subscription) (chrono : Chrono) (add_months : Months) (schedule : List ℕ)
    (charge : Subscription → Option String) (write : Attempt) (now : ℤ) where
  -- The loop over the subscriptions that are due.
  unfoldable pub renew_due :
      List Subscription
      → SchedulerTickReport × JsonStore Subscription
      → SchedulerTickReport × JsonStore Subscription
  unfolding renewed_with failed_with
  renew_due [] (report, store) = (report, store)
  renew_due (sub ∷ subs) (report, store) = renew_due subs (elim (charge sub) [
    | some txn_id ↦ (
      record report { renewed = report.renewed + 1 },
      (update serde chrono write store sub.id (renewed_with add_months sub txn_id now)).1,
    )
    | none ↦
        let (updated, store') =
          update serde chrono write store sub.id (failed_with schedule sub now) in
        (
          record report {
            past_due = report.past_due + became_past_due updated;
            failed = report.failed + 1;
          },
          store',
        )
  ])

  unfoldable pub tick_subscriptions :
      Attempt
      → Attempt
      → Attempt
      → Attempt
      → JsonStore Subscription
      → SchedulerTickReport × JsonStore Subscription
  unfolding renew_due
  tick_subscriptions a b c d store =
      let due = list_due_for_renewal serde chrono a b c store now in
      renew_due due (
        record {
          scanned = len serde d store;
          due = length due;
          renewed = 0;
          failed = 0;
          past_due = 0;
        },
        store,
      )
