-- ===== src/Service/Renewals/Periods.antt =====
-- The billing periods of consecutive renewals, by src/service/lifecycle.rs.
use stateset_icp_handler.Prelude.{
  ℕ, zero, suc, ◌+◌, ◌^◌, ◌<◌, String, ◌≡◌, refl, ◌∙◌, List, [], ◌∷◌, length, arith,
}
use stateset_icp_handler.Prelude.Int.{ℤ}
use stateset_icp_handler.Models.Subscriptions.{Subscription, BillingCadence}
use stateset_icp_handler.Service.Renewals.{Months, period_advance, renewed_with}

-- Renewals one after another, with their transactions and instants.
unfoldable pub renew_all : Months → List (String × ℤ) → Subscription → Subscription
unfolding renewed_with
renew_all add_months [] s = s
renew_all add_months ((txn_id, now) ∷ rest) s =
    renew_all add_months rest (renewed_with add_months s txn_id now s)

-- The n-th boundary after one, by the cadence alone.
unfoldable pub boundary : Months → BillingCadence → ℕ → ℤ → ℤ
boundary add_months cadence zero t = t
boundary add_months cadence (suc n) t =
    boundary add_months cadence n (period_advance add_months t cadence)

one_more :
    (add_months : Months) (txn_id : String) (now : ℤ) (s : Subscription) (n : ℕ)
    → s.charges_completed + suc n < 2 ^ 32
    → (renewed_with add_months s txn_id now s).charges_completed + n < 2 ^ 32
unfolding renewed_with
one_more add_months txn_id now s n small = omega arith

one_count :
    (add_months : Months) (txn_id : String) (now : ℤ) (s : Subscription) (n : ℕ)
    → s.charges_completed + suc n < 2 ^ 32
    → (renewed_with add_months s txn_id now s).charges_completed + n ≡ s.charges_completed + suc n
unfolding renewed_with
one_count add_months txn_id now s n small = omega arith

later_boundary :
    (add_months : Months) (renewals : List (String × ℤ)) (s : Subscription)
    → s.charges_completed + length renewals < 2 ^ 32
    → s.next_charge_at ≡ s.current_period_end
    → let s' = renew_all add_months renewals s in
      (s'.current_period_end ≡ boundary add_months s.cadence (length renewals) s.current_period_end)
      × (s'.next_charge_at ≡ s'.current_period_end)
      × (s'.charges_completed ≡ s.charges_completed + length renewals)
unfolding renew_all boundary
later_boundary add_months [] s small due = (refl, due, omega arith)
later_boundary add_months ((txn_id, now) ∷ rest) s small due =
    let (ends, next, counts) =
      later_boundary add_months rest (renewed_with add_months s txn_id now s)
        (one_more add_months txn_id now s (length rest) small) (unfold renewed_with in refl) in
    (
      unfold renewed_with in ends,
      next,
      counts ∙ one_count add_months txn_id now s (length rest) small,
    )

-- However late the charges come, and wherever failed charges have put the first of them off to, one
-- renewal and those that follow it move the end of the period by one step of the cadence each, the next
-- charge is due at that end, and each counts once; the count stays below the bound of a `u32`.
pub renewals_do_not_drift :
    (add_months : Months) (txn_id : String) (now : ℤ) (rest : List (String × ℤ)) (s : Subscription)
    → s.charges_completed + suc (length rest) < 2 ^ 32
    → let s' = renew_all add_months ((txn_id, now) ∷ rest) s in
      (s'.current_period_end
        ≡ boundary add_months s.cadence (suc (length rest)) s.current_period_end)
      × (s'.next_charge_at ≡ s'.current_period_end)
      × (s'.charges_completed ≡ s.charges_completed + suc (length rest))
unfolding renew_all boundary
renewals_do_not_drift add_months txn_id now rest s small =
    let (ends, next, counts) =
      later_boundary add_months rest (renewed_with add_months s txn_id now s)
        (one_more add_months txn_id now s (length rest) small) (unfold renewed_with in refl) in
    (
      unfold renewed_with in ends,
      next,
      counts ∙ one_count add_months txn_id now s (length rest) small,
    )
