-- ===== src/Service/Renewals/Dunning.antt =====
-- When failing charges end a subscription, by src/service/lifecycle.rs.
use stateset_icp_handler.Prelude.{
  ℕ, zero, suc, ◌+◌, ◌*◌, ◌^◌, ◌≤◌, ◌<◌, ◌≡◌, refl, ◌∙◌, some, List, [], ◌∷◌, length, get_elem?,
  arith,
}
use stateset_icp_handler.Prelude.Int.{ℤ, pos, ◌+ℤ◌}
use stateset_icp_handler.Models.Subscriptions.{Subscription, past_due}
use stateset_icp_handler.Service.Renewals.{
  add_one, dunning_max_attempts, dunning_next_attempt, failed_with,
}

-- Charges that fail one after another, at these instants, each listed as the one before has left it.
unfoldable pub fail_all : List ℕ → List ℤ → Subscription → Subscription
unfolding failed_with
fail_all schedule [] s = s
fail_all schedule (now ∷ nows) s = fail_all schedule nows (failed_with schedule s now s)

one_failure :
    (schedule : List ℕ) (now : ℤ) (s : Subscription)
    → s.failed_renewal_attempts + 1 < 2 ^ 32
    → (failed_with schedule s now s).failed_renewal_attempts ≡ s.failed_renewal_attempts + 1
unfolding failed_with
one_failure schedule now s small = ground arith

one_failure_kept :
    (schedule : List ℕ) (now : ℤ) (s : Subscription)
    → s.failed_renewal_attempts + 1 < 2 ^ 32
    → s.failed_renewal_attempts + 1 < dunning_max_attempts schedule
    → (failed_with schedule s now s).status ≡ s.status
unfolding failed_with
one_failure_kept schedule now s small early = ground arith

one_failure_last :
    (schedule : List ℕ) (now : ℤ) (s : Subscription)
    → s.failed_renewal_attempts + 1 < 2 ^ 32
    → dunning_max_attempts schedule ≤ s.failed_renewal_attempts + 1
    → (failed_with schedule s now s).status ≡ past_due
unfolding failed_with
one_failure_last schedule now s small late = ground arith

counted :
    (schedule : List ℕ) (nows : List ℤ) (s : Subscription)
    → s.failed_renewal_attempts + length nows < 2 ^ 32
    → (fail_all schedule nows s).failed_renewal_attempts ≡ s.failed_renewal_attempts + length nows
unfolding fail_all
counted schedule [] s small = omega arith
counted schedule (now ∷ nows) s small =
    omega (arith, one_failure schedule now s, counted schedule nows (failed_with schedule s now s))

kept_status :
    (schedule : List ℕ) (nows : List ℤ) (s : Subscription)
    → s.failed_renewal_attempts + length nows < 2 ^ 32
    → s.failed_renewal_attempts + length nows < dunning_max_attempts schedule
    → (fail_all schedule nows s).status ≡ s.status
unfolding fail_all
kept_status schedule [] s small early = refl
kept_status schedule (now ∷ nows) s small early =
    let one = one_failure schedule now s (omega arith) in
    kept_status schedule nows (failed_with schedule s now s) (omega arith) (omega arith)
    ∙ one_failure_kept schedule now s (omega arith) (omega arith)

-- A subscription without a failure keeps its status while fewer charges fail in a row than the
-- attempts that are allowed, and the charge that makes up their number makes it past due: three, or one
-- more than the dunning schedule has entries. The counts stay below the bound of a `u32`.
pub past_due_exactly :
    (schedule : List ℕ) (nows : List ℤ) (last : ℤ) (s : Subscription)
    → s.failed_renewal_attempts ≡ 0
    → length nows + 1 ≡ dunning_max_attempts schedule
    → length nows + 1 < 2 ^ 32
    → ((fail_all schedule nows s).status ≡ s.status)
      × ((failed_with schedule (fail_all schedule nows s) last (fail_all schedule nows s)).status
          ≡ past_due)
past_due_exactly schedule nows last s fresh all small = (
  kept_status schedule nows s (omega arith) (omega arith),
  one_failure_last schedule last (fail_all schedule nows s) (omega (arith, counted schedule nows s))
      (omega (arith, counted schedule nows s)),
)

entry_below : (xs : List ℕ) (i : ℕ) {h : ℕ} → get_elem? xs i ≡ some h → i < length xs
entry_below [] i e = cc
entry_below (x ∷ xs) zero e = omega arith
entry_below (x ∷ xs) (suc i) e = omega (arith, entry_below xs i e)

one_retry :
    (schedule : List ℕ) (now : ℤ) (s : Subscription) (k hours : ℕ)
    → s.failed_renewal_attempts ≡ k
    → get_elem? schedule k ≡ some hours
    → k < length schedule
    → length schedule + 1 < 2 ^ 32
    → (failed_with schedule s now s).next_charge_at ≡ now +ℤ pos (hours * (3600 * 10 ^ 9))
unfolding failed_with dunning_max_attempts dunning_next_attempt
one_retry [] now s k hours count entry below small = absurd (omega arith)
one_retry (x ∷ xs) now s k hours count entry below small =
    let next : add_one s.failed_renewal_attempts ≡ suc k = omega arith in rw next (ground arith)

-- A failure in a row for which the dunning schedule has an entry puts the next charge off by that many
-- hours from the failure, for a subscription that had no failure before the row. The schedule is
-- shorter than the bound of a `u32`.
pub retry_follows_schedule :
    (schedule : List ℕ) (nows : List ℤ) (last : ℤ) (s : Subscription) (hours : ℕ)
    → s.failed_renewal_attempts ≡ 0
    → get_elem? schedule (length nows) ≡ some hours
    → length schedule + 1 < 2 ^ 32
    → (failed_with schedule
        (fail_all schedule nows s)
        last
        (fail_all schedule nows s)).next_charge_at
      ≡ last +ℤ pos (hours * (3600 * 10 ^ 9))
retry_follows_schedule schedule nows last s hours fresh entry small =
    let below = entry_below schedule (length nows) entry in
    one_retry schedule last (fail_all schedule nows s) (length nows) hours
      (omega (arith, counted schedule nows s)) entry below small
