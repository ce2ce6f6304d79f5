-- ===== src/RateLimit/Retry.antt =====
-- The `Retry-After` of the rate limiter (src/rate_limit.rs).
use stateset_icp_handler.Prelude.{
  ℕ, ◌+◌, ◌-◌, ◌*◌, ◌≤◌, ◌<◌, String, ◌≡◌, refl, sym, subst, ap, ◌∙◌, true, false, some, List, [],
  ◌∷◌, arith,
}
use stateset_icp_handler.Prelude.Keyed.{get, insert, ◌==◌, string_eq, get-insert_self}
use stateset_icp_handler.RateLimit.Window.{Request, checked, other_request, settings_stay}
use stateset_icp_handler.RateLimit.{
  RateLimitDecision, allowed, denied, Bucket, RateLimiter, second, rolled_over, reset_in_secs,
  decide, check_at,
}

-- The answer is an admission.
abbrev pub IsAllowed : RateLimitDecision → Type 0
IsAllowed (allowed _ _ _) = Unit
IsAllowed (denied _ _) = ⊥

decide_denied :
    (window capacity now retry : ℕ) (b : Bucket)
    → (decide window capacity now b).0 ≡ denied capacity retry
    → ((decide window capacity now b).1 ≡ b)
      × (capacity ≤ b.used)
      × (retry ≡ reset_in_secs window now b)
unfolding decide
decide_denied window capacity now retry b h = ground arith

decide-IsAllowed :
    (window capacity now : ℕ) (b : Bucket)
    → b.used < capacity
    → IsAllowed (decide window capacity now b).0
unfolding decide
decide-IsAllowed window capacity now b h = ground arith

decide_refuses :
    (window capacity now : ℕ) (b : Bucket)
    → capacity ≤ b.used
    → decide window capacity now b ≡ (denied capacity (reset_in_secs window now b), b)
unfolding decide
decide_refuses window capacity now b h = ground arith

rolled_over_at :
    (window now later : ℕ) (b : Bucket)
    → window ≤ later - b.window_start
    → rolled_over window later (some b) ≡ record { used = 0; window_start = later }
unfolding rolled_over
rolled_over_at window now later b h = ground arith

rolled_started :
    (window now : ℕ) (b : Bucket)
    → b.window_start ≤ now
    → (rolled_over window now (some b)).window_start ≤ now
unfolding rolled_over
rolled_started window now b h = ground arith

rolled_within :
    (window now : ℕ) (b : Bucket)
    → now - b.window_start < window
    → rolled_over window now (some b) ≡ b
unfolding rolled_over
rolled_within window now b h = ground arith

-- A used bucket whose window has not elapsed refuses, and stays as it is.
refused :
    (l : RateLimiter) (tenant_id : String) (capacity now : ℕ) (b : Bucket)
    → get tenant_id l.buckets ≡ some b
    → capacity ≤ b.used
    → now - b.window_start < l.window
    → let (answer, l') = check_at true l tenant_id capacity now in
      (answer ≡ denied capacity (reset_in_secs l.window now b))
      × (get tenant_id l'.buckets ≡ some b)
      × (l'.window ≡ l.window)
unfolding check_at
refused l tenant_id capacity now b found full within =
    let is_b : decide l.window capacity now (rolled_over l.window now (get tenant_id l.buckets))
        ≡ (denied capacity (reset_in_secs l.window now b), b) =
      ap (λ o. decide l.window capacity now (rolled_over l.window now o)) found
      ∙ (ap (decide l.window capacity now) (rolled_within l.window now b within)
          ∙ decide_refuses l.window capacity now b full) in
    (
      ap (λ x. x.0) is_b,
      ap (λ x. get tenant_id (insert tenant_id x.1 l.buckets)) is_b
          ∙ get-insert_self tenant_id b l.buckets,
      refl,
    )

-- What is left of the window is less than a second more than the seconds told.
reset_bound :
    (window now : ℕ) (b : Bucket)
    → window ≤ now - b.window_start + (reset_in_secs window now b + 1) * second
unfolding reset_in_secs
reset_bound window now b = omega arith

-- The limiter after a list of requests.
unfoldable pub after_requests : List Request → RateLimiter → RateLimiter
after_requests [] l = l
after_requests (r ∷ rs) l = after_requests rs (checked r l).1

abbrev pub AllOfOthers : String → List Request → Type 0
AllOfOthers tenant_id [] = Unit
AllOfOthers tenant_id (r ∷ rs) = ((r.tenant_id == tenant_id) ≡ false) × AllOfOthers tenant_id rs

others_keep :
    (tenant_id : String) (rs : List Request) (l : RateLimiter)
    → AllOfOthers tenant_id rs
    → (get tenant_id (after_requests rs l).buckets ≡ get tenant_id l.buckets)
      × ((after_requests rs l).window ≡ l.window)
unfolding after_requests
others_keep tenant_id [] l h = (refl, refl)
others_keep tenant_id (r ∷ rs) l h =
    let (same, window) = others_keep tenant_id rs (checked r l).1 h.1 in
    (same ∙ other_request tenant_id r l h.0, window ∙ (settings_stay tenant_id r l).0)

-- A tenant that is refused, and that makes its next request one second or more after the seconds told,
-- is admitted, whatever requests of other tenants come between. Its capacity is positive, its bucket did
-- not begin in the future, and the mutex is not poisoned at its two requests.
pub retry_admits :
    (l : RateLimiter) (tenant_id : String) (capacity now retry later : ℕ) (last : Bucket)
    (between : List Request)
    → get tenant_id l.buckets ≡ some last
    → last.window_start ≤ now
    → 1 ≤ capacity
    → (check_at true l tenant_id capacity now).0 ≡ denied capacity retry
    → AllOfOthers tenant_id between
    → now + (retry + 1) * second ≤ later
    → IsAllowed
        (check_at true
          (after_requests between (check_at true l tenant_id capacity now).1)
          tenant_id
          capacity
          later).0
unfolding check_at
retry_admits l tenant_id capacity now retry later last between found started pos_cap refused others
      wait =
    let b = rolled_over l.window now (get tenant_id l.buckets) in
    let (same, full, told) = decide_denied l.window capacity now retry b refused in
    let left = reset_bound l.window now b in
    let begun : b.window_start ≤ now =
      subst (λ o. (rolled_over l.window now o).window_start ≤ now) (sym found)
        (rolled_started l.window now last started) in
    let l₁ = (check_at true l tenant_id capacity now).1 in
    let l₂ = after_requests between l₁ in
    let (kept, window) = others_keep tenant_id between l₁ others in
    let held : get tenant_id l₂.buckets ≡ some b =
      kept
      ∙ (get-insert_self tenant_id (decide l.window capacity now b).1 l.buckets ∙ ap some same) in
    let again : rolled_over l₂.window later (get tenant_id l₂.buckets)
        ≡ record { used = 0; window_start = later } =
      ap (rolled_over l₂.window later) held ∙ rolled_over_at l₂.window now later b (omega arith) in
    subst (λ c. IsAllowed (decide l₂.window capacity later c).0) (sym again)
      (decide-IsAllowed l₂.window capacity later (record { used = 0; window_start = later })
        pos_cap)

-- A tenant that has used up a window of which `told` seconds, one at least, and a part of a second are
-- left is told to wait `told` seconds, and is refused again if it does just that. Its bucket did not
-- begin in the future, and the mutex is not poisoned.
pub told_wait_is_short :
    (l : RateLimiter) (tenant_id : String) (capacity now told part : ℕ) (b : Bucket)
    → get tenant_id l.buckets ≡ some b
    → capacity ≤ b.used
    → b.window_start ≤ now
    → l.window ≡ now - b.window_start + told * second + part
    → 1 ≤ told
    → 1 ≤ part
    → part < second
    → let (answer, l') = check_at true l tenant_id capacity now in
      (answer ≡ denied capacity told)
      × ((check_at true l' tenant_id capacity (now + told * second)).0 ≡ denied capacity 1)
unfolding reset_in_secs
told_wait_is_short l tenant_id capacity now told part b found full started left secs1 part1 part2 =
    let first = refused l tenant_id capacity now b found full (omega arith) in
    let l' = (check_at true l tenant_id capacity now).1 in
    let same_window = first.2 in
    let within : now + told * second - b.window_start < l'.window = omega arith in
    let again = refused l' tenant_id capacity (now + told * second) b first.1 full within in
    let last : reset_in_secs l'.window (now + told * second) b ≡ 1 = omega arith in
    (first.0 ∙ ap (denied capacity) (omega arith), again.0 ∙ ap (denied capacity) last)
