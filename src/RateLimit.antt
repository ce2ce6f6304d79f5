-- ===== src/RateLimit.antt =====
-- `RateLimiter` of src/rate_limit.rs: the fixed-window limiter in memory. An `Instant` and a
-- `Duration` are numbers of nanoseconds; a `u32` is a number. `locks` tells that the mutex is not
-- poisoned.
pub mod Window
pub mod Retry
use stateset_icp_handler.Prelude.{
  ℕ, ◌+◌, ◌-◌, ◌/◌, ◌^◌, max, min, String, Bool, Option, none, some, unwrap_or, leb, eqb,
  if◌then◌else◌,
}
use stateset_icp_handler.Prelude.Keyed.{Keyed, get, insert, remove, string_eq}

pub data RateLimitDecision : Type 0 where
  allowed : (limit remaining reset_in_secs : ℕ) → RateLimitDecision
  denied : (limit retry_after_secs : ℕ) → RateLimitDecision

pub record Bucket : Type 0 where
  pub used : ℕ
  pub window_start : ℕ

pub record RateLimiter : Type 0 where
  pub default_capacity : ℕ
  pub window : ℕ
  pub buckets : Keyed String Bucket

abbrev pub max_u32 : ℕ
max_u32 = 2 ^ 32 - 1

-- `Duration::from_secs(1)`
abbrev pub second : ℕ
second = 10 ^ 9

-- The entry of the tenant, in a new window if the last one has elapsed.
unfoldable pub rolled_over : ℕ → ℕ → Option Bucket → Bucket
rolled_over window now none = record { used = 0; window_start = now }
rolled_over window now (some b) =
    if leb window (now - b.window_start) then record { used = 0; window_start = now } else b

-- `reset_in.as_secs().max(1)`
unfoldable pub reset_in_secs : ℕ → ℕ → Bucket → ℕ
reset_in_secs window now b = max ((window - (now - b.window_start)) / second) 1

-- `bucket.used.saturating_add(1)`
unfoldable pub count_one : Bucket → Bucket
count_one b = record b { used = min (b.used + 1) max_u32 }

unfoldable pub decide : ℕ → ℕ → ℕ → Bucket → RateLimitDecision × Bucket
decide window capacity now b =
    if leb capacity b.used
    then (RateLimitDecision.denied capacity (reset_in_secs window now b), b)
    else (
      RateLimitDecision.allowed capacity (capacity - (count_one b).used)
          (reset_in_secs window now b),
      count_one b,
    )

unfoldable pub check_at : Bool → RateLimiter → String → ℕ → ℕ → RateLimitDecision × RateLimiter
check_at locks l tenant_id capacity now =
    if locks
    then (let (decision, b) =
          decide l.window capacity now (rolled_over l.window now (get tenant_id l.buckets)) in
        (decision, record l { buckets = insert tenant_id b l.buckets }))
    else (RateLimitDecision.denied capacity 1, record l { buckets = remove tenant_id l.buckets })

-- A capacity of 0 turns the limit off.
unfoldable pub check : Bool → RateLimiter → String → Option ℕ → ℕ → RateLimitDecision × RateLimiter
check locks l tenant_id tenant_capacity now =
    let cap = unwrap_or tenant_capacity l.default_capacity in
    if eqb cap 0
    then (RateLimitDecision.allowed 0 max_u32 (l.window / second), l)
    else check_at locks l tenant_id cap now
