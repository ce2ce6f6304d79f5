-- ===== src/Examples/Limits.antt =====
-- The theorems on the rate limiter (src/rate_limit.rs) at concrete inputs.
use stateset_icp_handler.Prelude.{
  ℕ, ◌*◌, ◌+◌, String, ◌≡◌, inl, inr, refl, true, none, [], ◌∷◌, arith, min,
}
use stateset_icp_handler.Prelude.Keyed.{get, string_eq}
use stateset_icp_handler.RateLimit.{
  denied, RateLimiter, second, rolled_over, reset_in_secs, decide, check_at,
}
use stateset_icp_handler.RateLimit.Window.{Request, allowed_requests, requests, window_capacity}
use stateset_icp_handler.RateLimit.Retry.{
  IsAllowed, after_requests, retry_admits, told_wait_is_short,
}

-- Two requests a minute for everyone.
abbrev limiter : RateLimiter
limiter = record { default_capacity = 2; window = 60 * second; buckets = [] }

abbrev at_second : String → ℕ → Request
at_second tenant n = record {
  locks = true;
  tenant_id = tenant;
  tenant_capacity = none;
  now = n * second;
}

window_capacity_example :
    allowed_requests "acme"
      (at_second "acme" 10 ∷ at_second "other" 11 ∷ at_second "acme" 20 ∷ at_second "acme" 69 ∷ [])
      limiter
    ≡ min 2 (
        requests "acme" (
          at_second "acme" 10
          ∷ at_second "other" 11
          ∷ at_second "acme" 20
          ∷ at_second "acme" 69
          ∷ []))
unfolding rolled_over get
window_capacity_example =
    window_capacity limiter 2 (at_second "acme" 10)
      (at_second "other" 11 ∷ at_second "acme" 20 ∷ at_second "acme" 69 ∷ []) (omega arith)
      (omega arith) refl refl refl
      (inl refl, (inr (refl, refl, omega arith), (inr (refl, refl, omega arith), tt)))

-- Both requests of the window that began at second 10 are used.
abbrev used_up : RateLimiter
used_up = record limiter {
  buckets = ("acme", record { used = 2; window_start = 10 * second }) ∷ [];
}

retry_admits_example :
    IsAllowed
      (check_at true
        (after_requests
          (at_second "other" 20 ∷ [])
          (check_at true used_up "acme" 2 (15 * second + 1)).1)
        "acme"
        2
        (70 * second + 1)).0
unfolding check_at decide rolled_over get reset_in_secs
retry_admits_example =
    retry_admits used_up "acme" 2 (15 * second + 1) 54 (70 * second + 1)
      (record { used = 2; window_start = 10 * second }) (at_second "other" 20 ∷ []) refl
      (omega arith) (omega arith) refl (refl, tt) (omega arith)

told_wait_is_short_example :
    ((check_at true used_up "acme" 2 (15 * second + 1)).0 ≡ denied 2 54)
    × ((check_at true
          (check_at true used_up "acme" 2 (15 * second + 1)).1
          "acme"
          2
          (15 * second + 1 + 54 * second)).0
        ≡ denied 2 1)
unfolding get
told_wait_is_short_example =
    told_wait_is_short used_up "acme" 2 (15 * second + 1) 54 999999999
      (record { used = 2; window_start = 10 * second }) refl (omega arith) (omega arith)
      (omega arith) (omega arith) (omega arith) (omega arith)
