-- ===== src/RateLimit/Window.antt =====
-- What a tenant is allowed in one window of the rate limiter (src/rate_limit.rs).
use stateset_icp_handler.Prelude.{
  ℕ, suc, ◌+◌, ◌-◌, ◌≤◌, ◌<◌, min, String, ◌≡◌, ◌⊎◌, inl, inr, ap, ◌∙◌, Bool, true, false, Option,
  some, List, [], ◌∷◌, arith, eq_iff, unwrap_or, eqb, Bool-cases, if◌then◌else◌,
}
use stateset_icp_handler.Prelude.Keyed.{
  get, insert, ◌==◌, string_eq, get-insert, get-remove, ==_refl,
}
use stateset_icp_handler.RateLimit.{
  RateLimitDecision, allowed, denied, Bucket, RateLimiter, max_u32, rolled_over, count_one, decide,
  check_at, check,
}

-- One request.
pub record Request : Type 0 where
  pub locks : Bool
  pub tenant_id : String
  pub tenant_capacity : Option ℕ
  pub now : ℕ

abbrev pub checked : Request → RateLimiter → RateLimitDecision × RateLimiter
checked r l = check r.locks l r.tenant_id r.tenant_capacity r.now

abbrev pub passes : RateLimitDecision → ℕ
passes (allowed _ _ _) = 1
passes (denied _ _) = 0

-- How many requests a tenant makes.
unfoldable pub requests : String → List Request → ℕ
requests tenant [] = 0
requests tenant (r ∷ rs) = (if r.tenant_id == tenant then 1 else 0) + requests tenant rs

-- How many of them are allowed.
unfoldable pub allowed_requests : String → List Request → RateLimiter → ℕ
allowed_requests tenant [] l = 0
allowed_requests tenant (r ∷ rs) l =
    (if r.tenant_id == tenant then passes (checked r l).0 else 0)
    + allowed_requests tenant rs (checked r l).1

-- The tenant's requests come before the window that began at `start` has elapsed, with one capacity.
-- Nothing is asked of the other tenants' requests.
abbrev pub InWindow : ℕ → ℕ → ℕ → ℕ → String → Request → Type 0
InWindow default window start cap tenant r =
    ((r.tenant_id == tenant) ≡ false)
    ⊎ ((r.locks ≡ true) × (unwrap_or r.tenant_capacity default ≡ cap) × (r.now - start < window))

abbrev pub AllInWindow : ℕ → ℕ → ℕ → ℕ → String → List Request → Type 0
AllInWindow default window start cap tenant [] = Unit
AllInWindow default window start cap tenant (r ∷ rs) =
    InWindow default window start cap tenant r × AllInWindow default window start cap tenant rs

module _ (tenant : String) where
  -- Another tenant's request leaves the bucket alone.
  pub other_request :
      (r : Request) (l : RateLimiter)
      → (r.tenant_id == tenant) ≡ false
      → get tenant (checked r l).1.buckets ≡ get tenant l.buckets
  unfolding check check_at
  other_request r l ne =
      let b =
        (decide l.window (unwrap_or r.tenant_capacity l.default_capacity) r.now
          (rolled_over l.window r.now (get r.tenant_id l.buckets))).1 in
      ground
        (arith, get-insert r.tenant_id tenant b l.buckets, get-remove r.tenant_id tenant l.buckets)

  pub settings_stay :
      (r : Request) (l : RateLimiter)
      → ((checked r l).1.window ≡ l.window)
        × ((checked r l).1.default_capacity ≡ l.default_capacity)
  unfolding check check_at
  settings_stay r l = ground arith

  abbrev counted : ℕ → Bucket → Bucket
  counted cap b = record b { used = min cap (suc b.used) }

  abbrev decided : Request → RateLimiter → ℕ → RateLimitDecision × Bucket
  decided r l cap =
      decide l.window cap r.now (rolled_over l.window r.now (get r.tenant_id l.buckets))

  checked_as :
      (r : Request) (l : RateLimiter) (cap : ℕ)
      → r.locks ≡ true
      → unwrap_or r.tenant_capacity l.default_capacity ≡ cap
      → eqb cap 0 ≡ false
      → checked r l ≡ (
        (decided r l cap).0,
        record l { buckets = insert r.tenant_id (decided r l cap).1 l.buckets },
      )
  unfolding check check_at
  checked_as r l cap locks is_cap pos_cap = rw is_cap (rw pos_cap (rw locks))

  decide_counts :
      (window cap now : ℕ) (b : Bucket)
      → 1 ≤ cap
      → cap ≤ max_u32
      → b.used ≤ cap
      → ((decide window cap now b).1 ≡ counted cap b)
        × (passes (decide window cap now b).0 + b.used ≡ min cap (suc b.used))
  unfolding decide count_one
  decide_counts window cap now b pos_cap small le = ground arith

  own_request :
      (r : Request) (l : RateLimiter) (cap : ℕ) (b : Bucket)
      → (r.tenant_id == tenant) ≡ true
      → r.locks ≡ true
      → unwrap_or r.tenant_capacity l.default_capacity ≡ cap
      → rolled_over l.window r.now (get tenant l.buckets) ≡ b
      → 1 ≤ cap
      → cap ≤ max_u32
      → b.used ≤ cap
      → (get tenant (checked r l).1.buckets ≡ some (counted cap b))
        × (passes (checked r l).0 + b.used ≡ min cap (suc b.used))
  own_request r l cap b same locks is_cap rolled pos_cap small le =
      let e = (eq_iff r.tenant_id tenant).0 same in
      let d = decided r l cap in
      let q = get-insert r.tenant_id tenant d.1 l.buckets in
      let c = checked_as r l cap locks is_cap (ground arith) in
      let counts = decide_counts l.window cap r.now b pos_cap small le in
      let is_decided : d ≡ decide l.window cap r.now b =
        ap (decide l.window cap r.now)
          (ap (λ t. rolled_over l.window r.now (get t l.buckets)) e ∙ rolled) in
      (
        rw c (q ∙ (rw same (ap some (ap (λ x. x.1) is_decided ∙ counts.0)))),
        rw c (ap (λ x. passes x.0 + b.used) is_decided ∙ counts.1),
      )

  rolled_in_window :
      (window now : ℕ) (b : Bucket)
      → now - b.window_start < window
      → rolled_over window now (some b) ≡ b
  unfolding rolled_over
  rolled_in_window window now b h = ground arith

  abbrev asked : Request → ℕ
  asked r = if r.tenant_id == tenant then 1 else 0

  abbrev passed : Request → RateLimiter → ℕ
  passed r l = if r.tenant_id == tenant then passes (checked r l).0 else 0

  -- The tenant's bucket after a request of anyone.
  step :
      (default window cap : ℕ) (r : Request) (l : RateLimiter) (b : Bucket)
      → get tenant l.buckets ≡ some b
      → l.default_capacity ≡ default
      → l.window ≡ window
      → 1 ≤ cap
      → cap ≤ max_u32
      → b.used ≤ cap
      → InWindow default window b.window_start cap tenant r
      → (u : ℕ) × (get tenant (checked r l).1.buckets ≡ some (record b { used = u }))
        × (passed r l + b.used ≡ u)
        × (u ≡ min cap (b.used + asked r))
  step default window cap r l b found is_default is_window pos_cap small le inside =
      elim (Bool-cases (r.tenant_id == tenant)) [
        | inr other ↦ (
          b.used,
          other_request r l other ∙ found,
          rw other (omega arith),
          rw other (omega arith),
        )
        | inl own ↦ elim inside [
          | inl other ↦ absurd cc
          | inr (locks, is_cap, fresh) ↦
              (let counts =
                  own_request r l cap b own locks
                    (ap (unwrap_or r.tenant_capacity) is_default ∙ is_cap)
                    (ap (rolled_over l.window r.now) found
                      ∙ rolled_in_window l.window r.now b (rw is_window fresh))
                    pos_cap small le in
                (min cap (suc b.used), counts.0, rw own counts.1, rw own (omega arith)))
        ]
      ]

  counted_in_window :
      (default window cap : ℕ) (rs : List Request) (l : RateLimiter) (b : Bucket)
      → get tenant l.buckets ≡ some b
      → l.default_capacity ≡ default
      → l.window ≡ window
      → 1 ≤ cap
      → cap ≤ max_u32
      → b.used ≤ cap
      → AllInWindow default window b.window_start cap tenant rs
      → allowed_requests tenant rs l + b.used ≡ min cap (b.used + requests tenant rs)
  unfolding allowed_requests requests
  counted_in_window default window cap [] l b found is_default is_window pos_cap small le all =
      omega arith
  counted_in_window default window cap (r ∷ rs) l b found is_default is_window pos_cap small le
        (inside, rest) =
      let (u, after, gained, is_u) =
        step default window cap r l b found is_default is_window pos_cap small le inside in
      let settings = settings_stay r l in
      let next =
        counted_in_window default window cap rs (checked r l).1 (record b { used = u }) after
          (settings.1 ∙ is_default) (settings.0 ∙ is_window) pos_cap small (omega arith) rest in
      omega arith

-- Of the requests that a tenant makes in a window that its first one opens, the number allowed is the
-- smaller of its capacity and the number made, whatever the other tenants do between them. The
-- capacity is a positive `u32`, the same at each of its requests, and the mutex is not poisoned there.
pub window_capacity :
    (l : RateLimiter) (cap : ℕ) (first : Request) (rs : List Request)
    → 1 ≤ cap
    → cap ≤ max_u32
    → rolled_over l.window first.now (get first.tenant_id l.buckets)
      ≡ record { used = 0; window_start = first.now }
    → first.locks ≡ true
    → unwrap_or first.tenant_capacity l.default_capacity ≡ cap
    → AllInWindow l.default_capacity l.window first.now cap first.tenant_id rs
    → allowed_requests first.tenant_id (first ∷ rs) l
      ≡ min cap (requests first.tenant_id (first ∷ rs))
unfolding allowed_requests requests
window_capacity l cap first rs pos_cap small opens locks is_cap inside =
    let tenant = first.tenant_id in
    let counts =
      own_request tenant first l cap (record { used = 0; window_start = first.now })
        (==_refl first.tenant_id) locks is_cap opens pos_cap small (omega arith) in
    let settings = settings_stay first.tenant_id first l in
    let next =
      counted_in_window first.tenant_id l.default_capacity l.window cap rs (checked first l).1
        (record { used = min cap 1; window_start = first.now }) counts.0 settings.1 settings.0
        pos_cap small (omega arith) inside in
    rw (==_refl first.tenant_id) (omega arith)
