-- ===== src/Service/Pipeline.antt =====
-- `handle_intent_idempotent` of src/service/mod.rs: a tenant's rate limit, and an intent that is run
-- once for its idempotency key. `handle_intent` is a parameter, with the state `W` that it changes;
-- so are the JSON of a response, the digest of an envelope and the text of the key that stands for an
-- intent's id. Each use of the store meets it as `between` leaves it: what other workers have done.
pub mod Replayed
pub mod Rerun
use stateset_icp_handler.Prelude.{
  ℕ, zero, suc, max, ◌*◌, ◌^◌, String, ◌≡◌, Bool, true, false, Option, none, some, List,
  if◌then◌else◌,
}
use stateset_icp_handler.Prelude.Int.{ℤ, pos}
use stateset_icp_handler.Prelude.Keyed.{◌==◌, string_eq}
use stateset_icp_handler.Errors.{
  Result, ok, err, panic, rate_limited, engine_unavailable, processing_error, idempotency_conflict,
}
use stateset_icp_handler.Chrono.{Chrono}
use stateset_icp_handler.Storage.{Attempt}
use stateset_icp_handler.RateLimit.{RateLimitDecision, RateLimiter, allowed, denied, check}
use stateset_icp_handler.Idempotency.{
  CachedResponse, LookupOutcome, ReserveOutcome, Backend, Key, lookup, reserve, release, store,
}
use stateset_icp_handler.Service.Gate.{IntentInput, IntentConfig}

-- `check_rate_limit`: a shared limiter, where there is one, answers or fails.
unfoldable pub check_rate_limit :
    Bool
    → Bool
    → RateLimiter
    → String
    → Option ℕ
    → ℕ
    → Option (Option RateLimitDecision)
    → Result RateLimitDecision × RateLimiter
check_rate_limit is_production locks local bucket_id capacity now none =
    let (decision, local') = check locks local bucket_id capacity now in (ok decision, local')
check_rate_limit is_production locks local bucket_id capacity now (some (some decision)) =
    (ok decision, local)
check_rate_limit true locks local bucket_id capacity now (some none) =
    (err engine_unavailable, local)
check_rate_limit false locks local bucket_id capacity now (some none) =
    let (decision, local') = check locks local bucket_id capacity now in (ok decision, local')

-- The surfaces that apply the limit themselves skip it.
unfoldable pub admit_rate :
    Bool → Result RateLimitDecision × RateLimiter → RateLimiter → Result (Unit {0}) × RateLimiter
admit_rate true answer local = (ok tt, local)
admit_rate false (ok (denied _ _), local') local = (err rate_limited, local')
admit_rate false (ok (allowed _ _ _), local') local = (ok tt, local')
admit_rate false (err e, local') local = (err e, local')
admit_rate false (panic, local') local = (panic, local')

-- What the model takes as given of a response type `Body`.
pub record Codec (Body : Type 0) : Type 0 where
  pub to_vec : Body → Option (List ℕ)
  pub from_slice : List ℕ → Option Body
  pub from_slice-to_vec :
      (body : Body) (bytes : List ℕ) → to_vec body ≡ some bytes → from_slice bytes ≡ some body

-- The key for an agent and an intent's id, and the digest of an envelope, if it canonicalizes.
pub record Keys : Type 0 where
  pub intent_key : String → String → String
  pub digest : IntentInput → Option String

pub record IntentExecution (Body : Type 0) : Type 0 where
  pub body : Body
  pub replayed : Bool

-- The accesses and instants of a guarded run, and the token that it draws. `sight` is what each poll
-- finds, the last one at 0.
pub record GuardedRun : Type 0 where
  pub reserving : Attempt
  pub reserved_at : ℤ
  pub token : String
  pub between : Backend → Backend
  pub settling : Attempt
  pub stored_at : ℤ
  pub sight : ℕ → Attempt × Backend × ℤ

abbrev pub max_polls : ℕ
max_polls = 20

abbrev pub from_intent_id : Keys → IntentInput → Option String
from_intent_id keys input = elim input.intent_id [
  | none ↦ none
  | some id ↦ if id == "" then none else some (keys.intent_key input.agent_raw id)
]

unfoldable pub effective_key : Keys → IntentInput → Option String → Option String
effective_key keys input none = from_intent_id keys input
effective_key keys input (some k) = if k == "" then from_intent_id keys input else some k

-- At least a second, in nanoseconds.
abbrev pub lease_of : IntentConfig → ℤ
lease_of config = pos (max config.idempotency_lease_secs 1 * 10 ^ 9)

module _ {Body : Type 0} (codec : Codec Body) where
  unfoldable pub replay_cached : CachedResponse → Result (IntentExecution Body)
  replay_cached cached = elim (codec.from_slice cached.body_json) [
    | none ↦ err processing_error
    | some body ↦ ok (record { body = body; replayed = true })
  ]

  module _ (chrono : Chrono) (ttl : ℤ) (key : Key) (digest : String) where
    -- The polls that are left while another worker holds the key.
    unfoldable pub poll : (ℕ → Attempt × Backend × ℤ) → ℕ → Result (IntentExecution Body)
    unfolding replay_cached
    poll sight zero = err engine_unavailable
    poll sight (suc n) =
        let (a, b, now) = sight n in
        let rest = poll sight n in
        elim (lookup chrono a ttl b key digest now) [
          | LookupOutcome.replay cached ↦ replay_cached cached
          | LookupOutcome.conflict ↦ err idempotency_conflict
          | LookupOutcome.miss ↦ rest
        ]

    -- What the winner does with the outcome of its run.
    unfoldable pub settle :
        (List ℕ → List ℕ)
        → GuardedRun
        → String
        → Result Body
        → Backend
        → Result (IntentExecution Body) × Backend
    settle lossy run token (err e) b = (err e, release chrono run.settling b key token)
    settle lossy run token panic b = (panic, b)
    settle lossy run token (ok body) b = elim (codec.to_vec body) [
      | none ↦ (err processing_error, b)
      | some bytes ↦ (
        ok (record { body = body; replayed = false }),
        store chrono lossy run.settling b key digest (record { status = 200; body_json = bytes })
            run.stored_at token,
      )
    ]

    unfoldable pub run_guarded :
        {W : Type 0}
        → (List ℕ → List ℕ)
        → ℤ
        → GuardedRun
        → (W → Result Body × W)
        → W
        → Backend
        → Result (IntentExecution Body) × W × Backend
    unfolding replay_cached poll settle
    run_guarded lossy lease run handle_intent w b =
        let (outcome, b') =
          reserve chrono run.reserving ttl b key digest run.reserved_at lease run.token in
        elim outcome [
          | ReserveOutcome.replay cached ↦ (replay_cached cached, w, b')
          | ReserveOutcome.conflict ↦ (err idempotency_conflict, w, b')
          | ReserveOutcome.won token ↦
              let (result, w') = handle_intent w in
              let (answer, b'') = settle lossy run token result (run.between b') in
              (answer, w', b'')
          | ReserveOutcome.in_progress ↦ (poll run.sight max_polls, w, b')
        ]

-- The parts of `IcpService` that the pipeline changes.
pub record Handler (W : Type 0) : Type 0 where
  pub limiter : RateLimiter
  pub idempotency : Backend
  pub rest : W

-- Whether the rate limiter's lock holds, its clock, and the answer of a shared limiter.
pub record RateRun : Type 0 where
  pub locks : Bool
  pub at : ℕ
  pub distributed : Option (Option RateLimitDecision)

abbrev pub unguarded : {Body W : Type 0} → Result Body × W → Result (IntentExecution Body) × W
unguarded (ok body, w) = (ok (record { body = body; replayed = false }), w)
unguarded (err e, w) = (err e, w)
unguarded (panic, w) = (panic, w)

module _ {Body W : Type 0} (codec : Codec Body) (keys : Keys) (chrono : Chrono)
    (config : IntentConfig) (ttl : ℤ) (lossy : List ℕ → List ℕ)
    (handle_intent : IntentInput → W → Result Body × W) where
  -- With the key that guards the intent, if there is one.
  unfoldable pub handle_keyed :
      IntentInput
      → Option String
      → GuardedRun
      → Handler W
      → Result (IntentExecution Body) × Handler W
  unfolding run_guarded
  handle_keyed input none run h =
      let (answer, w) = unguarded (handle_intent input h.rest) in (answer, record h { rest = w })
  handle_keyed input (some key) run h = elim (keys.digest input) [
    | none ↦ (err processing_error, h)
    | some digest ↦
        let (answer, w, b) =
          run_guarded codec chrono ttl (input.tenant_id, key) digest lossy (lease_of config) run
            (handle_intent input) h.rest h.idempotency in
        (answer, record h { rest = w; idempotency = b })
  ]

  unfoldable pub handle_intent_idempotent :
      IntentInput
      → Option String
      → RateRun
      → GuardedRun
      → Handler W
      → Result (IntentExecution Body) × Handler W
  unfolding admit_rate check_rate_limit effective_key handle_keyed
  handle_intent_idempotent input explicit_key rate run h =
      let (admitted, limiter) =
        admit_rate input.skip_rate_limit
          (check_rate_limit config.is_production rate.locks h.limiter input.tenant_id
            input.rate_limit_per_minute rate.at rate.distributed)
          h.limiter in
      elim admitted [
        | ok _ ↦
            handle_keyed input (effective_key keys input explicit_key) run
              (record h { limiter = limiter })
        | err e ↦ (err e, record h { limiter = limiter })
        | panic ↦ (panic, record h { limiter = limiter })
      ]
