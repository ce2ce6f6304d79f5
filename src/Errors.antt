-- ===== src/Errors.antt =====
-- src/errors.rs: the error taxonomy and its mapping to status codes.
-- The text that an error carries is left out; its class, status and retry flag are kept.
use stateset_icp_handler.Prelude.{
  ℕ, String, ◌≡◌, ◌↔◌, ◌⊎◌, refl, Bool, true, false, Option, none, some, arith,
}

pub data ApiError : Type 0 where
  invalid_request authentication_failed mandate_invalid mandate_out_of_scope : ApiError
  mandate_budget_exceeded intent_not_supported resource_not_found conflict : ApiError
  idempotency_conflict precondition_failed rate_limited engine_unavailable : ApiError
  processing_error : ApiError

-- The `type`, the `code` and the HTTP status.
pub code_and_status : ApiError → String × String × ℕ
code_and_status invalid_request = ("invalid_request", "invalid_request", 400)
code_and_status authentication_failed = ("authentication_failed", "authentication_failed", 401)
code_and_status mandate_invalid = ("mandate_invalid", "mandate_invalid", 401)
code_and_status mandate_out_of_scope = ("mandate_out_of_scope", "mandate_out_of_scope", 403)
code_and_status mandate_budget_exceeded =
    ("mandate_budget_exceeded", "mandate_budget_exceeded", 402)
code_and_status intent_not_supported = ("intent_not_supported", "intent_not_supported", 404)
code_and_status resource_not_found = ("resource_not_found", "resource_not_found", 404)
code_and_status conflict = ("conflict", "conflict", 409)
code_and_status idempotency_conflict = ("conflict", "idempotency_conflict", 409)
code_and_status precondition_failed = ("precondition_failed", "precondition_failed", 412)
code_and_status rate_limited = ("rate_limited", "rate_limited", 429)
code_and_status engine_unavailable = ("engine_unavailable", "engine_unavailable", 503)
code_and_status processing_error = ("processing_error", "processing_error", 500)

pub retriable : ApiError → Bool
retriable rate_limited = true
retriable engine_unavailable = true
retriable _ = false

-- A fallible call, which may also panic (and then unwinds the request's task).
pub data Result {ℓ} (A : Type ℓ) : Type ℓ where
  panic : Result A
  ok : A → Result A
  err : ApiError → Result A

infixl 5 ◌>>=◌
abbrev pub ◌>>=◌ {ℓ κ} : {A : Type ℓ} {B : Type κ} → Result A → (A → Result B) → Result B
panic >>= next = panic
err e >>= next = err e
ok a >>= next = next a

infixl 5 ◌>>◌
abbrev pub ◌>>◌ {ℓ} : {B : Type ℓ} → Result (Unit {0}) → Result B → Result B
check >> next = check >>= λ _. next

-- `if !c { return Err(e) }`
abbrev pub ensure : Bool → ApiError → Result (Unit {0})
ensure true e = ok tt
ensure false e = err e

pub >>=-eq-ok {ℓ κ} :
    {A : Type ℓ} {B : Type κ} (call : Result A) (next : A → Result B) {b : B}
    → (call >>= next) ≡ ok b
    → (a : A) × (call ≡ ok a) × (next a ≡ ok b)
>>=-eq-ok panic next h = cc
>>=-eq-ok (err e) next h = cc
>>=-eq-ok (ok a) next h = (a, refl, h)

-- `Option::ok_or`
abbrev pub ok_or {ℓ} : {A : Type ℓ} → Option A → ApiError → Result A
ok_or none e = err e
ok_or (some a) e = ok a

pub ok_or-bind {ℓ κ} :
    {A : Type ℓ} {B : Type κ} (o : Option A) (e : ApiError) (f : A → Result B) {b : B}
    → (ok_or o e >>= f) ≡ ok b
    → (a : A) × (o ≡ some a) × (f a ≡ ok b)
ok_or-bind none e f h = cc
ok_or-bind (some a) e f h = (a, refl, h)

pub ok_or-eq-ok {ℓ} :
    {A : Type ℓ} (o : Option A) (e : ApiError) {a : A} → ok_or o e ≡ ok a → o ≡ some a
ok_or-eq-ok none e h = cc
ok_or-eq-ok (some x) e h = cc

pub ensure-bind {ℓ} :
    {B : Type ℓ} (c : Bool) (e : ApiError) (k : Result B) {b : B}
    → (ensure c e >> k) ≡ ok b
    → (c ≡ true) × (k ≡ ok b)
ensure-bind true e k h = (refl, h)
ensure-bind false e k h = cc

pub ensure-eq-ok : (c : Bool) (e : ApiError) (u : Unit {0}) → ensure c e ≡ ok u → c ≡ true
ensure-eq-ok true e u h = refl
ensure-eq-ok false e u h = cc

-- An error is marked retriable exactly when its HTTP status is 429 or 503.
pub retriable_iff :
    (e : ApiError)
    → (retriable e ≡ true) ↔ (((code_and_status e).2 ≡ 429) ⊎ ((code_and_status e).2 ≡ 503))
unfolding retriable code_and_status
retriable_iff invalid_request = ground arith
retriable_iff authentication_failed = ground arith
retriable_iff mandate_invalid = ground arith
retriable_iff mandate_out_of_scope = ground arith
retriable_iff mandate_budget_exceeded = ground arith
retriable_iff intent_not_supported = ground arith
retriable_iff resource_not_found = ground arith
retriable_iff conflict = ground arith
retriable_iff idempotency_conflict = ground arith
retriable_iff precondition_failed = ground arith
retriable_iff rate_limited = ground arith
retriable_iff engine_unavailable = ground arith
retriable_iff processing_error = ground arith
