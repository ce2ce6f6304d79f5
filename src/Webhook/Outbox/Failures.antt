-- ===== src/Webhook/Outbox/Failures.antt =====
-- A delivery whose attempts fail, in the outbox of src/webhook/outbox.rs.
use stateset_icp_handler.Prelude.{
  ℕ, suc, ◌+◌, ◌^◌, ◌<◌, ◌≤◌, min, String, ◌≡◌, refl, ap, ◌∙◌, sym, subst, ◌&&◌, Option, some, List,
  [], ◌∷◌, arith, unwrap_or, ltb, length,
}
use stateset_icp_handler.Prelude.Int.{ℤ, ◌+ℤ◌, leb_ℤ}
use stateset_icp_handler.Chrono.{Chrono}
use stateset_icp_handler.Storage.{smooth}
use stateset_icp_handler.Webhook.{WebhookDelivery, backoff_for}
use stateset_icp_handler.Webhook.Changes.{max_u32, picked_up, failure}
use stateset_icp_handler.Webhook.Outbox.{
  WebhookOutbox, get_delivery, update, mark_in_flight, bump_failure, is_due,
}
use stateset_icp_handler.Webhook.Outbox.Views.{IsUpdate, get-update}

-- An attempt that fails: when it was picked up, the answer, and when it failed.
pub record FailedAttempt : Type 0 where
  pub picked_at : ℤ
  pub status_code : Option ℕ
  pub error : Option String
  pub failed_at : ℤ

abbrev pub AllCodes : List FailedAttempt → Type 0
AllCodes [] = Unit
AllCodes (x ∷ xs) = (unwrap_or x.status_code 0 < 2 ^ 16) × AllCodes xs

module _ (chrono : Chrono) (utc_now : ℤ) where
  abbrev pub fail_once : WebhookOutbox → String → FailedAttempt → WebhookOutbox
  fail_once o id x =
      bump_failure chrono utc_now smooth (mark_in_flight chrono utc_now smooth o id x.picked_at) id
        x.status_code x.error x.failed_at

  unfoldable pub fail_all : WebhookOutbox → String → List FailedAttempt → WebhookOutbox
  fail_all o id [] = o
  fail_all o id (x ∷ xs) = fail_all (fail_once o id x) id xs

  abbrev failed_delivery : FailedAttempt → WebhookDelivery → WebhookDelivery
  failed_delivery x d = failure x.status_code x.error x.failed_at (picked_up x.picked_at d)

  failure-IsUpdate :
      (x : FailedAttempt) (d : WebhookDelivery)
      → unwrap_or x.status_code 0 < 2 ^ 16
      → IsUpdate (picked_up x.picked_at d) (failed_delivery x d)
  failure-IsUpdate x d fits = record {
    same_id = ground arith;
    same_event_id = ground arith;
    same_event_type = ground arith;
    same_url = ground arith;
    same_payload_json = ground arith;
    same_max_attempts = ground arith;
    same_created_at = ground arith;
    same_tenant_id = ground arith;
    attempts_fit = ground arith;
    code_fits = ground arith;
  }

  after_failure :
      (o : WebhookOutbox) (id : String) (x : FailedAttempt) (d : WebhookDelivery)
      → get_delivery chrono utc_now smooth o id ≡ some d
      → unwrap_or d.last_status_code 0 < 2 ^ 16
      → d.attempts < 2 ^ 32
      → unwrap_or x.status_code 0 < 2 ^ 16
      → get_delivery chrono utc_now smooth (fail_once o id x) id ≡ some (failed_delivery x d)
  unfolding mark_in_flight bump_failure
  after_failure o id x d found old_fits few fits =
      let picked = get-update chrono utc_now o id (picked_up x.picked_at) d found (record {
        same_id = refl;
        same_event_id = refl;
        same_event_type = refl;
        same_url = refl;
        same_payload_json = refl;
        same_max_attempts = refl;
        same_created_at = refl;
        same_tenant_id = refl;
        attempts_fit = few;
        code_fits = old_fits;
      }) in
      get-update chrono utc_now (update chrono utc_now smooth o id (picked_up x.picked_at)) id
        (failure x.status_code x.error x.failed_at) (picked_up x.picked_at d) picked
        (failure-IsUpdate x d fits)

  -- The delivery that has been counted `n` times.
  record Counted (x : FailedAttempt) (d d' : WebhookDelivery) (n : ℕ) : Type 0 where
    attempts_are : d'.attempts ≡ n
    max_is : d'.max_attempts ≡ d.max_attempts
    code_is : d'.last_status_code ≡ x.status_code
    due_at :
        (later : ℤ)
        → is_due later d' ≡ (ltb n d.max_attempts && leb_ℤ (x.failed_at +ℤ backoff_for n) later)

  failed_once :
      (x : FailedAttempt) (d : WebhookDelivery)
      → Counted x d (failed_delivery x d) (min (d.attempts + 1) max_u32)
  unfolding is_due
  failed_once x d = record {
    attempts_are = ground arith;
    max_is = ground arith;
    code_is = ground arith;
    due_at = λ later. ground arith;
  }

  failed_to :
      (x : FailedAttempt) (d : WebhookDelivery) (n : ℕ)
      → min (d.attempts + 1) max_u32 ≡ n
      → Counted x d (failed_delivery x d) n
  failed_to x d n count = subst (Counted x d (failed_delivery x d)) count (failed_once x d)

  all_failed :
      (o : WebhookOutbox) (id : String) (xs : List FailedAttempt) (d : WebhookDelivery)
      → get_delivery chrono utc_now smooth o id ≡ some d
      → unwrap_or d.last_status_code 0 < 2 ^ 16
      → d.attempts + length xs ≤ max_u32
      → AllCodes xs
      → (d' : WebhookDelivery) × (get_delivery chrono utc_now smooth (fail_all o id xs) id
          ≡ some d')
        × (d'.attempts ≡ d.attempts + length xs)
        × (d'.max_attempts ≡ d.max_attempts)
        × (unwrap_or d'.last_status_code 0 < 2 ^ 16)
  unfolding fail_all
  all_failed o id [] d found old_fits few codes = (d, found, omega arith, refl, old_fits)
  all_failed o id (x ∷ xs) d found old_fits few (code, codes) =
      let next = failed_delivery x d in
      let once = after_failure o id x d found old_fits (omega arith) code in
      let c = failed_to x d (suc d.attempts) (omega arith) in
      let count = c.attempts_are in
      let few' : next.attempts + length xs ≤ max_u32 = omega arith in
      let (d', found', attempts', max', fits') =
        all_failed (fail_once o id x) id xs next once
          (subst (λ o. unwrap_or o 0 < 2 ^ 16) (sym c.code_is) code) few' codes in
      (d', found', omega arith, max' ∙ c.max_is, fits')

-- After the attempts of a new delivery have failed, `length xs` of them and then one at
-- `last.failed_at`, it has been counted as attempted that often, and it is due at `later` exactly if
-- that is fewer than its `max_attempts` and the backoff of that count has passed since the last
-- failure. Both backends; nothing fails in the store, the answers' status codes are those of a `u16`
-- and the count is a `u32`.
pub due_after_failures :
    (chrono : Chrono) (utc_now : ℤ) (o : WebhookOutbox) (id : String) (xs : List FailedAttempt)
    (last : FailedAttempt) (d : WebhookDelivery) (later : ℤ)
    → get_delivery chrono utc_now smooth o id ≡ some d
    → d.attempts ≡ 0
    → unwrap_or d.last_status_code 0 < 2 ^ 16
    → length xs < max_u32
    → AllCodes (last ∷ xs)
    → let n = suc (length xs) in
      (d' : WebhookDelivery) × (get_delivery chrono utc_now smooth
          (fail_once chrono utc_now (fail_all chrono utc_now o id xs) id last)
          id
        ≡ some d')
      × (d'.attempts ≡ n)
      × (is_due later d' ≡ (ltb n d.max_attempts && leb_ℤ (last.failed_at +ℤ backoff_for n) later))
due_after_failures chrono utc_now o id xs last d later found fresh old_fits few (code, codes) =
    let (d1, found1, attempts1, max1, fits1) =
      all_failed chrono utc_now o id xs d found old_fits (omega arith) codes in
    let once =
      after_failure chrono utc_now (fail_all chrono utc_now o id xs) id last d1 found1 fits1
        (omega arith) code in
    let c = failed_to chrono utc_now last d1 (suc (length xs)) (omega arith) in
    (
      failed_delivery chrono utc_now last d1,
      once,
      c.attempts_are,
      c.due_at later
          ∙ ap
              (λ m.
                ltb (suc (length xs)) m
                && leb_ℤ (last.failed_at +ℤ backoff_for (suc (length xs))) later)
              max1,
    )
