-- ===== src/Webhook/Outbox/Tenants.antt =====
-- What a tenant may retry, in the outbox of src/webhook/outbox.rs.
use stateset_icp_handler.Prelude.{
  String, ◌≡◌, refl, ap, inl, inr, Option, none, some, Option-cases, arith,
}
use stateset_icp_handler.Prelude.Int.{ℤ}
use stateset_icp_handler.Prelude.Keyed.{string_eq}
use stateset_icp_handler.Chrono.{Chrono}
use stateset_icp_handler.Storage.{smooth}
use stateset_icp_handler.Webhook.{DeliveryStatus, RetryError, WebhookDelivery}
use stateset_icp_handler.Webhook.Changes.{reset}
use stateset_icp_handler.Webhook.Outbox.{
  WebhookOutbox, RetryResult, get_delivery, get_for_tenant, reset_for_retry,
  reset_for_retry_for_tenant, reread, retry_from,
}
use stateset_icp_handler.Webhook.Outbox.Views.{get-update}

-- The answer to the retry of a delivery that the tenant sees, or does not.
abbrev pub answer_for : DeliveryStatus → ℤ → WebhookDelivery → RetryResult
answer_for DeliveryStatus.pending now d = RetryResult.refused RetryError.already_pending
answer_for DeliveryStatus.in_flight now d = RetryResult.refused RetryError.in_flight
answer_for DeliveryStatus.delivered now d = RetryResult.refused RetryError.already_delivered
answer_for DeliveryStatus.failed now d = RetryResult.retried (reset now d)
answer_for DeliveryStatus.dead_lettered now d = RetryResult.retried (reset now d)

abbrev pub retry_answer : ℤ → Option WebhookDelivery → RetryResult
retry_answer now none = RetryResult.refused RetryError.not_found
retry_answer now (some d) = answer_for d.status now d

-- The delivery after an answer.
abbrev pub after_answer : RetryResult → Option WebhookDelivery → Option WebhookDelivery
after_answer (RetryResult.retried d') o = some d'
after_answer (RetryResult.refused _) o = o

module _ (chrono : Chrono) (utc_now : ℤ) where
  from_status :
      (o o' : WebhookOutbox) (id : String) (now : ℤ) (d : WebhookDelivery) (s : DeliveryStatus)
      → get_delivery chrono utc_now smooth o id ≡ some d
      → get_delivery chrono utc_now smooth o' id ≡ some (reset now d)
      → let (answer, o'') =
          retry_from chrono utc_now s
            (reread chrono utc_now (get_delivery chrono utc_now smooth o' id), o')
            o in
        (answer ≡ answer_for s now d)
        × (get_delivery chrono utc_now smooth o'' id ≡ after_answer (answer_for s now d) (some d))
  from_status o o' id now d DeliveryStatus.pending found written = (refl, found)
  from_status o o' id now d DeliveryStatus.in_flight found written = (refl, found)
  from_status o o' id now d DeliveryStatus.delivered found written = (refl, found)
  from_status o o' id now d DeliveryStatus.failed found written =
      (ap (reread chrono utc_now) written, written)
  from_status o o' id now d DeliveryStatus.dead_lettered found written =
      (ap (reread chrono utc_now) written, written)

  reset_answers :
      (o : WebhookOutbox) (id : String) (now : ℤ) (d : WebhookDelivery)
      → get_delivery chrono utc_now smooth o id ≡ some d
      → let (answer, o') = reset_for_retry chrono utc_now smooth smooth smooth o id now in
        (answer ≡ answer_for d.status now d)
        × (get_delivery chrono utc_now smooth o' id
            ≡ after_answer (answer_for d.status now d) (some d))
  unfolding reset_for_retry
  reset_answers o id now d found =
      let written = get-update chrono utc_now o id (reset now) d found (record {
        same_id = refl;
        same_event_id = refl;
        same_event_type = refl;
        same_url = refl;
        same_payload_json = refl;
        same_max_attempts = refl;
        same_created_at = refl;
        same_tenant_id = refl;
        attempts_fit = omega arith;
        code_fits = omega arith;
      }) in
      rw (found, reset_for_retry) (from_status o _ id now d d.status found written)

  unseen :
      (o : WebhookOutbox) (id tenant_id : String) (now : ℤ)
      → get_for_tenant chrono utc_now smooth o id tenant_id ≡ none
      → reset_for_retry_for_tenant chrono utc_now smooth smooth smooth smooth o id tenant_id now
        ≡ (RetryResult.refused RetryError.not_found, o)
  unfolding reset_for_retry_for_tenant get_for_tenant
  unseen o id tenant_id now h = ground arith

  seen :
      (o : WebhookOutbox) (id tenant_id : String) (now : ℤ) (d : WebhookDelivery)
      → get_for_tenant chrono utc_now smooth o id tenant_id ≡ some d
      → (reset_for_retry_for_tenant chrono utc_now smooth smooth smooth smooth o id tenant_id now
          ≡ reset_for_retry chrono utc_now smooth smooth smooth o id now)
        × (get_delivery chrono utc_now smooth o id ≡ some d)
  unfolding reset_for_retry_for_tenant get_for_tenant
  seen o id tenant_id now d h = ground arith

-- The tenant-scoped retry answers from what the tenant-scoped read gives: a delivery that is absent and
-- one of another tenant are both not found; a pending, in-flight or delivered one is refused, each with
-- its own error; a failed or dead-lettered one is retried, with no attempts, due now and its last answer
-- cleared. The answer is what is stored then, and a refusal changes nothing of the delivery. Both
-- backends; nothing fails in the store.
pub tenant_retry :
    (chrono : Chrono) (utc_now : ℤ) (o : WebhookOutbox) (id tenant_id : String) (now : ℤ)
    → let (answer, o') =
        reset_for_retry_for_tenant chrono utc_now smooth smooth smooth smooth o id tenant_id now in
      (answer ≡ retry_answer now (get_for_tenant chrono utc_now smooth o id tenant_id))
      × (get_delivery chrono utc_now smooth o' id
          ≡ after_answer
              (retry_answer now (get_for_tenant chrono utc_now smooth o id tenant_id))
              (get_delivery chrono utc_now smooth o id))
tenant_retry chrono utc_now o id tenant_id now =
    elim (Option-cases (get_for_tenant chrono utc_now smooth o id tenant_id)) [
      | inl missing ↦
          rw missing (rw (unseen chrono utc_now o id tenant_id now missing) (refl, refl))
      | inr (d, visible) ↦
          (let (same, found) = seen chrono utc_now o id tenant_id now d visible in
            rw visible (rw same (rw found (reset_answers chrono utc_now o id now d found))))
    ]
