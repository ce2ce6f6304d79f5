-- ===== src/Webhook/Changes.antt =====
-- The changes that the operations of src/webhook/outbox.rs make to one delivery.
use stateset_icp_handler.Prelude.{
  ℕ, ◌+◌, ◌-◌, ◌^◌, min, String, Bool, true, false, Option, none, some, leb, if◌then◌else◌,
}
use stateset_icp_handler.Prelude.Int.{ℤ, ◌+ℤ◌}
use stateset_icp_handler.Webhook.{DeliveryStatus, WebhookDelivery, backoff_for}

abbrev pub max_u32 : ℕ
max_u32 = 2 ^ 32 - 1

-- `matches!(d.status, DeliveryStatus::Pending | DeliveryStatus::Failed)`
abbrev pub awaits : DeliveryStatus → Bool
awaits DeliveryStatus.pending = true
awaits DeliveryStatus.failed = true
awaits _ = false

abbrev pub is_in_flight : DeliveryStatus → Bool
is_in_flight DeliveryStatus.in_flight = true
is_in_flight _ = false

abbrev pub is_delivered : DeliveryStatus → Bool
is_delivered DeliveryStatus.delivered = true
is_delivered _ = false

abbrev pub is_dead_lettered : DeliveryStatus → Bool
is_dead_lettered DeliveryStatus.dead_lettered = true
is_dead_lettered _ = false

abbrev pub picked_up : ℤ → WebhookDelivery → WebhookDelivery
picked_up now d = record d { status = DeliveryStatus.in_flight; updated_at = now }

abbrev pub accepted : ℕ → ℤ → WebhookDelivery → WebhookDelivery
accepted status_code now d = record d {
  status = DeliveryStatus.delivered;
  last_status_code = some status_code;
  last_error = none;
  delivered_at = some now;
  updated_at = now;
  attempts = min (d.attempts + 1) max_u32;
}

abbrev pub reset : ℤ → WebhookDelivery → WebhookDelivery
reset now d = record d {
  status = DeliveryStatus.pending;
  attempts = 0;
  last_status_code = none;
  last_error = none;
  delivered_at = none;
  next_attempt_at = now;
  updated_at = now;
}

abbrev pub counted : Option ℕ → Option String → ℤ → WebhookDelivery → WebhookDelivery
counted status_code error now d = record d {
  attempts = min (d.attempts + 1) max_u32;
  last_status_code = status_code;
  last_error = error;
  updated_at = now;
}

abbrev pub rescheduled : ℤ → WebhookDelivery → WebhookDelivery
rescheduled now d =
    if leb d.max_attempts d.attempts
    then record d { status = DeliveryStatus.dead_lettered }
    else record d {
      status = DeliveryStatus.failed;
      next_attempt_at = now +ℤ backoff_for d.attempts;
    }

abbrev pub failure : Option ℕ → Option String → ℤ → WebhookDelivery → WebhookDelivery
failure status_code error now d = rescheduled now (counted status_code error now d)

abbrev pub reclaimed : ℤ → WebhookDelivery → WebhookDelivery
reclaimed now d =
    if is_in_flight d.status
    then record d { status = DeliveryStatus.pending; next_attempt_at = now; updated_at = now }
    else d
