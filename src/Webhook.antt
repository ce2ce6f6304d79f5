-- ===== src/Webhook.antt =====
-- src/webhook/types.rs and the schedule of src/webhook/worker.rs: deliveries and their states.
pub mod Changes
pub mod Names
pub mod Outbox
use stateset_icp_handler.Prelude.{
  ℕ, ◌*◌, ◌%◌, ◌^◌, min, String, Option, none, some, unwrap_or, map_some, if◌then◌else◌, ltb,
}
use stateset_icp_handler.Prelude.Int.{ℤ, pos, negsuc, pos_part}
use stateset_icp_handler.Prelude.Keyed.{◌==◌, string_eq}
use stateset_icp_handler.Chrono.{Chrono}

pub data DeliveryStatus : Type 0 where
  pending in_flight delivered failed dead_lettered : DeliveryStatus

unfoldable pub wire_name : DeliveryStatus → String
wire_name DeliveryStatus.pending = "pending"
wire_name DeliveryStatus.in_flight = "in_flight"
wire_name DeliveryStatus.delivered = "delivered"
wire_name DeliveryStatus.failed = "failed"
wire_name DeliveryStatus.dead_lettered = "dead_lettered"

-- A name that is not known reads as pending.
unfoldable pub parse_status : String → DeliveryStatus
parse_status s =
    if s == "pending"
    then DeliveryStatus.pending
    else if s == "in_flight"
    then DeliveryStatus.in_flight
    else if s == "delivered"
    then DeliveryStatus.delivered
    else if s == "failed"
    then DeliveryStatus.failed
    else if s == "dead_lettered"
    then DeliveryStatus.dead_lettered
    else DeliveryStatus.pending

pub data RetryError : Type 0 where
  not_found already_pending in_flight already_delivered : RetryError

pub record WebhookDelivery : Type 0 where
  pub id : String
  pub event_id : String
  pub event_type : String
  pub url : String
  pub payload_json : String
  pub status : DeliveryStatus
  pub attempts : ℕ
  pub max_attempts : ℕ
  pub next_attempt_at : ℤ
  pub last_status_code : Option ℕ
  pub last_error : Option String
  pub created_at : ℤ
  pub updated_at : ℤ
  pub delivered_at : Option ℤ
  pub tenant_id : String

-- A row of `webhook_deliveries`.
pub record DeliveryRow : Type 0 where
  pub id : String
  pub event_id : String
  pub event_type : String
  pub url : String
  pub payload_json : String
  pub status : String
  pub attempts : ℤ
  pub max_attempts : ℤ
  pub next_attempt_at : String
  pub last_status_code : Option ℤ
  pub last_error : Option String
  pub created_at : String
  pub updated_at : String
  pub delivered_at : Option String
  pub tenant_id : String

-- `Duration::seconds(secs.min(3600))`, in nanoseconds. The source caps the square at `i64::MAX`, far
-- above 3600.
unfoldable pub backoff_for : ℕ → ℤ
backoff_for attempts = pos (min (attempts * attempts) 3600 * 10 ^ 9)

-- `n.max(0) as u32`
abbrev pub as_u32 : ℤ → ℕ
as_u32 n = pos_part n % 2 ^ 32

-- `u16::try_from(c).ok()`
abbrev pub try_u16 : ℤ → Option ℕ
try_u16 (pos n) = if ltb n (2 ^ 16) then some n else none
try_u16 (negsuc n) = none

abbrev pub bind_some {ℓ κ} : {A : Type ℓ} {B : Type κ} → Option A → (A → Option B) → Option B
bind_some none f = none
bind_some (some a) f = f a

module _ (chrono : Chrono) where
  -- `utc_now` is the clock's time, for a text that does not read.
  abbrev pub parse_dt : ℤ → String → ℤ
  parse_dt utc_now s = unwrap_or (chrono.parse_from_rfc3339 s) utc_now

  unfoldable pub from_row : ℤ → DeliveryRow → WebhookDelivery
  from_row utc_now r = record {
    id = r.id;
    event_id = r.event_id;
    event_type = r.event_type;
    url = r.url;
    payload_json = r.payload_json;
    status = parse_status r.status;
    attempts = as_u32 r.attempts;
    max_attempts = as_u32 r.max_attempts;
    next_attempt_at = parse_dt utc_now r.next_attempt_at;
    last_status_code = bind_some r.last_status_code try_u16;
    last_error = r.last_error;
    created_at = parse_dt utc_now r.created_at;
    updated_at = parse_dt utc_now r.updated_at;
    delivered_at = map_some (parse_dt utc_now) r.delivered_at;
    tenant_id = r.tenant_id;
  }

  -- The row that `enqueue` writes.
  unfoldable pub to_row : WebhookDelivery → DeliveryRow
  to_row d = record {
    id = d.id;
    event_id = d.event_id;
    event_type = d.event_type;
    url = d.url;
    payload_json = d.payload_json;
    status = wire_name d.status;
    attempts = pos d.attempts;
    max_attempts = pos d.max_attempts;
    next_attempt_at = chrono.to_rfc3339 d.next_attempt_at;
    last_status_code = map_some pos d.last_status_code;
    last_error = d.last_error;
    created_at = chrono.to_rfc3339 d.created_at;
    updated_at = chrono.to_rfc3339 d.updated_at;
    delivered_at = map_some chrono.to_rfc3339 d.delivered_at;
    tenant_id = d.tenant_id;
  }

  -- The columns that an update sets.
  unfoldable pub updated_row : DeliveryRow → WebhookDelivery → DeliveryRow
  updated_row r d = record r {
    status = wire_name d.status;
    attempts = pos d.attempts;
    next_attempt_at = chrono.to_rfc3339 d.next_attempt_at;
    last_status_code = map_some pos d.last_status_code;
    last_error = d.last_error;
    updated_at = chrono.to_rfc3339 d.updated_at;
    delivered_at = map_some chrono.to_rfc3339 d.delivered_at;
  }
