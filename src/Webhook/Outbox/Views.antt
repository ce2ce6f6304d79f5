-- ===== src/Webhook/Outbox/Views.antt =====
-- What a read of the outbox (src/webhook/outbox.rs) gives after an update, on both backends.
use stateset_icp_handler.Prelude.{
  ℕ, ◌^◌, ◌<◌, String, ◌≡◌, refl, inl, inr, Option-cases, ap, ◌∙◌, sym, subst, Option, none, some,
  arith, unwrap_or, map_some,
}
use stateset_icp_handler.Prelude.Int.{ℤ, pos}
use stateset_icp_handler.Prelude.Keyed.{get, string_eq, get-insert_self}
use stateset_icp_handler.Chrono.{Chrono}
use stateset_icp_handler.Storage.{smooth}
use stateset_icp_handler.Webhook.{
  DeliveryStatus, WebhookDelivery, DeliveryRow, wire_name, parse_status, as_u32, try_u16, bind_some,
  parse_dt, from_row, updated_row,
}
use stateset_icp_handler.Webhook.Outbox.{WebhookOutbox, memory, sqlite, get_delivery, update}

pub parse-wire_name : (s : DeliveryStatus) → parse_status (wire_name s) ≡ s
unfolding parse_status wire_name
parse-wire_name DeliveryStatus.pending = refl
parse-wire_name DeliveryStatus.in_flight = refl
parse-wire_name DeliveryStatus.delivered = refl
parse-wire_name DeliveryStatus.failed = refl
parse-wire_name DeliveryStatus.dead_lettered = refl

-- The columns that an update does not write are those of the old delivery, and the numbers fit the
-- machine's.
pub record IsUpdate (old new : WebhookDelivery) : Type 0 where
  pub same_id : new.id ≡ old.id
  pub same_event_id : new.event_id ≡ old.event_id
  pub same_event_type : new.event_type ≡ old.event_type
  pub same_url : new.url ≡ old.url
  pub same_payload_json : new.payload_json ≡ old.payload_json
  pub same_max_attempts : new.max_attempts ≡ old.max_attempts
  pub same_created_at : new.created_at ≡ old.created_at
  pub same_tenant_id : new.tenant_id ≡ old.tenant_id
  pub attempts_fit : new.attempts < 2 ^ 32
  pub code_fits : unwrap_or new.last_status_code 0 < 2 ^ 16

module _ (chrono : Chrono) (utc_now : ℤ) where
  status_code_back :
      (c : Option ℕ) → unwrap_or c 0 < 2 ^ 16 → bind_some (map_some pos c) try_u16 ≡ c
  status_code_back none h = refl
  status_code_back (some n) h = ground arith

  instant_back :
      (o : Option ℤ) → map_some (parse_dt chrono utc_now) (map_some chrono.to_rfc3339 o) ≡ o
  instant_back none = refl
  instant_back (some t) = rw (chrono.parse-to_rfc3339 t)

  attempts_back : (n : ℕ) → n < 2 ^ 32 → as_u32 (pos n) ≡ n
  attempts_back n h = ground arith

  pub from_row-updated_row :
      (r : DeliveryRow) (d : WebhookDelivery)
      → IsUpdate (from_row chrono utc_now r) d
      → from_row chrono utc_now (updated_row chrono r d) ≡ d
  unfolding from_row updated_row
  from_row-updated_row r d u =
      let status = parse-wire_name d.status in
      let attempts = attempts_back d.attempts u.attempts_fit in
      let next = chrono.parse-to_rfc3339 d.next_attempt_at in
      let changed = chrono.parse-to_rfc3339 d.updated_at in
      let code = status_code_back d.last_status_code u.code_fits in
      let arrival = instant_back d.delivered_at in
      ground (
        arith, u.same_id, u.same_event_id, u.same_event_type, u.same_url, u.same_payload_json,
        u.same_max_attempts, u.same_created_at, u.same_tenant_id,
      )

  -- The update of a delivery is what is read next.
  pub get-update :
      (o : WebhookOutbox) (id : String) (f : WebhookDelivery → WebhookDelivery)
      (d : WebhookDelivery)
      → get_delivery chrono utc_now smooth o id ≡ some d
      → IsUpdate d (f d)
      → get_delivery chrono utc_now smooth (update chrono utc_now smooth o id f) id ≡ some (f d)
  unfolding get_delivery update
  get-update (memory m) id f d found u =
      rw (found, get_delivery, update) (get-insert_self id (f d) m)
  get-update (sqlite t) id f d found u = elim (Option-cases (get id t)) [
    | inl missing ↦ absurd (ground (arith, missing))
    | inr (r, row) ↦
        (let is_d : from_row chrono utc_now r ≡ d = ground (arith, row) in
          let new = updated_row chrono r (f (from_row chrono utc_now r)) in
          rw (row, get_delivery, update)
            (ap (map_some (from_row chrono utc_now)) (get-insert_self id new t)
              ∙ ap some (
                  from_row-updated_row r (f (from_row chrono utc_now r))
                    (subst (λ e. IsUpdate e (f e)) (sym is_d) u)
                  ∙ ap f is_d)))
  ]
