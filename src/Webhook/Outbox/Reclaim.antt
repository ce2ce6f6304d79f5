-- ===== src/Webhook/Outbox/Reclaim.antt =====
-- Deliveries stranded in flight, in the outbox of src/webhook/outbox.rs.
use stateset_icp_handler.Prelude.{
  String, ◌≡◌, refl, ap, ◌∙◌, false, ◌||◌, inl, inr, some, Option-cases, Bool-cases, [], ◌∷◌, arith,
  map_some,
}
use stateset_icp_handler.Prelude.Int.{ℤ}
use stateset_icp_handler.Prelude.Keyed.{Keyed, get, ◌==◌, string_eq}
use stateset_icp_handler.Chrono.{Chrono}
use stateset_icp_handler.Storage.{smooth}
use stateset_icp_handler.Webhook.{
  DeliveryStatus, WebhookDelivery, DeliveryRow, parse_status, from_row,
}
use stateset_icp_handler.Webhook.Changes.{is_in_flight, reclaimed}
use stateset_icp_handler.Webhook.Names.{in_flight_name}
use stateset_icp_handler.Webhook.Outbox.{
  WebhookOutbox, memory, sqlite, each, get_delivery, reclaimed_row, reclaim_in_flight, is_due,
}

get-each {ℓ} :
    {V : Type ℓ} (f : V → V) (k : String) (m : Keyed String V)
    → get k (each f m) ≡ map_some f (get k m)
unfolding get each
get-each f k [] = refl
get-each f k ((j, v) ∷ m) = ground (arith, get-each f k m)

pending_reads : parse_status "pending" ≡ DeliveryStatus.pending
unfolding parse_status
pending_reads = refl

module _ (chrono : Chrono) (utc_now : ℤ) where
  reclaimed_row_reads :
      (now : ℤ) (r : DeliveryRow)
      → from_row chrono utc_now (reclaimed_row chrono utc_now now r)
        ≡ reclaimed now (from_row chrono utc_now r)
  unfolding from_row reclaimed_row
  reclaimed_row_reads now r =
      let same = in_flight_name r.status in
      let back = chrono.parse-to_rfc3339 now in
      elim (Bool-cases (r.status == "in_flight")) [
        | inl e ↦ rw (e, reclaimed_row) (rw (same ∙ e, reclaimed) (rw back (rw pending_reads refl)))
        | inr e ↦ rw (e, reclaimed_row) (rw (same ∙ e, reclaimed) refl)
      ]

  get-reclaim :
      (o : WebhookOutbox) (id : String) (now : ℤ)
      → get_delivery chrono utc_now smooth (reclaim_in_flight chrono utc_now smooth o now).1 id
        ≡ map_some (reclaimed now) (get_delivery chrono utc_now smooth o id)
  unfolding get_delivery reclaim_in_flight
  get-reclaim (memory m) id now = get-each (reclaimed now) id m
  get-reclaim (sqlite t) id now =
      rw (get-each (reclaimed_row chrono utc_now now) id t) (elim (Option-cases (get id t)) [
        | inl missing ↦ rw missing
        | inr (r, found) ↦ rw found (ap some (reclaimed_row_reads now r))
      ])

reclaimed_due :
    (chrono : Chrono) (utc_now now : ℤ) (d : WebhookDelivery)
    → (is_in_flight (reclaimed now d).status ≡ false)
      × ((reclaimed now d).attempts ≡ d.attempts)
      × (is_due now (reclaimed now d) ≡ (is_in_flight d.status || is_due now d))
unfolding is_due
reclaimed_due chrono utc_now now d = (ground arith, ground arith, ground arith)

-- After a restart's reclaim no delivery is in flight, none is lost, none has gained an attempt, and
-- those due at once are the ones that were in flight and the ones that were due before. Both backends;
-- nothing fails in the store.
pub reclaim_recovers :
    (chrono : Chrono) (utc_now : ℤ) (o : WebhookOutbox) (id : String) (d : WebhookDelivery)
    (now : ℤ)
    → get_delivery chrono utc_now smooth o id ≡ some d
    → (d' : WebhookDelivery) × (get_delivery chrono utc_now smooth
          (reclaim_in_flight chrono utc_now smooth o now).1
          id
        ≡ some d')
      × (is_in_flight d'.status ≡ false)
      × (d'.attempts ≡ d.attempts)
      × (is_due now d' ≡ (is_in_flight d.status || is_due now d))
reclaim_recovers chrono utc_now o id d now found =
    let (grounded, same, due) = reclaimed_due chrono utc_now now d in
    (
      reclaimed now d,
      get-reclaim chrono utc_now o id now ∙ ap (map_some (reclaimed now)) found,
      grounded,
      same,
      due,
    )
