-- ===== src/Webhook/Outbox.antt =====
-- `WebhookOutbox` of src/webhook/outbox.rs, in memory or in the table `webhook_deliveries`.
-- `utc_now` is the clock's time, which a text that does not read falls back to.
pub mod Views
pub mod Failures
pub mod Reclaim
pub mod Tenants
pub mod Retention
pub mod Due
use stateset_icp_handler.Prelude.{
  ℕ, ◌-◌, String, Bool, true, not, ◌&&◌, ◌||◌, Option, none, some, List, [], ◌∷◌, map, length, take,
  filter_by, is_some_and, map_some, if◌then◌else◌,
}
use stateset_icp_handler.Prelude.Int.{ℤ, ltb_ℤ, leb_ℤ}
use stateset_icp_handler.Prelude.Keyed.{Keyed, get, insert, retain, ◌==◌, string_eq}
use stateset_icp_handler.Chrono.{Chrono}
use stateset_icp_handler.Storage.{Attempt}
use stateset_icp_handler.Webhook.{
  DeliveryStatus, RetryError, WebhookDelivery, DeliveryRow, from_row, to_row, updated_row,
}
use stateset_icp_handler.Webhook.Changes.{
  awaits, is_in_flight, is_delivered, is_dead_lettered, picked_up, accepted, reset, failure,
  reclaimed,
}

pub data WebhookOutbox : Type 0 where
  memory : Keyed String WebhookDelivery → WebhookOutbox
  sqlite : Keyed String DeliveryRow → WebhookOutbox

-- The answer of a retry.
pub data RetryResult : Type 0 where
  retried : WebhookDelivery → RetryResult
  refused : RetryError → RetryResult

-- A stable sort, `le` being the order.
unfoldable pub insert_by {ℓ} : {A : Type ℓ} → (A → A → Bool) → A → List A → List A
insert_by le a [] = a ∷ []
insert_by le a (b ∷ bs) = let rest = insert_by le a bs in if le a b then a ∷ b ∷ bs else b ∷ rest

unfoldable pub sort_by {ℓ} : {A : Type ℓ} → (A → A → Bool) → List A → List A
unfolding insert_by
sort_by le [] = []
sort_by le (a ∷ as') = insert_by le a (sort_by le as')

abbrev pub values {ℓ} : {V : Type ℓ} → Keyed String V → List V
values m = map (λ kv. kv.1) m

-- A change to every value, under its key.
unfoldable pub each {ℓ} : {V : Type ℓ} → (V → V) → Keyed String V → Keyed String V
each f [] = []
each f ((k, v) ∷ m) = (k, f v) ∷ each f m

unfoldable pub is_due : ℤ → WebhookDelivery → Bool
is_due now d = awaits d.status && leb_ℤ d.next_attempt_at now

module _ (chrono : Chrono) (utc_now : ℤ) where
  -- A duplicate id replaces in memory and is ignored by the table.
  unfoldable pub enqueue : Attempt → WebhookOutbox → WebhookDelivery → WebhookOutbox
  enqueue a (memory m) d = if a.lock then memory (insert d.id d m) else memory m
  enqueue a (sqlite t) d =
      if a.pool && a.write && not (is_some_and (get d.id t) (λ _. true))
      then sqlite (insert d.id (to_row chrono d) t)
      else sqlite t

  unfoldable pub get_delivery : Attempt → WebhookOutbox → String → Option WebhookDelivery
  get_delivery a (memory m) id = if a.lock then get id m else none
  get_delivery a (sqlite t) id =
      if a.pool && a.read then map_some (from_row chrono utc_now) (get id t) else none

  unfoldable pub update :
      Attempt → WebhookOutbox → String → (WebhookDelivery → WebhookDelivery) → WebhookOutbox
  update a (memory m) id f = elim (get id m) [
    | some d ↦ if a.lock then memory (insert id (f d) m) else memory m
    | none ↦ memory m
  ]
  update a (sqlite t) id f = elim (get id t) [
    | some r ↦
        if a.pool && a.begin && a.read && a.write && a.commit
        then sqlite (insert id (updated_row chrono r (f (from_row chrono utc_now r))) t)
        else sqlite t
    | none ↦ sqlite t
  ]

  unfoldable pub mark_in_flight : Attempt → WebhookOutbox → String → ℤ → WebhookOutbox
  mark_in_flight a o id now = update a o id (picked_up now)

  unfoldable pub mark_delivered : Attempt → WebhookOutbox → String → ℕ → ℤ → WebhookOutbox
  mark_delivered a o id status_code now = update a o id (accepted status_code now)

  unfoldable pub bump_failure :
      Attempt → WebhookOutbox → String → Option ℕ → Option String → ℤ → WebhookOutbox
  bump_failure a o id status_code error now = update a o id (failure status_code error now)

  abbrev pub reread : Option WebhookDelivery → RetryResult
  reread none = RetryResult.refused RetryError.not_found
  reread (some d) = RetryResult.retried d

  abbrev pub retry_from :
      DeliveryStatus → RetryResult × WebhookOutbox → WebhookOutbox → RetryResult × WebhookOutbox
  retry_from DeliveryStatus.pending go o = (RetryResult.refused RetryError.already_pending, o)
  retry_from DeliveryStatus.in_flight go o = (RetryResult.refused RetryError.in_flight, o)
  retry_from DeliveryStatus.delivered go o = (RetryResult.refused RetryError.already_delivered, o)
  retry_from DeliveryStatus.failed go o = go
  retry_from DeliveryStatus.dead_lettered go o = go

  -- `a`, `a'` and `a''` are the attempts of the read, the update and the read of its result.
  unfoldable pub reset_for_retry :
      Attempt → Attempt → Attempt → WebhookOutbox → String → ℤ → RetryResult × WebhookOutbox
  reset_for_retry a a' a'' o id now =
      let o' = update a' o id (reset now) in
      elim (get_delivery a o id) [
        | none ↦ (RetryResult.refused RetryError.not_found, o)
        | some current ↦ retry_from current.status (reread (get_delivery a'' o' id), o') o
      ]

  unfoldable pub get_for_tenant : Attempt → WebhookOutbox → String → String → Option WebhookDelivery
  get_for_tenant a o id tenant_id = elim (get_delivery a o id) [
    | none ↦ none
    | some d ↦ if d.tenant_id == tenant_id then some d else none
  ]

  unfoldable pub reset_for_retry_for_tenant :
      Attempt
      → Attempt
      → Attempt
      → Attempt
      → WebhookOutbox
      → String
      → String
      → ℤ
      → RetryResult × WebhookOutbox
  reset_for_retry_for_tenant b a a' a'' o id tenant_id now = elim (get_delivery b o id) [
    | none ↦ (RetryResult.refused RetryError.not_found, o)
    | some d ↦
        if d.tenant_id == tenant_id
        then reset_for_retry a a' a'' o id now
        else (RetryResult.refused RetryError.not_found, o)
  ]

  -- `UPDATE … SET status = 'pending', next_attempt_at = ?1, updated_at = ?1 WHERE status = 'in_flight'`
  unfoldable pub reclaimed_row : ℤ → DeliveryRow → DeliveryRow
  reclaimed_row now r =
      if r.status == "in_flight"
      then record r {
        status = "pending";
        next_attempt_at = chrono.to_rfc3339 now;
        updated_at = chrono.to_rfc3339 now;
      }
      else r

  -- How many were reclaimed, and the outbox after.
  unfoldable pub reclaim_in_flight : Attempt → WebhookOutbox → ℤ → ℕ × WebhookOutbox
  reclaim_in_flight a (memory m) now =
      if a.lock
      then (
        length (filter_by (λ d. is_in_flight d.status) (values m)),
        memory (each (reclaimed now) m),
      )
      else (0, memory m)
  reclaim_in_flight a (sqlite t) now =
      if a.pool && a.write
      then (
        length (filter_by (λ r. r.status == "in_flight") (values t)),
        sqlite (each (reclaimed_row now) t),
      )
      else (0, sqlite t)

  -- `a.cmp(b)` of texts, and `<=`
  abbrev text_le : String → String → Bool
  text_le s s' = not (chrono.text_before s' s)

  unfoldable pub row_due : ℤ → DeliveryRow → Bool
  row_due now r =
      (r.status == "pending" || r.status == "failed")
      && text_le r.next_attempt_at (chrono.to_rfc3339 now)

  unfoldable pub list_due : Attempt → WebhookOutbox → ℤ → ℕ → List WebhookDelivery
  unfolding sort_by
  list_due a (memory m) now limit = take limit (
      sort_by (λ d d'. leb_ℤ d.next_attempt_at d'.next_attempt_at)
        (filter_by (is_due now) (if a.lock then values m else [])))
  list_due a (sqlite t) now limit =
      if a.pool && a.read
      then map (from_row chrono utc_now) (
          take limit (
            sort_by (λ r r'. text_le r.next_attempt_at r'.next_attempt_at)
              (filter_by (row_due now) (values t))))
      else []

  -- What the retention keeps.
  unfoldable pub retained : Option ℤ → Option ℤ → WebhookDelivery → Bool
  retained delivered_cutoff dead_lettered_cutoff d = not (
      (is_delivered d.status && is_some_and delivered_cutoff (λ c. ltb_ℤ d.created_at c))
      || (is_dead_lettered d.status
          && is_some_and dead_lettered_cutoff (λ c. ltb_ℤ d.created_at c)))

  -- `DELETE FROM webhook_deliveries WHERE status = … AND created_at < ?1`, and how many went.
  unfoldable pub delete_before :
      Bool → String → Option ℤ → Keyed String DeliveryRow → ℕ × Keyed String DeliveryRow
  delete_before writes status none t = (0, t)
  delete_before writes status (some cutoff) t =
      if writes
      then (let rest =
            retain
              (λ r.
                not (
                  r.status == status && chrono.text_before r.created_at (chrono.to_rfc3339 cutoff)))
              t in
          (length t - length rest, rest))
      else (0, t)

  abbrev pruned_of : (WebhookDelivery → Bool) → Keyed String WebhookDelivery → ℕ
  pruned_of p m = length (filter_by p (values m))

  -- How many delivered and dead-lettered rows went, and the outbox after. `a'` is the second
  -- statement's.
  unfoldable pub prune :
      Attempt → Attempt → WebhookOutbox → Option ℤ → Option ℤ → (ℕ × ℕ) × WebhookOutbox
  prune a a' (memory m) delivered_cutoff dead_lettered_cutoff =
      if a.lock
      then (
        (
          pruned_of (λ d. not (retained delivered_cutoff none d)) m,
          pruned_of (λ d. not (retained none dead_lettered_cutoff d)) m,
        ),
        memory (retain (retained delivered_cutoff dead_lettered_cutoff) m),
      )
      else ((0, 0), memory m)
  prune a a' (sqlite t) delivered_cutoff dead_lettered_cutoff =
      if a.pool
      then (let (n, t') = delete_before a.write "delivered" delivered_cutoff t in
          let (n', t'') = delete_before a'.write "dead_lettered" dead_lettered_cutoff t' in
          ((n, n'), sqlite t''))
      else ((0, 0), sqlite t)
