-- ===== src/Examples/Deliveries.antt =====
-- The theorems on the webhook outbox (src/webhook/outbox.rs) at concrete inputs.
use mathlib.Core.List.{Perm}
use stateset_icp_handler.Prelude.{
  ◌++◌, List, String, min, length, filter_by, ◌≡◌, refl, true, false, ◌&&◌, ◌||◌, none, some, [],
  ◌∷◌, arith, ltb,
}
use stateset_icp_handler.Prelude.Int.{pos, ◌+ℤ◌, leb_ℤ}
use stateset_icp_handler.Prelude.Keyed.{Keyed, get, string_eq}
use stateset_icp_handler.Storage.{smooth}
use stateset_icp_handler.Webhook.{DeliveryStatus, WebhookDelivery, backoff_for}
use stateset_icp_handler.Webhook.Changes.{is_in_flight}
use stateset_icp_handler.Webhook.Outbox.{
  WebhookOutbox, memory, get_delivery, get_for_tenant, is_due, list_due, values, prune,
  reclaim_in_flight, reset_for_retry_for_tenant,
}
use stateset_icp_handler.Webhook.Outbox.Failures.{
  FailedAttempt, fail_once, fail_all, due_after_failures,
}
use stateset_icp_handler.Webhook.Outbox.Reclaim.{reclaim_recovers}
use stateset_icp_handler.Webhook.Outbox.Tenants.{retry_answer, after_answer, tenant_retry}
use stateset_icp_handler.Webhook.Outbox.Due.{IsBatch, list_due-IsBatch}
use stateset_icp_handler.Webhook.Outbox.Retention.{prune_keeps_unfinished}
use stateset_icp_handler.Examples.Clock.{calendar}

abbrev fresh : WebhookDelivery
fresh = record {
  id = "d1";
  event_id = "e1";
  event_type = "transaction.completed";
  url = "https://hooks.example";
  payload_json = "{}";
  status = DeliveryStatus.pending;
  attempts = 0;
  max_attempts = 2;
  next_attempt_at = pos 5;
  last_status_code = none;
  last_error = none;
  created_at = pos 5;
  updated_at = pos 5;
  delivered_at = none;
  tenant_id = "acme";
}

abbrev one : WebhookOutbox
one = memory (("d1", fresh) ∷ [])

abbrev server_error : FailedAttempt
server_error = record {
  picked_at = pos 10;
  status_code = some 500;
  error = some "HTTP 500";
  failed_at = pos 20;
}

abbrev no_answer : FailedAttempt
no_answer = record {
  picked_at = pos 30;
  status_code = none;
  error = some "timeout";
  failed_at = pos 40;
}

due_after_failures_example :
    (d' : WebhookDelivery) × (get_delivery calendar
        (pos 0)
        smooth
        (fail_once calendar
          (pos 0)
          (fail_all calendar (pos 0) one "d1" (server_error ∷ []))
          "d1"
          no_answer)
        "d1"
      ≡ some d')
    × (d'.attempts ≡ 2)
    × (is_due (pos 99000000000000) d'
        ≡ (ltb 2 2 && leb_ℤ (pos 40 +ℤ backoff_for 2) (pos 99000000000000)))
unfolding get_delivery get
due_after_failures_example =
    due_after_failures calendar (pos 0) one "d1" (server_error ∷ []) no_answer fresh
      (pos 99000000000000) refl refl (omega arith) (omega arith) (omega arith, (omega arith, tt))

abbrev stranded : WebhookDelivery
stranded = record fresh { status = DeliveryStatus.in_flight; attempts = 1 }

abbrev crashed : WebhookOutbox
crashed = memory (("d1", stranded) ∷ [])

reclaim_recovers_example :
    (d' : WebhookDelivery) × (get_delivery calendar
        (pos 0)
        smooth
        (reclaim_in_flight calendar (pos 0) smooth crashed (pos 50)).1
        "d1"
      ≡ some d')
    × (is_in_flight d'.status ≡ false)
    × (d'.attempts ≡ 1)
    × (is_due (pos 50) d' ≡ (true || is_due (pos 50) stranded))
unfolding get_delivery get
reclaim_recovers_example = reclaim_recovers calendar (pos 0) crashed "d1" stranded (pos 50) refl

abbrev dead : WebhookOutbox
dead = memory (("d1", record fresh { status = DeliveryStatus.dead_lettered; attempts = 2 }) ∷ [])

tenant_retry_example :
    let (answer, o') =
      reset_for_retry_for_tenant calendar
        (pos 0)
        smooth
        smooth
        smooth
        smooth
        dead
        "d1"
        "acme"
        (pos 60) in
    (answer ≡ retry_answer (pos 60) (get_for_tenant calendar (pos 0) smooth dead "d1" "acme"))
    × (get_delivery calendar (pos 0) smooth o' "d1"
        ≡ after_answer
            (retry_answer (pos 60) (get_for_tenant calendar (pos 0) smooth dead "d1" "acme"))
            (get_delivery calendar (pos 0) smooth dead "d1"))
tenant_retry_example = tenant_retry calendar (pos 0) dead "d1" "acme" (pos 60)

prune_keeps_unfinished_example :
    get_delivery calendar
      (pos 0)
      smooth
      (prune calendar (pos 0) smooth smooth one (some (pos 9)) (some (pos 9))).1
      "d1"
    ≡ some fresh
unfolding get_delivery get
prune_keeps_unfinished_example =
    prune_keeps_unfinished calendar (pos 0) smooth smooth one (some (pos 9)) (some (pos 9)) "d1"
      fresh (refl, tt) refl refl refl

abbrev waiting : Keyed String WebhookDelivery
waiting =
    ("d1", record fresh { next_attempt_at = pos 40 })
    ∷ ("d2", record fresh { id = "d2" })
    ∷ ("d3", stranded)
    ∷ []

list_due-IsBatch_example :
    let listed = list_due calendar (pos 0) smooth (memory waiting) (pos 50) 1 in
    let due = filter_by (is_due (pos 50)) (values waiting) in
    (others : List WebhookDelivery) × Perm (listed ++ others) due
    × IsBatch (pos 50) (listed ++ others)
    × (length listed ≡ min 1 (length due))
list_due-IsBatch_example = list_due-IsBatch calendar (pos 0) waiting (pos 50) 1
