-- ===== src/StateStore/Subscriptions.antt =====
-- src/state_store.rs: the subscriptions.
use stateset_icp_handler.Prelude.{
  ℕ, ◌≤◌, String, ◌≡◌, refl, ap, ◌∙◌, Bool, true, false, not, ◌&&◌, ◌||◌, Option, none, some, List,
  [], ◌∷◌, unwrap_or, length, filter_by, arith,
}
use stateset_icp_handler.Prelude.Int.{ℤ, leb_ℤ}
use stateset_icp_handler.Prelude.Keyed.{Keyed, get as entry, ◌==◌, string_eq}
use stateset_icp_handler.Prelude.Sequences.{All, All-imp2}
use stateset_icp_handler.Chrono.{Chrono, IsOrdered, IsPrintable}
use stateset_icp_handler.Storage.{Attempt, smooth}
use stateset_icp_handler.Models.Subscriptions.{
  Subscription, SubscriptionStatus, trialing, active, paused, canceled, past_due, same_status,
  wire_name, same_status-wire_name,
}
use stateset_icp_handler.StateStore.{
  Serde, JsonStore, JsonRow, memory, sqlite, column, deserialize_payload, values, usize_max,
  insert as insert_value, update as update_value,
}
use stateset_icp_handler.StateStore.Synced.{IsSynced, IsSyncedRow}
use stateset_icp_handler.StateStore.Listing.{
  Document, IsIndexed, list_for_tenant as list_documents, list_due,
}
use stateset_icp_handler.StateStore.Listing.Due.{
  documents, All-rows, IsFaithfulStore, list_due_exact, due_text,
}

abbrev pub is_some {ℓ} : {A : Type ℓ} → Option A → Bool
is_some none = false
is_some (some a) = true

-- `i64::from(flag).to_string()`
abbrev pub flag_text : Bool → String
flag_text true = "1"
flag_text false = "0"

unfoldable pub index_columns : Chrono → Subscription → Keyed String String
index_columns chrono sub =
    ("updated_at", chrono.to_rfc3339 sub.updated_at)
    ∷ ("tenant_id", sub.tenant_id)
    ∷ ("created_at", chrono.to_rfc3339 sub.created_at)
    ∷ ("status", wire_name sub.status)
    ∷ ("next_charge_at", chrono.to_rfc3339 sub.next_charge_at)
    ∷ ("payment_present", flag_text (is_some sub.payment_instrument))
    ∷ []

abbrev pub document : Document Subscription SubscriptionStatus
document = record {
  id = λ v. v.id;
  tenant_id = λ v. v.tenant_id;
  state = λ v. v.status;
  created_at = λ v. v.created_at;
  same_state = same_status;
  state_column = "status";
  state_name = wire_name;
  index_columns = index_columns;
}

pub index_columns-IsIndexed : (chrono : Chrono) → IsIndexed document chrono
unfolding index_columns entry
index_columns-IsIndexed chrono = record {
  distinct = λ v. (refl, (refl, (refl, (refl, (refl, (refl, tt))))));
  tenant_column = λ v columns w. ap (λ o. unwrap_or o "") w.1.0;
  named_state = λ v columns w. ap (λ o. unwrap_or o "") w.1.1.1.0;
  same_name = same_status-wire_name;
}

module _ (serde : Serde Subscription) (chrono : Chrono) where
  unfoldable pub insert : Attempt → JsonStore Subscription → Subscription → JsonStore Subscription
  unfolding index_columns
  insert a s sub = insert_value serde a s sub.id sub (index_columns chrono sub)

  unfoldable pub update :
      Attempt
      → JsonStore Subscription
      → String
      → (Subscription → Subscription)
      → Option Subscription × JsonStore Subscription
  unfolding index_columns
  update a s id f = update_value serde a s id f (index_columns chrono)

  unfoldable pub list_for_tenant :
      Attempt
      → Attempt
      → Attempt
      → JsonStore Subscription
      → String
      → ℕ
      → Option SubscriptionStatus
      → List Subscription
  unfolding index_columns
  list_for_tenant a b c s tenant_id limit state_filter =
      list_documents document serde chrono a b c s tenant_id limit state_filter

abbrev pub is_charged : SubscriptionStatus → Bool
is_charged active = true
is_charged trialing = true
is_charged _ = false

-- Active or in trial, with a charge that is due and a payment instrument to charge.
abbrev pub is_due : ℤ → Subscription → Bool
is_due now sub =
    is_charged sub.status && leb_ℤ sub.next_charge_at now && is_some sub.payment_instrument

-- The WHERE clause of the query.
abbrev pub row_is_due : Chrono → ℤ → JsonRow → Bool
row_is_due chrono now r =
    (column "status" r.columns == "active" || column "status" r.columns == "trialing")
    && (column "payment_present" r.columns == "1")
    && not (column "next_charge_at" r.columns == "")
    && not (chrono.text_before (chrono.to_rfc3339 now) (column "next_charge_at" r.columns))

unfoldable pub list_due_for_renewal :
    Serde Subscription
    → Chrono
    → Attempt
    → Attempt
    → Attempt
    → JsonStore Subscription
    → ℤ
    → List Subscription
list_due_for_renewal serde chrono a b c s now =
    list_due serde (is_due now) (row_is_due chrono now) a b c s

-- The next charge falls in the years that a column can order.
abbrev pub IsDated : Subscription → Type 0
IsDated sub = IsPrintable sub.next_charge_at

charged_status :
    (s : SubscriptionStatus) → (wire_name s == "active" || wire_name s == "trialing") ≡ is_charged s
unfolding wire_name
charged_status trialing = refl
charged_status active = refl
charged_status paused = refl
charged_status canceled = refl
charged_status past_due = refl

present_flag : (p : Bool) → (flag_text p == "1") ≡ p
present_flag true = refl
present_flag false = refl

four_tests :
    (a b c d : Bool) {x y z : Bool}
    → a ≡ x
    → b ≡ y
    → (c && d) ≡ z
    → (a && b && c && d) ≡ (x && z && y)
four_tests a b c d e f g = ground arith

module _ (chrono : Chrono) (ordered : IsOrdered chrono) (now : ℤ)
    (printable : IsPrintable now) where
  row_is_due-faithful :
      (serde : Serde Subscription) (r : JsonRow) (v : Subscription)
      → IsSyncedRow serde (index_columns chrono) r
      → deserialize_payload serde r ≡ some v
      → IsDated v
      → row_is_due chrono now r ≡ is_due now v
  unfolding index_columns
  row_is_due-faithful serde r v h d dated =
      let columns = h v d in
      four_tests _ _ _ _
        (ap (λ o. let c = unwrap_or o "" in c == "active" || c == "trialing") columns.1.1.1.0
          ∙ charged_status v.status)
        (ap (λ o. unwrap_or o "" == "1") columns.1.1.1.1.1.0
          ∙ present_flag (is_some v.payment_instrument))
        (due_text chrono ordered now printable v.next_charge_at _
          (ap (λ o. unwrap_or o "") columns.1.1.1.1.0) dated)

  faithful :
      (serde : Serde Subscription) (s : JsonStore Subscription)
      → IsSynced serde (index_columns chrono) s
      → All IsDated (documents serde s)
      → IsFaithfulStore serde (is_due now) (row_is_due chrono now) s
  faithful serde (memory m) synced dated = tt
  faithful serde (sqlite t) synced dated =
      All-imp2 _ _ _ (λ r h k v d. row_is_due-faithful serde r v h d (k v d)) (values t) synced
        (All-rows serde IsDated (values t) dated)

  -- Where every access goes through and the index columns are in step, the subscriptions that a store
  -- lists for renewal are exactly its active and trialing ones whose next charge is due and that have
  -- a payment instrument, in the store's order, whether the list comes from the columns or from the
  -- documents: for printed instants that order as times do, `now` and the next charges in the years 0
  -- to 9999, and no more documents than a `usize` counts.
  pub due_for_renewal_exact :
      (serde : Serde Subscription) (s : JsonStore Subscription)
      → IsSynced serde (index_columns chrono) s
      → All IsDated (documents serde s)
      → length (documents serde s) ≤ usize_max
      → list_due_for_renewal serde chrono smooth smooth smooth s now
        ≡ filter_by (is_due now) (documents serde s)
  unfolding list_due_for_renewal
  due_for_renewal_exact serde s synced dated few =
      list_due_exact serde (is_due now) (row_is_due chrono now) s few
        (faithful serde s synced dated)
