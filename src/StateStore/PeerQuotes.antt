-- ===== src/StateStore/PeerQuotes.antt =====
-- src/state_store.rs: the quotes between agents.
use stateset_icp_handler.Prelude.{
  ℕ, ◌≤◌, String, ◌≡◌, refl, ap, ◌∙◌, Bool, true, false, not, ◌&&◌, ◌||◌, Option, some, List, [],
  ◌∷◌, unwrap_or, length, filter_by,
}
use stateset_icp_handler.Prelude.Int.{ℤ, leb_ℤ}
use stateset_icp_handler.Prelude.Keyed.{Keyed, get as entry, ◌==◌, string_eq}
use stateset_icp_handler.Prelude.Sequences.{All, All-imp2}
use stateset_icp_handler.Chrono.{Chrono, IsOrdered, IsPrintable}
use stateset_icp_handler.Storage.{Attempt, smooth}
use stateset_icp_handler.Models.Peers.{
  PeerQuote, PeerQuoteStatus, pending, quoted, accepted, expired, rejected, same_status, wire_name,
  same_status-wire_name,
}
use stateset_icp_handler.StateStore.{
  Serde, JsonStore, JsonRow, memory, sqlite, column, deserialize_payload, values, usize_max,
  insert as insert_value, update as update_value,
}
use stateset_icp_handler.StateStore.Synced.{IsSynced, IsSyncedRow}
use stateset_icp_handler.StateStore.Listing.{
  Document, IsIndexed, list_for_tenant as list_documents, list_due,
}
use stateset_icp_handler.StateStore.Listing.Due.{
  documents, All-rows, IsFaithfulStore, list_due_exact, both_tests, due_text,
}

unfoldable pub index_columns : Chrono → PeerQuote → Keyed String String
index_columns chrono quote =
    ("updated_at", chrono.to_rfc3339 quote.updated_at)
    ∷ ("tenant_id", quote.tenant_id)
    ∷ ("created_at", chrono.to_rfc3339 quote.created_at)
    ∷ ("status", wire_name quote.status)
    ∷ ("expires_at", chrono.to_rfc3339 quote.expires_at)
    ∷ []

abbrev pub document : Document PeerQuote PeerQuoteStatus
document = record {
  id = λ v. v.id;
  tenant_id = λ v. v.tenant_id;
  state = λ v. v.status;
  created_at = λ v. v.created_at;
  same_state = same_status;
  state_column = "status";
  state_name = wire_name;
  index_columns = index_columns;
}

pub index_columns-IsIndexed : (chrono : Chrono) → IsIndexed document chrono
unfolding index_columns entry
index_columns-IsIndexed chrono = record {
  distinct = λ v. (refl, (refl, (refl, (refl, (refl, tt)))));
  tenant_column = λ v columns w. ap (λ o. unwrap_or o "") w.1.0;
  named_state = λ v columns w. ap (λ o. unwrap_or o "") w.1.1.1.0;
  same_name = same_status-wire_name;
}

module _ (serde : Serde PeerQuote) (chrono : Chrono) where
  unfoldable pub insert : Attempt → JsonStore PeerQuote → PeerQuote → JsonStore PeerQuote
  unfolding index_columns
  insert a s quote = insert_value serde a s quote.id quote (index_columns chrono quote)

  unfoldable pub update :
      Attempt
      → JsonStore PeerQuote
      → String
      → (PeerQuote → PeerQuote)
      → Option PeerQuote × JsonStore PeerQuote
  unfolding index_columns
  update a s id f = update_value serde a s id f (index_columns chrono)

  unfoldable pub list_for_tenant :
      Attempt
      → Attempt
      → Attempt
      → JsonStore PeerQuote
      → String
      → ℕ
      → Option PeerQuoteStatus
      → List PeerQuote
  unfolding index_columns
  list_for_tenant a b c s tenant_id limit state_filter =
      list_documents document serde chrono a b c s tenant_id limit state_filter

abbrev pub is_open : PeerQuoteStatus → Bool
is_open pending = true
is_open quoted = true
is_open _ = false

-- Not answered, and its time is over.
abbrev pub is_due : ℤ → PeerQuote → Bool
is_due now quote = is_open quote.status && leb_ℤ quote.expires_at now

-- The WHERE clause of the query.
abbrev pub row_is_due : Chrono → ℤ → JsonRow → Bool
row_is_due chrono now r =
    (column "status" r.columns == "pending" || column "status" r.columns == "quoted")
    && not (column "expires_at" r.columns == "")
    && not (chrono.text_before (chrono.to_rfc3339 now) (column "expires_at" r.columns))

unfoldable pub list_due_for_expiry :
    Serde PeerQuote
    → Chrono
    → Attempt
    → Attempt
    → Attempt
    → JsonStore PeerQuote
    → ℤ
    → List PeerQuote
list_due_for_expiry serde chrono a b c s now =
    list_due serde (is_due now) (row_is_due chrono now) a b c s

-- The quote ends in the years that a column can order.
abbrev pub IsDated : PeerQuote → Type 0
IsDated quote = IsPrintable quote.expires_at

open_status :
    (s : PeerQuoteStatus) → (wire_name s == "pending" || wire_name s == "quoted") ≡ is_open s
unfolding wire_name
open_status pending = refl
open_status quoted = refl
open_status accepted = refl
open_status expired = refl
open_status rejected = refl

module _ (chrono : Chrono) (ordered : IsOrdered chrono) (now : ℤ)
    (printable : IsPrintable now) where
  row_is_due-faithful :
      (serde : Serde PeerQuote) (r : JsonRow) (v : PeerQuote)
      → IsSyncedRow serde (index_columns chrono) r
      → deserialize_payload serde r ≡ some v
      → IsDated v
      → row_is_due chrono now r ≡ is_due now v
  unfolding index_columns
  row_is_due-faithful serde r v h d dated =
      let columns = h v d in
      both_tests _ _ _
        (ap (λ o. let c = unwrap_or o "" in c == "pending" || c == "quoted") columns.1.1.1.0
          ∙ open_status v.status)
        (due_text chrono ordered now printable v.expires_at _
          (ap (λ o. unwrap_or o "") columns.1.1.1.1.0) dated)

  faithful :
      (serde : Serde PeerQuote) (s : JsonStore PeerQuote)
      → IsSynced serde (index_columns chrono) s
      → All IsDated (documents serde s)
      → IsFaithfulStore serde (is_due now) (row_is_due chrono now) s
  faithful serde (memory m) synced dated = tt
  faithful serde (sqlite t) synced dated =
      All-imp2 _ _ _ (λ r h k v d. row_is_due-faithful serde r v h d (k v d)) (values t) synced
        (All-rows serde IsDated (values t) dated)

  -- The same for the quotes between agents.
  pub due_quotes_exact :
      (serde : Serde PeerQuote) (s : JsonStore PeerQuote)
      → IsSynced serde (index_columns chrono) s
      → All IsDated (documents serde s)
      → length (documents serde s) ≤ usize_max
      → list_due_for_expiry serde chrono smooth smooth smooth s now
        ≡ filter_by (is_due now) (documents serde s)
  unfolding list_due_for_expiry
  due_quotes_exact serde s synced dated few =
      list_due_exact serde (is_due now) (row_is_due chrono now) s few
        (faithful serde s synced dated)
