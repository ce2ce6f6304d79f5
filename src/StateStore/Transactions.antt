-- ===== src/StateStore/Transactions.antt =====
-- src/state_store.rs: the transactions.
use stateset_icp_handler.Prelude.{
  ℕ, ◌≤◌, String, ◌≡◌, refl, ap, ◌∙◌, Bool, true, false, not, ◌&&◌, ◌||◌, Option, none, some, List,
  [], ◌∷◌, is_some_and, unwrap_or, map_some, length, filter_by,
}
use stateset_icp_handler.Prelude.Int.{ℤ, leb_ℤ}
use stateset_icp_handler.Prelude.Keyed.{Keyed, get as entry, ◌==◌, string_eq}
use stateset_icp_handler.Prelude.Sequences.{All, All-imp2}
use stateset_icp_handler.Chrono.{Chrono, IsOrdered, IsPrintable, IsPrintableIfAny}
use stateset_icp_handler.Storage.{Attempt, smooth}
use stateset_icp_handler.Models.Transactions.{
  Transaction, TransactionState, draft, quoted, authorized, captured, fulfilled, completed,
  reversed, canceled, expired, same_state, transaction_state_wire_name, same_state_wire_name,
}
use stateset_icp_handler.StateStore.{
  Serde, JsonStore, JsonRow, memory, sqlite, column, deserialize_payload, values, usize_max,
  insert as insert_value, update as update_value,
}
use stateset_icp_handler.StateStore.Synced.{IsSynced, IsSyncedRow}
use stateset_icp_handler.StateStore.Listing.{
  Document, IsIndexed, list_for_tenant as list_documents, list_due,
}
use stateset_icp_handler.StateStore.Listing.Due.{
  documents, All-rows, IsFaithfulStore, list_due_exact, both_tests, due_text,
}

unfoldable pub index_columns : Chrono → Transaction → Keyed String String
index_columns chrono txn =
    ("updated_at", chrono.to_rfc3339 txn.updated_at)
    ∷ ("tenant_id", txn.tenant_id)
    ∷ ("created_at", chrono.to_rfc3339 txn.created_at)
    ∷ ("state", transaction_state_wire_name txn.state)
    ∷ ("quote_expires_at", unwrap_or (map_some chrono.to_rfc3339 txn.quote_expires_at) "")
    ∷ []

abbrev pub document : Document Transaction TransactionState
document = record {
  id = λ v. v.id;
  tenant_id = λ v. v.tenant_id;
  state = λ v. v.state;
  created_at = λ v. v.created_at;
  same_state = same_state;
  state_column = "state";
  state_name = transaction_state_wire_name;
  index_columns = index_columns;
}

pub index_columns-IsIndexed : (chrono : Chrono) → IsIndexed document chrono
unfolding index_columns entry
index_columns-IsIndexed chrono = record {
  distinct = λ v. (refl, (refl, (refl, (refl, (refl, tt)))));
  tenant_column = λ v columns w. ap (λ o. unwrap_or o "") w.1.0;
  named_state = λ v columns w. ap (λ o. unwrap_or o "") w.1.1.1.0;
  same_name = same_state_wire_name;
}

module _ (serde : Serde Transaction) (chrono : Chrono) where
  unfoldable pub insert : Attempt → JsonStore Transaction → Transaction → JsonStore Transaction
  unfolding index_columns
  insert a s txn = insert_value serde a s txn.id txn (index_columns chrono txn)

  unfoldable pub update :
      Attempt
      → JsonStore Transaction
      → String
      → (Transaction → Transaction)
      → Option Transaction × JsonStore Transaction
  unfolding index_columns
  update a s id f = update_value serde a s id f (index_columns chrono)

  unfoldable pub list_for_tenant :
      Attempt
      → Attempt
      → Attempt
      → JsonStore Transaction
      → String
      → ℕ
      → Option TransactionState
      → List Transaction
  unfolding index_columns
  list_for_tenant a b c s tenant_id limit state_filter =
      list_documents document serde chrono a b c s tenant_id limit state_filter

abbrev pub is_open : TransactionState → Bool
is_open draft = true
is_open quoted = true
is_open _ = false

-- A draft or a quote whose time is over.
abbrev pub is_due : ℤ → Transaction → Bool
is_due now txn = is_open txn.state && is_some_and txn.quote_expires_at (λ exp. leb_ℤ exp now)

-- The WHERE clause of the query.
abbrev pub row_is_due : Chrono → ℤ → JsonRow → Bool
row_is_due chrono now r =
    (column "state" r.columns == "draft" || column "state" r.columns == "quoted")
    && not (column "quote_expires_at" r.columns == "")
    && not (chrono.text_before (chrono.to_rfc3339 now) (column "quote_expires_at" r.columns))

unfoldable pub list_due_for_expiry :
    Serde Transaction
    → Chrono
    → Attempt
    → Attempt
    → Attempt
    → JsonStore Transaction
    → ℤ
    → List Transaction
list_due_for_expiry serde chrono a b c s now =
    list_due serde (is_due now) (row_is_due chrono now) a b c s

-- The quote of a transaction ends in the years that a column can order.
abbrev pub IsDated : Transaction → Type 0
IsDated txn = IsPrintableIfAny txn.quote_expires_at

open_state :
    (s : TransactionState)
    → (transaction_state_wire_name s == "draft" || transaction_state_wire_name s == "quoted")
      ≡ is_open s
unfolding transaction_state_wire_name
open_state draft = refl
open_state quoted = refl
open_state authorized = refl
open_state captured = refl
open_state fulfilled = refl
open_state completed = refl
open_state reversed = refl
open_state canceled = refl
open_state expired = refl

module _ (chrono : Chrono) (ordered : IsOrdered chrono) (now : ℤ)
    (printable : IsPrintable now) where
  expiry_column :
      (o : Option ℤ) (text : String)
      → text ≡ unwrap_or (map_some chrono.to_rfc3339 o) ""
      → IsPrintableIfAny o
      → (not (text == "") && not (chrono.text_before (chrono.to_rfc3339 now) text))
        ≡ is_some_and o (λ exp. leb_ℤ exp now)
  expiry_column none text e h = rw (e, ◌&&◌) refl
  expiry_column (some exp) text e h = due_text chrono ordered now printable exp text e h

  row_is_due-faithful :
      (serde : Serde Transaction) (r : JsonRow) (v : Transaction)
      → IsSyncedRow serde (index_columns chrono) r
      → deserialize_payload serde r ≡ some v
      → IsDated v
      → row_is_due chrono now r ≡ is_due now v
  unfolding index_columns
  row_is_due-faithful serde r v h d dated =
      let columns = h v d in
      let state_text = ap (λ o. unwrap_or o "") columns.1.1.1.0 in
      both_tests _ _ _ (ap (λ c. c == "draft" || c == "quoted") state_text ∙ open_state v.state)
        (expiry_column v.quote_expires_at _ (ap (λ o. unwrap_or o "") columns.1.1.1.1.0) dated)

  faithful :
      (serde : Serde Transaction) (s : JsonStore Transaction)
      → IsSynced serde (index_columns chrono) s
      → All IsDated (documents serde s)
      → IsFaithfulStore serde (is_due now) (row_is_due chrono now) s
  faithful serde (memory m) synced dated = tt
  faithful serde (sqlite t) synced dated =
      All-imp2 _ _ _ (λ r h k v d. row_is_due-faithful serde r v h d (k v d)) (values t) synced
        (All-rows serde IsDated (values t) dated)

  -- Where every access goes through and the index columns are in step, the transactions that a store
  -- lists as due for expiry are exactly its drafts and quotes whose quote has ended, in the store's
  -- order, whether the list comes from the columns or from the documents: for printed instants that
  -- order as times do, `now` and the ends of the quotes in the years 0 to 9999, and no more documents
  -- than a `usize` counts.
  pub due_for_expiry_exact :
      (serde : Serde Transaction) (s : JsonStore Transaction)
      → IsSynced serde (index_columns chrono) s
      → All IsDated (documents serde s)
      → length (documents serde s) ≤ usize_max
      → list_due_for_expiry serde chrono smooth smooth smooth s now
        ≡ filter_by (is_due now) (documents serde s)
  unfolding list_due_for_expiry
  due_for_expiry_exact serde s synced dated few =
      list_due_exact serde (is_due now) (row_is_due chrono now) s few
        (faithful serde s synced dated)
