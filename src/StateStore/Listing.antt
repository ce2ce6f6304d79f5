-- ===== src/StateStore/Listing.antt =====
-- The lists that src/state_store.rs makes: the queries over the index columns, and the scans of the
-- documents for rows from before the columns were kept. The three kinds of documents repeat this
-- code, and `Document` holds what differs.
pub mod Tenants
pub mod Due
use stateset_icp_handler.Prelude.{
  ℕ, String, ◌≡◌, Bool, true, false, ◌&&◌, Option, List, [], ◌∷◌, ◌++◌, map, any, length, take, ltb,
  filter_by, is_none_or, if◌then◌else◌,
}
use stateset_icp_handler.Prelude.Int.{ℤ, ltb_ℤ}
use stateset_icp_handler.Prelude.Keyed.{Keyed, IsUnique, ◌==◌, string_eq}
use stateset_icp_handler.Prelude.Sequences.{filter_map, sort_by}
use stateset_icp_handler.Chrono.{Chrono}
use stateset_icp_handler.Storage.{Attempt}
use stateset_icp_handler.StateStore.{
  Serde, JsonStore, JsonRow, memory, sqlite, column, deserialize_payload, values, usize_max,
  sql_limit, list,
}
use stateset_icp_handler.StateStore.Synced.{IsWritten}

-- A kind of documents, with its states.
pub record Document (T S : Type 0) : Type 0 where
  pub id : T → String
  pub tenant_id : T → String
  pub state : T → S
  pub created_at : T → ℤ
  pub same_state : S → S → Bool
  pub state_column : String
  pub state_name : S → String
  pub index_columns : Chrono → T → Keyed String String

-- What the queries take for granted of the index columns.
pub record IsIndexed {T S : Type 0} (doc : Document T S) (chrono : Chrono) : Type 0 where
  pub distinct : (v : T) → IsUnique (doc.index_columns chrono v)
  pub tenant_column :
      (v : T) (columns : Keyed String String)
      → IsWritten (doc.index_columns chrono v) columns
      → column "tenant_id" columns ≡ doc.tenant_id v
  pub named_state :
      (v : T) (columns : Keyed String String)
      → IsWritten (doc.index_columns chrono v) columns
      → column doc.state_column columns ≡ doc.state_name (doc.state v)
  pub same_name : (s t : S) → (doc.state_name s == doc.state_name t) ≡ doc.same_state s t

-- `WHERE tenant_id = '' LIMIT 1`, where no answer counts as no such row
unfoldable pub sqlite_has_legacy_metadata_rows : Attempt → Keyed String JsonRow → Bool
sqlite_has_legacy_metadata_rows a t =
    a.pool && a.read && any (λ r. column "tenant_id" r.columns == "") (values t)

-- ORDER BY created_at DESC
abbrev pub newer_row : Chrono → JsonRow → JsonRow → Bool
newer_row chrono r q =
    chrono.text_before (column "created_at" q.columns) (column "created_at" r.columns)

module _ {T S : Type 0} (doc : Document T S) where
  abbrev pub matches : String → Option S → T → Bool
  matches tenant_id state_filter v =
      doc.tenant_id v == tenant_id && is_none_or state_filter (λ s. doc.same_state (doc.state v) s)

  -- The first of each id that is not among those seen.
  unfoldable pub unseen : List String → List T → List T
  unseen seen [] = []
  unseen seen (v ∷ vs) =
      let rest = unseen (doc.id v ∷ seen) vs in
      elim (any (λ i. i == doc.id v) seen) [ true ↦ rest | false ↦ v ∷ rest ]

  unfoldable pub merge_legacy : List T → List T → String → Option S → List T
  unfolding unseen
  merge_legacy indexed scanned tenant_id state_filter =
      indexed ++ unseen (map doc.id indexed) (filter_by (matches tenant_id state_filter) scanned)

  -- The WHERE clause of a tenant's list.
  abbrev pub row_matches : String → Option S → JsonRow → Bool
  row_matches tenant_id state_filter r =
      column "tenant_id" r.columns == tenant_id
      && is_none_or state_filter (λ s. column doc.state_column r.columns == doc.state_name s)

  abbrev pub newer : T → T → Bool
  newer v w = ltb_ℤ (doc.created_at w) (doc.created_at v)

  module _ (serde : Serde T) (chrono : Chrono) where
    unfoldable pub list_for_tenant_indexed :
        Attempt → Keyed String JsonRow → String → ℕ → Option S → List T
    list_for_tenant_indexed a t tenant_id limit state_filter =
        if a.pool && a.read
        then filter_map (deserialize_payload serde) (
            sql_limit limit (
              sort_by (newer_row chrono)
                (filter_by (row_matches tenant_id state_filter) (values t))))
        else []

    -- The rows before they are sorted. The accesses are the query, the look for legacy rows, and the
    -- scan.
    unfoldable pub tenant_rows :
        Attempt → Attempt → Attempt → JsonStore T → String → ℕ → Option S → List T
    unfolding list_for_tenant_indexed sqlite_has_legacy_metadata_rows merge_legacy
    tenant_rows a b c (memory m) tenant_id limit state_filter =
        filter_by (matches tenant_id state_filter) (list serde c (memory m) usize_max)
    tenant_rows a b c (sqlite t) tenant_id limit state_filter =
        let rows = list_for_tenant_indexed a t tenant_id limit state_filter in
        if ltb (length rows) limit && sqlite_has_legacy_metadata_rows b t
        then merge_legacy rows (list serde c (sqlite t) usize_max) tenant_id state_filter
        else rows

    unfoldable pub list_for_tenant :
        Attempt → Attempt → Attempt → JsonStore T → String → ℕ → Option S → List T
    unfolding tenant_rows
    list_for_tenant a b c s tenant_id limit state_filter =
        take limit (sort_by newer (tenant_rows a b c s tenant_id limit state_filter))

-- The list of what is due: by the test of the documents, or by that of the columns.
unfoldable pub list_due :
    {T : Type 0}
    → Serde T
    → (T → Bool)
    → (JsonRow → Bool)
    → Attempt
    → Attempt
    → Attempt
    → JsonStore T
    → List T
unfolding sqlite_has_legacy_metadata_rows
list_due serde due row_due a b c (memory m) = filter_by due (list serde c (memory m) usize_max)
list_due serde due row_due a b c (sqlite t) =
    if sqlite_has_legacy_metadata_rows b t
    then filter_by due (list serde c (sqlite t) usize_max)
    else if a.pool && a.read
    then filter_map (deserialize_payload serde) (filter_by row_due (values t))
    else []
