-- ===== src/StateStore/Listing/Tenants.antt =====
-- What a tenant's list of src/state_store.rs holds.
use stateset_icp_handler.Prelude.{
  ℕ, ◌^◌, ◌≤◌, sym, ◌∙◌, String, ◌≡◌, ◌≢◌, ◌⊎◌, Bool, true, ◌&&◌, Option, none, some, List, [], ◌∷◌,
  ◌++◌, any, length, ltb, filter_by, is_none_or, Option-cases, Bool-cases, inl, inr, arith,
}
use stateset_icp_handler.Prelude.Keyed.{Keyed, ◌==◌, string_eq}
use stateset_icp_handler.Prelude.Sequences.{
  All, All-filter, All-take, All-sort, filter_map, sort_by, IsSorted, take-length, All-imp,
  All-imp2, take-IsSorted, sort-IsSorted,
}
use stateset_icp_handler.Chrono.{Chrono}
use stateset_icp_handler.Storage.{Attempt}
use stateset_icp_handler.StateStore.{
  Serde, JsonStore, JsonRow, memory, sqlite, deserialize_payload, values, sql_limit, column,
}
use stateset_icp_handler.StateStore.Synced.{IsSyncedRow}
use stateset_icp_handler.StateStore.Listing.{
  Document, IsIndexed, matches, unseen, merge_legacy, row_matches, newer_row, newer,
  list_for_tenant_indexed, tenant_rows, list_for_tenant, sqlite_has_legacy_metadata_rows,
}

module _ {ℓ} {A : Type ℓ} where
  pub All-filter_self : (p : A → Bool) (xs : List A) → All (λ x. p x ≡ true) (filter_by p xs)
  All-filter_self p [] = tt
  All-filter_self p (x ∷ xs) = elim (Bool-cases (p x)) [
    | inl e ↦ rw (e, All) (e, All-filter_self p xs)
    | inr e ↦ rw (e, All) (All-filter_self p xs)
  ]

  pub All-append : (P : A → Type 0) (xs ys : List A) → All P xs → All P ys → All P (xs ++ ys)
  All-append P [] ys h k = k
  All-append P (x ∷ xs) ys h k = (h.0, All-append P xs ys h.1 k)

pub All-filter_map :
    {A B : Type 0} (f : A → Option B) (P : A → Type 0) (Q : B → Type 0) (xs : List A)
    → ((x : A) (y : B) → P x → f x ≡ some y → Q y)
    → All P xs
    → All Q (filter_map f xs)
unfolding filter_map
All-filter_map f P Q [] imp h = tt
All-filter_map f P Q (x ∷ xs) imp h = elim (Option-cases (f x)) [
  | inl e ↦ rw (e, filter_map) (All-filter_map f P Q xs imp h.1)
  | inr (y, e) ↦ rw (e, filter_map) (imp x y h.0 e, All-filter_map f P Q xs imp h.1)
]

-- A document of the tenant, in the state asked for.
abbrev pub IsOwn : {T S : Type 0} → Document T S → String → Option S → T → Type 0
IsOwn doc tenant_id state_filter v =
    (doc.tenant_id v ≡ tenant_id)
    × (is_none_or state_filter (λ s. doc.same_state (doc.state v) s) ≡ true)

module _ {T S : Type 0} (serde : Serde T) (doc : Document T S) (chrono : Chrono) where
  -- A row whose index columns are in step, or one from before they were kept, which names no tenant.
  abbrev pub IsSyncedOrLegacyRow : JsonRow → Type 0
  IsSyncedOrLegacyRow r =
      IsSyncedRow serde (doc.index_columns chrono) r ⊎ (column "tenant_id" r.columns ≡ "")

  abbrev pub IsSyncedOrLegacy : JsonStore T → Type 0
  IsSyncedOrLegacy (memory m) = Unit
  IsSyncedOrLegacy (sqlite t) = All IsSyncedOrLegacyRow (values t)

  abbrev pub IsMatch : String → Option S → T → Type 0
  IsMatch tenant_id state_filter v = matches doc tenant_id state_filter v ≡ true

  unseen-All :
      (P : T → Type 0) (seen : List String) (vs : List T) → All P vs → All P (unseen doc seen vs)
  unfolding unseen
  unseen-All P seen [] h = tt
  unseen-All P seen (v ∷ vs) h = elim (Bool-cases (any (λ i. i == doc.id v) seen)) [
    | inl e ↦ rw (e, unseen) (unseen-All P (doc.id v ∷ seen) vs h.1)
    | inr e ↦ rw (e, unseen) (h.0, unseen-All P (doc.id v ∷ seen) vs h.1)
  ]

  module _ (ix : IsIndexed doc chrono) where
    row_match :
        (tenant_id : String) (state_filter : Option S) (r : JsonRow) (v : T)
        → IsSyncedRow serde (doc.index_columns chrono) r
        → deserialize_payload serde r ≡ some v
        → row_matches doc tenant_id state_filter r ≡ matches doc tenant_id state_filter v
    row_match tenant_id none r v h d = ground (arith, ix.tenant_column v r.columns (h v d))
    row_match tenant_id (some s) r v h d = ground (
      arith,
      ix.tenant_column v r.columns (h v d),
      ix.named_state v r.columns (h v d),
      ix.same_name (doc.state v) s,
    )

    matched-IsMatch :
        (tenant_id : String) (state_filter : Option S) (r : JsonRow) (v : T)
        → tenant_id ≢ ""
        → IsSyncedOrLegacyRow r
        → row_matches doc tenant_id state_filter r ≡ true
        → deserialize_payload serde r ≡ some v
        → IsMatch tenant_id state_filter v
    matched-IsMatch tenant_id state_filter r v named (inl h) p d =
        sym (row_match tenant_id state_filter r v h d) ∙ p
    matched-IsMatch tenant_id state_filter r v named (inr blank) p d = absurd (
        named (
          sym (ground (arith, string_eq.same_iff (column "tenant_id" r.columns) tenant_id))
          ∙ blank))

    indexed-IsMatch :
        (a : Attempt) (t : Keyed String JsonRow) (tenant_id : String) (limit : ℕ)
        (state_filter : Option S)
        → tenant_id ≢ ""
        → IsSyncedOrLegacy (sqlite t)
        → All
            (IsMatch tenant_id state_filter)
            (list_for_tenant_indexed doc serde chrono a t tenant_id limit state_filter)
    unfolding list_for_tenant_indexed
    indexed-IsMatch a t tenant_id limit state_filter named h =
        elim (Bool-cases (a.pool && a.read)) [
          | inl e ↦
              rw (e, list_for_tenant_indexed)
                (All-filter_map (deserialize_payload serde) P (IsMatch tenant_id state_filter) _
                  (λ r v p d. matched-IsMatch tenant_id state_filter r v named p.0 p.1 d)
                  (All-limit limit _ (
                    All-sort (newer_row chrono) P _ (
                      All-imp2 _ _ P (λ r h k. (h, k)) _
                        (All-filter _ (row_matches doc tenant_id state_filter) (values t) h)
                        (All-filter_self (row_matches doc tenant_id state_filter) (values t))))))
          | inr e ↦ rw (e, list_for_tenant_indexed) tt
        ]
      where
        P : JsonRow → Type 0
        P r = IsSyncedOrLegacyRow r × (row_matches doc tenant_id state_filter r ≡ true)

        All-limit : (n : ℕ) (xs : List JsonRow) → All P xs → All P (sql_limit n xs)
        All-limit n xs k = elim (Bool-cases (ltb n (2 ^ 63))) [
          | inl e ↦ rw e (All-take P n xs k)
          | inr e ↦ rw e k
        ]

    tenant_rows-IsMatch :
        (a b c : Attempt) (s : JsonStore T) (tenant_id : String) (limit : ℕ)
        (state_filter : Option S)
        → tenant_id ≢ ""
        → IsSyncedOrLegacy s
        → All
            (IsMatch tenant_id state_filter)
            (tenant_rows doc serde chrono a b c s tenant_id limit state_filter)
    unfolding tenant_rows merge_legacy
    tenant_rows-IsMatch a b c (memory m) tenant_id limit state_filter named h =
        All-filter_self (matches doc tenant_id state_filter) _
    tenant_rows-IsMatch a b c (sqlite t) tenant_id limit state_filter named h =
        let rows = list_for_tenant_indexed doc serde chrono a t tenant_id limit state_filter in
        let kept = indexed-IsMatch a t tenant_id limit state_filter named h in
        elim (Bool-cases (ltb (length rows) limit && sqlite_has_legacy_metadata_rows b t)) [
          | inl e ↦
              rw (e, tenant_rows)
                (All-append _ rows _ kept
                  (unseen-All _ _ _ (All-filter_self (matches doc tenant_id state_filter) _)))
          | inr e ↦ rw (e, tenant_rows) kept
        ]

    IsMatch-IsOwn :
        (tenant_id : String) (state_filter : Option S) (v : T)
        → IsMatch tenant_id state_filter v
        → IsOwn doc tenant_id state_filter v
    IsMatch-IsOwn tenant_id state_filter v h =
        ground (arith, string_eq.same_iff (doc.tenant_id v) tenant_id)

    -- Whatever of its accesses fails, the list that a tenant gets holds documents of that tenant only, in
    -- the state asked for where one is, the newest first and at most as many as were asked for. The
    -- index columns of each row are in step, or it is a row from before them, which names no tenant; and
    -- the tenant has a name.
    pub list_for_tenant-IsOwn :
        (a b c : Attempt) (s : JsonStore T) (tenant_id : String) (limit : ℕ)
        (state_filter : Option S)
        → tenant_id ≢ ""
        → IsSyncedOrLegacy s
        → let listed = list_for_tenant doc serde chrono a b c s tenant_id limit state_filter in
          All (IsOwn doc tenant_id state_filter) listed
          × IsSorted (newer doc) listed
          × (length listed ≤ limit)
    unfolding list_for_tenant
    list_for_tenant-IsOwn a b c s tenant_id limit state_filter named h =
        let rows = tenant_rows doc serde chrono a b c s tenant_id limit state_filter in
        (
          All-imp (IsMatch tenant_id state_filter) (IsOwn doc tenant_id state_filter)
              (IsMatch-IsOwn tenant_id state_filter) _
              (All-take _ limit _ (
                All-sort (newer doc) _ rows
                  (tenant_rows-IsMatch a b c s tenant_id limit state_filter named h))),
          take-IsSorted (newer doc) limit _
              (sort-IsSorted (newer doc) (λ x y e. ground arith) (λ x y z e d. ground arith) rows),
          take-length limit (sort_by (newer doc) rows),
        )
