-- ===== src/StateStore/Listing/Due.antt =====
-- The queries of src/state_store.rs for what is due, against the scan of the documents.
use stateset_icp_handler.Prelude.{
  ◌≤◌, String, ◌≡◌, refl, ap, sym, ◌∙◌, subst, Bool, not, ◌&&◌, Option, some, List, [], ◌∷◌, length,
  filter_by, Option-cases, Bool-cases, inl, inr, arith,
}
use stateset_icp_handler.Prelude.Keyed.{◌==◌, string_eq}
use stateset_icp_handler.Prelude.Int.{ℤ, leb_ℤ}
use stateset_icp_handler.Chrono.{Chrono, IsOrdered, IsPrintable}
use stateset_icp_handler.Prelude.Sequences.{
  All, filter_map, take_all, filter_map-none, filter_map-some, filter_by-true, filter_by-false,
}
use stateset_icp_handler.Storage.{smooth}
use stateset_icp_handler.StateStore.{
  Serde, JsonStore, JsonRow, memory, sqlite, deserialize_payload, values, usize_max, list,
}
use stateset_icp_handler.StateStore.Listing.{list_due, sqlite_has_legacy_metadata_rows}

-- The test of a state and the two tests of a date.
pub both_tests : (a b c : Bool) {x y : Bool} → a ≡ x → (b && c) ≡ y → (a && b && c) ≡ (x && y)
both_tests a b c e f = ground arith

-- What a query asks of a date column is what the scan asks of the date.
pub due_text :
    (chrono : Chrono) (ordered : IsOrdered chrono) (now : ℤ) (printable : IsPrintable now) (t : ℤ)
    (text : String)
    → text ≡ chrono.to_rfc3339 t
    → IsPrintable t
    → (not (text == "") && not (chrono.text_before (chrono.to_rfc3339 now) text)) ≡ leb_ℤ t now
due_text chrono ordered now printable t text e h =
    ground (arith, ordered.order now t printable h, ordered.not_empty t)

some_inj : {A : Type 0} {a b : A} → some a ≡ some b → a ≡ b
some_inj e = cc

module _ {T : Type 0} (serde : Serde T) where
  -- The documents of a store; a row that does not read back has none.
  abbrev pub documents : JsonStore T → List T
  documents (memory m) = values m
  documents (sqlite t) = filter_map (deserialize_payload serde) (values t)

  -- What holds of the documents holds of each row's.
  pub All-rows :
      (P : T → Type 0) (rows : List JsonRow)
      → All P (filter_map (deserialize_payload serde) rows)
      → All (λ r. (v : T) → deserialize_payload serde r ≡ some v → P v) rows
  unfolding filter_map
  All-rows P [] h = tt
  All-rows P (r ∷ rs) h = elim (Option-cases (deserialize_payload serde r)) [
    | inl d ↦ (
      λ v e. cc,
      All-rows P rs (subst (All P) (filter_map-none (deserialize_payload serde) r rs d) h),
    )
    | inr (w, d) ↦
        let split = subst (All P) (filter_map-some (deserialize_payload serde) r rs w d) h in
        (λ v e. subst P (some_inj (sym d ∙ e)) split.0, All-rows P rs split.1)
  ]

  module _ (due : T → Bool) (row_due : JsonRow → Bool) where
    -- The test of the columns is that of the document.
    abbrev pub IsFaithful : JsonRow → Type 0
    IsFaithful r = (v : T) → deserialize_payload serde r ≡ some v → row_due r ≡ due v

    filtered_rows :
        (rows : List JsonRow)
        → All IsFaithful rows
        → filter_map (deserialize_payload serde) (filter_by row_due rows)
          ≡ filter_by due (filter_map (deserialize_payload serde) rows)
    unfolding filter_map
    filtered_rows [] h = refl
    filtered_rows (r ∷ rs) h = elim (Option-cases (deserialize_payload serde r)) [
      | inl d ↦ elim (Bool-cases (row_due r)) [
        | inl e ↦ rw (filter_by-true row_due r _ e) (
            rw (filter_map-none read r _ d)
              (rw (filter_map-none read r _ d) (filtered_rows rs h.1)))
        | inr e ↦
            rw (filter_by-false row_due r _ e)
              (rw (filter_map-none read r _ d) (filtered_rows rs h.1))
      ]
      | inr (v, d) ↦ elim (Bool-cases (row_due r)) [
        | inl e ↦ rw (filter_by-true row_due r _ e) (
            rw (filter_map-some read r _ v d) (
              rw (filter_map-some read r _ v d) (
                rw (filter_by-true due v _ (sym (h.0 v d) ∙ e))
                  (ap (λ vs. v ∷ vs) (filtered_rows rs h.1)))))
        | inr e ↦ rw (filter_by-false row_due r _ e) (
            rw (filter_map-some read r _ v d)
              (rw (filter_by-false due v _ (sym (h.0 v d) ∙ e)) (filtered_rows rs h.1)))
      ]
    ]
      where
        read : JsonRow → Option T
        read = deserialize_payload serde

    abbrev pub IsFaithfulStore : JsonStore T → Type 0
    IsFaithfulStore (memory m) = Unit
    IsFaithfulStore (sqlite t) = All IsFaithful (values t)

    pub list_due_exact :
        (s : JsonStore T)
        → length (documents s) ≤ usize_max
        → IsFaithfulStore s
        → list_due serde due row_due smooth smooth smooth s ≡ filter_by due (documents s)
    unfolding list_due list
    list_due_exact (memory m) few h = ap (filter_by due) (take_all usize_max (values m) few)
    list_due_exact (sqlite t) few h = elim (Bool-cases (sqlite_has_legacy_metadata_rows smooth t)) [
      | inl e ↦ rw (e, list_due) refl
      | inr e ↦ rw (e, list_due) (filtered_rows (values t) h)
    ]
