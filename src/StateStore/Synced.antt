-- ===== src/StateStore/Synced.antt =====
-- The index columns of the tables of src/state_store.rs, beside the documents they are derived from.
use stateset_icp_handler.Prelude.{
  String, ◌≡◌, ◌&&◌, Option, none, some, List, [], ◌∷◌, Option-cases, Bool-cases, inl, inr,
  if◌then◌else◌, arith, subst,
}
use stateset_icp_handler.Prelude.Keyed.{
  Keyed, get as entry, insert as put, get-insert, IsUnique, ◌==◌, string_eq,
}
use stateset_icp_handler.Prelude.Sequences.{All}
use stateset_icp_handler.Storage.{Attempt}
use stateset_icp_handler.StateStore.{
  Serde, JsonStore, JsonRow, memory, sqlite, bind_some, deserialize_payload, upserted, insert,
  update, rewritten, values, write_columns,
}
use stateset_icp_handler.StateStore.Refines.{
  Request, insert_request, get_request, update_request, serve,
}

-- Every index column stands among the columns, with its value.
abbrev pub IsWritten : Keyed String String → Keyed String String → Type 0
IsWritten [] columns = Unit
IsWritten ((c, v) ∷ index) columns = (entry c columns ≡ some v) × IsWritten index columns

written_put :
    (c v : String) (index columns : Keyed String String)
    → entry c index ≡ none
    → IsWritten index columns
    → IsWritten index (put c v columns)
unfolding entry
written_put c v [] columns h w = tt
written_put c v ((d, x) ∷ index) columns h w = (
  ground (arith, get-insert c d v columns, string_eq.same_iff d c, string_eq.same_iff c d),
  written_put c v index columns (ground arith) w.1,
)

pub write_columns-IsWritten :
    (index columns : Keyed String String)
    → IsUnique index
    → IsWritten index (write_columns index columns)
unfolding write_columns
write_columns-IsWritten [] columns u = tt
write_columns-IsWritten ((c, v) ∷ index) columns u = (
  ground (arith, get-insert c c v (write_columns index columns), string_eq.same_iff c c),
  written_put c v index (write_columns index columns) u.0
      (write_columns-IsWritten index columns u.1),
)

module _ {V : Type 0} (P : V → Type 0) where
  pub All-put :
      (k : String) (v : V) (m : Keyed String V)
      → P v
      → All P (values m)
      → All P (values (put k v m))
  unfolding put
  All-put k v [] p h = (p, tt)
  All-put k v ((j, w) ∷ m) p h = elim (Bool-cases (j == k)) [
    | inl e ↦ rw (e, put) (p, h.1)
    | inr e ↦ rw (e, put) (h.0, All-put k v m p h.1)
  ]

module _ {T : Type 0} (serde : Serde T) (index_of : T → Keyed String String) where
  -- The columns of a row that reads back are those of its document.
  abbrev pub IsSyncedRow : JsonRow → Type 0
  IsSyncedRow r = (v : T) → deserialize_payload serde r ≡ some v → IsWritten (index_of v) r.columns

  abbrev pub IsSynced : JsonStore T → Type 0
  IsSynced (memory m) = Unit
  IsSynced (sqlite t) = All IsSyncedRow (values t)

  -- The store after requests whose accesses may each fail anywhere.
  unfoldable pub after_all : JsonStore T → List (Attempt × Request T) → JsonStore T
  unfolding serve
  after_all s [] = s
  after_all s ((a, q) ∷ qs) = after_all (serve serde index_of a s q).1 qs

  module _ (distinct : (v : T) → IsUnique (index_of v)) where
    written :
        (w : T) (json : String) (v : T) (columns : Keyed String String)
        → serde.to_string w ≡ some json
        → serde.from_str json ≡ some v
        → IsWritten (index_of v) (write_columns (index_of w) columns)
    written w json v columns p d =
        let same : w ≡ v = ground (arith, serde.from_str-to_string w json p) in
        subst (λ u. IsWritten (index_of u) (write_columns (index_of w) columns)) same
          (write_columns-IsWritten (index_of w) columns (distinct w))

    upserted-IsSyncedRow :
        (w : T) (json : String) (o : Option JsonRow)
        → serde.to_string w ≡ some json
        → IsSyncedRow (upserted json (index_of w) o)
    upserted-IsSyncedRow w json none p v d = written w json v [] p d
    upserted-IsSyncedRow w json (some r) p v d = written w json v r.columns p d

    insert-IsSynced :
        (a : Attempt) (s : JsonStore T) (id : String) (w : T)
        → IsSynced s
        → IsSynced (insert serde a s id w (index_of w))
    unfolding insert
    insert-IsSynced a (memory m) id w h = elim (Bool-cases a.lock) [
      | inl l ↦ rw (l, insert) tt
      | inr l ↦ rw (l, insert) tt
    ]
    insert-IsSynced a (sqlite t) id w h = elim (Option-cases (serde.to_string w)) [
      | inl n ↦ rw (n, insert) h
      | inr (json, p) ↦ elim (Bool-cases (a.pool && a.write)) [
        | inl l ↦
            rw (p, insert)
              (rw (l, insert)
                (All-put IsSyncedRow id (upserted json (index_of w) (entry id t)) t
                  (upserted-IsSyncedRow w json (entry id t) p) h))
        | inr l ↦ rw (p, insert) (rw (l, insert) h)
      ]
    ]

    rewritten-IsSyncedRow :
        (f : T → T) (r : JsonRow) (w : T) (r' : JsonRow)
        → rewritten serde f index_of r ≡ some (w, r')
        → IsSyncedRow r'
    unfolding rewritten
    rewritten-IsSyncedRow f r w r' h = elim (Option-cases (serde.from_str r.payload_json)) [
      | inl d ↦ absurd (ground arith)
      | inr (v, d) ↦ elim (Option-cases (serde.to_string (f v))) [
        | inl p ↦ absurd (ground arith)
        | inr (json, p) ↦
            subst IsSyncedRow (ground arith) (upserted-IsSyncedRow (f v) json (some r) p)
      ]
    ]

    committed :
        (a : Attempt) (t : Keyed String JsonRow) (id : String) (f : T → T) (o : Option JsonRow)
        → IsSynced (sqlite t)
        → IsSynced
            (elim (bind_some o (rewritten serde f index_of)) as (λ _. Option T × JsonStore T) [
              | none ↦ (none, sqlite t)
              | some (v, r) ↦
                  if a.write && a.commit then (some v, sqlite (put id r t)) else (none, sqlite t)
            ]).1
    committed a t id f none h = h
    committed a t id f (some r) h = elim (Option-cases (rewritten serde f index_of r)) [
      | inl n ↦ rw n h
      | inr ((w, r'), n) ↦ elim (Bool-cases (a.write && a.commit)) [
        | inl c ↦ rw n (rw c (All-put IsSyncedRow id r' t (rewritten-IsSyncedRow f r w r' n) h))
        | inr c ↦ rw n (rw c h)
      ]
    ]

    update-IsSynced :
        (a : Attempt) (s : JsonStore T) (id : String) (f : T → T)
        → IsSynced s
        → IsSynced (update serde a s id f index_of).1
    unfolding update
    update-IsSynced a (memory m) id f h = elim (Bool-cases a.lock) [
      | inl l ↦ elim (Option-cases (entry id m)) [
        | inl e ↦ rw (l, update) (rw (e, update) tt)
        | inr (v, e) ↦ rw (l, update) (rw (e, update) tt)
      ]
      | inr l ↦ rw (l, update) tt
    ]
    update-IsSynced a (sqlite t) id f h = elim (Bool-cases (a.pool && a.begin)) [
      | inl l ↦ rw (l, update) (committed a t id f (if a.read then entry id t else none) h)
      | inr l ↦ rw (l, update) h
    ]

    -- However the accesses of any requests fail, each row of a table keeps the index columns of the
    -- document that it holds, where that was so before. The columns have different names.
    pub after_all-IsSynced :
        (s : JsonStore T) (qs : List (Attempt × Request T)) → IsSynced s → IsSynced (after_all s qs)
    unfolding after_all serve
    after_all-IsSynced s [] h = h
    after_all-IsSynced s ((a, insert_request id v) ∷ qs) h =
        after_all-IsSynced (insert serde a s id v (index_of v)) qs (insert-IsSynced a s id v h)
    after_all-IsSynced s ((a, get_request id) ∷ qs) h = after_all-IsSynced s qs h
    after_all-IsSynced s ((a, update_request id f) ∷ qs) h =
        after_all-IsSynced (update serde a s id f index_of).1 qs (update-IsSynced a s id f h)
