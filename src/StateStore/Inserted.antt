-- ===== src/StateStore/Inserted.antt =====
-- An insert of src/state_store.rs, by what its access meets.
use stateset_icp_handler.Prelude.{
  String, ◌≡◌, ◌≢◌, ◌&&◌, true, some, Option-cases, inl, inr, arith, refl,
}
use stateset_icp_handler.Prelude.Keyed.{Keyed, get as entry, get-insert, string_eq}
use stateset_icp_handler.Storage.{Attempt}
use stateset_icp_handler.StateStore.{Serde, JsonStore, memory, sqlite, upserted, insert}
use stateset_icp_handler.StateStore.Refines.{view, override}

module _ {T : Type 0} (serde : Serde T) (a : Attempt) where
  -- The document at another id stays, also where the access fails.
  pub insert_elsewhere :
      (s : JsonStore T) (id : String) (v : T) (index : Keyed String String) (j : String)
      → id ≢ j
      → view serde (insert serde a s id v index) j ≡ view serde s j
  unfolding insert
  insert_elsewhere (memory t) id v index j other =
      ground (arith, get-insert id j v t, string_eq.same_iff id j)
  insert_elsewhere (sqlite t) id v index j other = elim (Option-cases (serde.to_string v)) [
    | inl e ↦ rw (e, insert) refl
    | inr (json, e) ↦
        rw (e, insert)
          (ground
            (arith, get-insert id j (upserted json index (entry id t)) t, string_eq.same_iff id j))
  ]

  -- What an insert needs: the lock of a map; or a document that prints, and a write that goes through.
  abbrev pub Accepts : JsonStore T → T → Type 0
  Accepts (memory t) v = a.lock ≡ true
  Accepts (sqlite t) v =
      ((a.pool && a.write) ≡ true) × ((json : String) × (serde.to_string v ≡ some json))

  pub insert_written :
      (s : JsonStore T) (id : String) (v : T) (index : Keyed String String)
      → Accepts s v
      → (j : String) → view serde (insert serde a s id v index) j ≡ override (view serde s) id v j
  unfolding insert
  insert_written (memory t) id v index works j = ground (arith, get-insert id j v t)
  insert_written (sqlite t) id v index (works, (json, printed)) j =
      rw (printed, insert)
        (ground (
          arith,
          get-insert id j (upserted json index (entry id t)) t,
          serde.from_str-to_string v json printed,
        ))
