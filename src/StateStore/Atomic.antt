-- ===== src/StateStore/Atomic.antt =====
-- What a failing access leaves behind in the document store of src/state_store.rs.
use stateset_icp_handler.Prelude.{
  String, ◌≡◌, refl, ap, ◌&&◌, Option, none, some, Option-cases, Bool-cases, ◌⊎◌, inl, inr,
  if◌then◌else◌, arith,
}
use stateset_icp_handler.Prelude.Keyed.{Keyed, get as entry, insert as put, get-insert, string_eq}
use stateset_icp_handler.Storage.{Attempt}
use stateset_icp_handler.StateStore.{
  Serde, JsonStore, JsonRow, memory, sqlite, bind_some, deserialize_payload, update, rewritten,
}
use stateset_icp_handler.StateStore.Refines.{view, override}

module _ {T : Type 0} (serde : Serde T) where
  -- Either nothing was answered and every document is as before, or the document was there, the
  -- answer is its change, and the change is what the store now holds at its id and nowhere else.
  abbrev pub IsAllOrNothing : JsonStore T → String → (T → T) → Option T × JsonStore T → Type 0
  IsAllOrNothing s id f (o, after) =
      ((o ≡ none) × ((j : String) → view serde after j ≡ view serde s j))
      ⊎ ((v : T) × (view serde s id ≡ some v)
          × (o ≡ some (f v))
          × ((j : String) → view serde after j ≡ override (view serde s) id (f v) j))

module _ {T : Type 0} (serde : Serde T) (index_of : T → Keyed String String) where
  rewritten-view :
      (f : T → T) (r : JsonRow) (w : T) (r' : JsonRow)
      → rewritten serde f index_of r ≡ some (w, r')
      → (v : T) × (deserialize_payload serde r ≡ some v)
        × (w ≡ f v)
        × (deserialize_payload serde r' ≡ some w)
  unfolding rewritten
  rewritten-view f r w r' h = elim (Option-cases (serde.from_str r.payload_json)) [
    | inl d ↦ absurd (ground arith)
    | inr (v, d) ↦ elim (Option-cases (serde.to_string (f v))) [
      | inl p ↦ absurd (ground arith)
      | inr (json, p) ↦ (v, d, ground arith, ground (arith, serde.from_str-to_string (f v) json p))
    ]
  ]

  written :
      (a : Attempt) (t : Keyed String JsonRow) (id : String) (f : T → T)
      → IsAllOrNothing serde
          (sqlite t)
          id
          f
          (elim (bind_some (if a.read then entry id t else none) (rewritten serde f index_of)) [
            | none ↦ (none, sqlite t)
            | some (v, r) ↦
                if a.write && a.commit then (some v, sqlite (put id r t)) else (none, sqlite t)
          ])
  written a t id f = elim (Bool-cases a.read) [
    | inl l ↦ elim (Option-cases (entry id t)) [
      | inl e ↦ rw l (rw e (inl (refl, λ j. refl)))
      | inr (r, e) ↦ elim (Option-cases (rewritten serde f index_of r)) [
        | inl n ↦ rw l (rw e (rw n (inl (refl, λ j. refl))))
        | inr ((w, r'), n) ↦ elim (Bool-cases (a.write && a.commit)) [
          | inl c ↦
              let (v, d, same, back) = rewritten-view f r w r' n in
              rw l (
                rw e (
                  rw n (
                    rw c (
                      inr (
                        v,
                        ground arith,
                        ap some same,
                        λ j. ground (arith, get-insert id j r' t),
                      )))))
          | inr c ↦ rw l (rw e (rw n (rw c (inl (refl, λ j. refl)))))
        ]
      ]
    ]
    | inr l ↦ rw l (inl (refl, λ j. refl))
  ]

  -- An update through any access, whichever of its steps fails, is all or nothing: it answers nothing
  -- and leaves every document as it was, or answers the changed document of an id that had one and
  -- leaves that document at the id and every other as it was.
  pub update_all_or_nothing :
      (a : Attempt) (s : JsonStore T) (id : String) (f : T → T)
      → IsAllOrNothing serde s id f (update serde a s id f index_of)
  unfolding update
  update_all_or_nothing a (memory m) id f = elim (Bool-cases a.lock) [
    | inl l ↦ elim (Option-cases (entry id m)) [
      | inl e ↦ rw (l, update) (rw (e, update) (inl (refl, λ j. refl)))
      | inr (v, e) ↦
          rw (l, update)
            (rw (e, update) (inr (v, refl, refl, λ j. ground (arith, get-insert id j (f v) m))))
    ]
    | inr l ↦ rw (l, update) (inl (refl, λ j. refl))
  ]
  update_all_or_nothing a (sqlite t) id f = elim (Bool-cases (a.pool && a.begin)) [
    | inl l ↦ rw (l, update) (written a t id f)
    | inr l ↦ rw (l, update) (inl (refl, λ j. refl))
  ]
