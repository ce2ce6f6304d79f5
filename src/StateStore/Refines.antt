-- ===== src/StateStore/Refines.antt =====
-- The document store of src/state_store.rs against a map from ids to documents.
use stateset_icp_handler.Prelude.{
  String, ◌≡◌, refl, ap, Option, none, some, List, [], ◌∷◌, if◌then◌else◌, arith, Option-cases, inl,
  inr, sym, ◌∙◌, ap₂,
}
use stateset_icp_handler.Prelude.Keyed.{Keyed, get as entry, get-insert, ◌==◌, string_eq}
use stateset_icp_handler.Storage.{Attempt, smooth}
use stateset_icp_handler.StateStore.{
  Serde, JsonStore, memory, sqlite, bind_some, deserialize_payload, upserted, insert, get, update,
  rewritten,
}

-- What a caller asks of the store; the change of an update is a function of the document.
pub data Request (T : Type 0) : Type 0 where
  insert_request : String → T → Request T
  get_request : String → Request T
  update_request : String → (T → T) → Request T

abbrev pub override {ℓ} : {A : Type ℓ} → (String → Option A) → String → A → String → Option A
override m id v j = if id == j then some v else m j

-- The map's answer to a request, and the map after it.
unfoldable pub answer :
    {T : Type 0} → (String → Option T) → Request T → Option T × (String → Option T)
answer m (insert_request id v) = (none, override m id v)
answer m (get_request id) = (m id, m)
answer m (update_request id f) = elim (m id) [
  | none ↦ (none, m)
  | some v ↦ (some (f v), override m id (f v))
]

unfoldable pub answers : {T : Type 0} → (String → Option T) → List (Request T) → List (Option T)
unfolding answer
answers m [] = []
answers m (q ∷ qs) = (answer m q).0 ∷ answers (answer m q).1 qs

-- The map that a store holds.
abbrev pub view : {T : Type 0} → Serde T → JsonStore T → String → Option T
view serde (memory m) id = entry id m
view serde (sqlite t) id = bind_some (entry id t) (deserialize_payload serde)

module _ {T : Type 0} (serde : Serde T) (index_of : T → Keyed String String) where
  unfoldable pub serve : Attempt → JsonStore T → Request T → Option T × JsonStore T
  serve a s (insert_request id v) = (none, insert serde a s id v (index_of v))
  serve a s (get_request id) = (get serde a s id, s)
  serve a s (update_request id f) = update serde a s id f index_of

  unfoldable pub serve_all : JsonStore T → List (Request T) → List (Option T)
  unfolding serve
  serve_all s [] = []
  serve_all s (q ∷ qs) = (serve smooth s q).0 ∷ serve_all (serve smooth s q).1 qs

  -- The store holds this map.
  abbrev pub Agrees : JsonStore T → (String → Option T) → Type 0
  Agrees s m = (id : String) → view serde s id ≡ m id

  module _ (printed : (v : T) → (json : String) × (serde.to_string v ≡ some json)) where
    insert-Agrees :
        (s : JsonStore T) (m : String → Option T) (id : String) (v : T)
        → Agrees s m
        → Agrees (insert serde smooth s id v (index_of v)) (override m id v)
    unfolding insert
    insert-Agrees (memory t) m id v h j = ground (arith, get-insert id j v t, h j)
    insert-Agrees (sqlite t) m id v h j =
        let (json, e) = printed v in
        ground (
          arith,
          e,
          get-insert id j (upserted json (index_of v) (entry id t)) t,
          serde.from_str-to_string v json e,
          h j,
        )

    update-Agrees :
        (s : JsonStore T) (m : String → Option T) (id : String) (f : T → T)
        → Agrees s m
        → ((update serde smooth s id f index_of).0 ≡ (answer m (update_request id f)).0)
          × Agrees (update serde smooth s id f index_of).1 (answer m (update_request id f)).1
    unfolding update rewritten answer
    update-Agrees (memory t) m id f h = elim (Option-cases (entry id t)) [
      | inl e ↦ rw (e, update) (rw (sym (h id) ∙ e, answer) (refl, h))
      | inr (v, e) ↦
          rw (e, update)
            (rw (sym (h id) ∙ e, answer) (refl, λ j. ground (arith, get-insert id j (f v) t, h j)))
    ]
    update-Agrees (sqlite t) m id f h = elim (Option-cases (entry id t)) [
      | inl e ↦
          rw (e, update)
            (rw (sym (h id) ∙ ap (λ o. bind_some o (deserialize_payload serde)) e, answer)
              (refl, h))
      | inr (r, e) ↦ elim (Option-cases (serde.from_str r.payload_json)) [
        | inl d ↦
            rw (e, update)
              (rw (d, rewritten)
                (rw (sym (h id) ∙ (ap (λ o. bind_some o (deserialize_payload serde)) e ∙ d), answer)
                  (refl, h)))
        | inr (v, d) ↦
            let (json, p) = printed (f v) in
            let found = sym (h id) ∙ (ap (λ o. bind_some o (deserialize_payload serde)) e ∙ d) in
            rw (e, update)
              (rw (d, rewritten)
                (rw (p, update)
                  (rw (found, answer)
                    (
                      refl,
                      λ j. ground (
                        arith,
                        get-insert id j (upserted json (index_of (f v)) (some r)) t,
                        serde.from_str-to_string (f v) json p,
                        h j,
                      ),
                    ))))
      ]
    ]

    serve-Agrees :
        (s : JsonStore T) (m : String → Option T) (q : Request T)
        → Agrees s m
        → ((serve smooth s q).0 ≡ (answer m q).0) × Agrees (serve smooth s q).1 (answer m q).1
    unfolding serve answer get
    serve-Agrees s m (insert_request id v) h = (refl, insert-Agrees s m id v h)
    serve-Agrees (memory t) m (get_request id) h = (h id, h)
    serve-Agrees (sqlite t) m (get_request id) h = (h id, h)
    serve-Agrees s m (update_request id f) h = update-Agrees s m id f h

    serve_all-Agrees :
        (s : JsonStore T) (m : String → Option T) (qs : List (Request T))
        → Agrees s m
        → serve_all s qs ≡ answers m qs
    unfolding serve_all answers
    serve_all-Agrees s m [] h = refl
    serve_all-Agrees s m (q ∷ qs) h =
        let (same, after) = serve-Agrees s m q h in
        ap₂ (λ o os. o ∷ os) same (serve_all-Agrees (serve smooth s q).1 (answer m q).1 qs after)

    -- Where every access goes through, a store in memory and one in a table both answer any requests,
    -- in their order, as the map that they hold answers them: an insert puts the document at its id, a
    -- read gives what is there, and an update gives the changed document and keeps it, or gives nothing
    -- and changes nothing where the id has no document. The documents are ones that serde_json prints.
    pub store_serves_as_map :
        (s : JsonStore T) (qs : List (Request T)) → serve_all s qs ≡ answers (view serde s) qs
    store_serves_as_map s qs = serve_all-Agrees s (view serde s) qs (λ id. refl)
