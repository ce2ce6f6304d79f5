-- ===== src/StateStore.antt =====
-- src/state_store.rs: the store of documents under their ids, in memory or in a table whose rows hold
-- the document as JSON beside the columns that the queries read. serde_json is a parameter. The
-- order in which a `HashMap` or a query without ORDER BY gives its entries is that of the model's
-- list. A column that was never written holds the table's default, the empty text.
pub mod Refines
pub mod Inserted
pub mod Atomic
pub mod Synced
pub mod Listing
pub mod Transactions
pub mod Subscriptions
pub mod PeerQuotes
use stateset_icp_handler.Prelude.{
  ℕ, ◌-◌, ◌^◌, String, ◌≡◌, ◌&&◌, Option, none, some, List, [], ◌∷◌, length, take, ltb, unwrap_or,
  if◌then◌else◌,
}
use stateset_icp_handler.Prelude.Keyed.{Keyed, get as entry, insert as put, string_eq}
use stateset_icp_handler.Prelude.Sequences.{filter_map}
use stateset_icp_handler.Storage.{Attempt}

-- `serde_json` at a type: what is printed reads back.
pub record Serde (T : Type 0) : Type 0 where
  pub to_string : T → Option String
  pub from_str : String → Option T
  pub from_str-to_string :
      (v : T) (json : String) → to_string v ≡ some json → from_str json ≡ some v

-- The columns other than the id.
pub record JsonRow : Type 0 where
  pub payload_json : String
  pub columns : Keyed String String

pub data JsonStore (T : Type 0) : Type 0 where
  memory : Keyed String T → JsonStore T
  sqlite : Keyed String JsonRow → JsonStore T

abbrev pub column : String → Keyed String String → String
column c columns = unwrap_or (entry c columns) ""

-- The index columns that a statement sets, on top of those that are there.
unfoldable pub write_columns : Keyed String String → Keyed String String → Keyed String String
write_columns [] columns = columns
write_columns ((c, v) ∷ index) columns = put c v (write_columns index columns)

-- INSERT … ON CONFLICT(id) DO UPDATE
abbrev pub upserted : String → Keyed String String → Option JsonRow → JsonRow
upserted json index none = record { payload_json = json; columns = write_columns index [] }
upserted json index (some r) = record {
  payload_json = json;
  columns = write_columns index r.columns;
}

abbrev pub bind_some {ℓ κ} : {A : Type ℓ} {B : Type κ} → Option A → (A → Option B) → Option B
bind_some none f = none
bind_some (some a) f = f a

abbrev pub values {ℓ} : {V : Type ℓ} → Keyed String V → List V
values [] = []
values ((k, v) ∷ m) = v ∷ values m

abbrev pub usize_max : ℕ
usize_max = 2 ^ 64 - 1

-- `LIMIT ?1` of `limit as i64`: a negative limit is no limit.
abbrev pub sql_limit {ℓ} : {A : Type ℓ} → ℕ → List A → List A
sql_limit limit rows = if ltb limit (2 ^ 63) then take limit rows else rows

module _ {T : Type 0} (serde : Serde T) where
  abbrev pub deserialize_payload : JsonRow → Option T
  deserialize_payload r = serde.from_str r.payload_json

  unfoldable pub insert : Attempt → JsonStore T → String → T → Keyed String String → JsonStore T
  insert a (memory m) id value index = if a.lock then memory (put id value m) else memory m
  insert a (sqlite t) id value index = elim (serde.to_string value) [
    | none ↦ sqlite t
    | some json ↦
        if a.pool && a.write then sqlite (put id (upserted json index (entry id t)) t) else sqlite t
  ]

  unfoldable pub get : Attempt → JsonStore T → String → Option T
  get a (memory m) id = if a.lock then entry id m else none
  get a (sqlite t) id =
      if a.pool && a.read then bind_some (entry id t) deserialize_payload else none

  -- The value after the change, and the row that is written for it.
  unfoldable pub rewritten : (T → T) → (T → Keyed String String) → JsonRow → Option (T × JsonRow)
  rewritten f index_of r = bind_some (deserialize_payload r) (λ v.
      bind_some (serde.to_string (f v))
        (λ json. some (f v, upserted json (index_of (f v)) (some r))))

  unfoldable pub update :
      Attempt → JsonStore T → String → (T → T) → (T → Keyed String String) → Option T × JsonStore T
  update a (memory m) id f index_of =
      if a.lock
      then elim (entry id m) [
        | none ↦ (none, memory m)
        | some v ↦ (some (f v), memory (put id (f v) m))
      ]
      else (none, memory m)
  update a (sqlite t) id f index_of =
      if a.pool && a.begin
      then elim (bind_some (if a.read then entry id t else none) (rewritten f index_of)) [
        | none ↦ (none, sqlite t)
        | some (v, r) ↦
            if a.write && a.commit then (some v, sqlite (put id r t)) else (none, sqlite t)
      ]
      else (none, sqlite t)

  unfoldable pub list : Attempt → JsonStore T → ℕ → List T
  list a (memory m) limit = if a.lock then take limit (values m) else []
  list a (sqlite t) limit =
      if a.pool && a.read then filter_map deserialize_payload (sql_limit limit (values t)) else []

  unfoldable pub len : Attempt → JsonStore T → ℕ
  len a (memory m) = if a.lock then length m else 0
  len a (sqlite t) = if a.pool && a.read then length t else 0
