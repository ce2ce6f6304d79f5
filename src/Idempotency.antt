-- ===== src/Idempotency.antt =====
-- src/idempotency.rs: the store of responses and reservations under idempotency keys, in memory or
-- in the table `idempotency`. The token that `reserve` draws is an argument.
pub mod Claims
pub mod Exclusive
pub mod Replays
use stateset_icp_handler.Prelude.{
  ℕ, ◌%◌, ◌^◌, ◌-◌, String, Bool, true, not, ◌&&◌, Option, none, some, List, [], length, unwrap_or,
  is_some_and, map_some, eqb, if◌then◌else◌,
}
use stateset_icp_handler.Prelude.Int.{ℤ, ◌-ℤ◌, ltb_ℤ, leb_ℤ}
use stateset_icp_handler.Prelude.Keyed.{
  Keyed, get, insert, remove, retain, ◌==◌, string_eq, pair_eq,
}
use stateset_icp_handler.Chrono.{Chrono}
use stateset_icp_handler.Storage.{Attempt}

pub record CachedResponse : Type 0 where
  pub status : ℕ
  pub body_json : List ℕ

pub data LookupOutcome : Type 0 where
  miss : LookupOutcome
  replay : CachedResponse → LookupOutcome
  conflict : LookupOutcome

pub data ReserveOutcome : Type 0 where
  won : String → ReserveOutcome
  replay : CachedResponse → ReserveOutcome
  conflict : ReserveOutcome
  in_progress : ReserveOutcome

abbrev pub pending_status : ℕ
pending_status = 0

pub record Entry : Type 0 where
  pub request_digest : String
  pub response : CachedResponse
  pub created_at : ℤ
  pub reservation_id : String

-- A row of `idempotency`, under its tenant and key.
pub record Row : Type 0 where
  pub request_digest : String
  pub response_status : ℕ
  pub response_body : List ℕ
  pub created_at : String
  pub reservation_id : String

abbrev pub Key : Type 0
Key = String × String

pub data Backend : Type 0 where
  memory : Keyed Key Entry → Backend
  sqlite : Keyed Key Row → Backend

-- What a claim writes.
abbrev pub pending_entry : String → ℤ → String → Entry
pending_entry digest now token = record {
  request_digest = digest;
  response = record { status = pending_status; body_json = [] };
  created_at = now;
  reservation_id = token;
}

-- The lookup of a row that was found; the tests are the code's early returns.
unfoldable pub lookup_entry : ℤ → String → ℤ → Option Entry → LookupOutcome
lookup_entry ttl request_digest now none = LookupOutcome.miss
lookup_entry ttl request_digest now (some e) =
    if ltb_ℤ ttl (now -ℤ e.created_at)
    then LookupOutcome.miss
    else if eqb e.response.status pending_status
    then LookupOutcome.miss
    else if e.request_digest == request_digest
    then LookupOutcome.replay e.response
    else LookupOutcome.conflict

-- What `reserve` does with the entry of its key: `none` claims the key.
unfoldable pub reserve_entry : ℤ → String → ℤ → ℤ → Option Entry → Option ReserveOutcome
reserve_entry ttl request_digest now lease none = none
reserve_entry ttl request_digest now lease (some e) =
    if leb_ℤ (now -ℤ e.created_at) ttl
    then (if eqb e.response.status pending_status
        then (if ltb_ℤ lease (now -ℤ e.created_at) then none else some ReserveOutcome.in_progress)
        else if e.request_digest == request_digest
        then some (ReserveOutcome.replay e.response)
        else some ReserveOutcome.conflict)
    else none

module _ (chrono : Chrono) where
  -- `DateTime::parse_from_rfc3339(…).unwrap_or(now)`
  abbrev pub created : ℤ → Row → ℤ
  created now r = unwrap_or (chrono.parse_from_rfc3339 r.created_at) now

  -- `status as u16`
  abbrev pub row_response : Row → CachedResponse
  row_response r = record { status = r.response_status % 2 ^ 16; body_json = r.response_body }

  unfoldable pub entry_of_row : ℤ → Row → Entry
  entry_of_row now r = record {
    request_digest = r.request_digest;
    response = row_response r;
    created_at = created now r;
    reservation_id = "";
  }

  unfoldable pub lookup : Attempt → ℤ → Backend → Key → String → ℤ → LookupOutcome
  lookup a ttl (memory m) key digest now =
      lookup_entry ttl digest now (if a.lock then get key m else none)
  lookup a ttl (sqlite t) key digest now =
      lookup_entry ttl digest now
        (if a.pool && a.read then map_some (entry_of_row now) (get key t) else none)

  abbrev pub pending_row : String → ℤ → String → Row
  pending_row digest now token = record {
    request_digest = digest;
    response_status = 0;
    response_body = [];
    created_at = chrono.to_rfc3339 now;
    reservation_id = token;
  }

  -- `claim_pending`, and the answer to it
  abbrev pub claim_row :
      Attempt → Keyed Key Row → Key → String → ℤ → String → ReserveOutcome × Backend
  claim_row a t key digest now token =
      if a.write && a.commit
      then (ReserveOutcome.won token, sqlite (insert key (pending_row digest now token) t))
      else (ReserveOutcome.in_progress, sqlite t)

  -- The same decision as in memory, in the order in which the transaction makes it.
  unfoldable pub reserve_row : ℤ → String → ℤ → ℤ → Option Row → Option ReserveOutcome
  reserve_row ttl request_digest now lease none = none
  reserve_row ttl request_digest now lease (some r) =
      if ltb_ℤ ttl (now -ℤ created now r)
      then none
      else if eqb (row_response r).status pending_status
      then (if ltb_ℤ lease (now -ℤ created now r) then none else some ReserveOutcome.in_progress)
      else if r.request_digest == request_digest
      then some (ReserveOutcome.replay (row_response r))
      else some ReserveOutcome.conflict

  -- A failed read counts as no row.
  unfoldable pub reserve :
      Attempt → ℤ → Backend → Key → String → ℤ → ℤ → String → ReserveOutcome × Backend
  reserve a ttl (memory m) key digest now lease token =
      elim (reserve_entry ttl digest now lease (get key m)) [
        | none ↦ (ReserveOutcome.won token, memory (insert key (pending_entry digest now token) m))
        | some outcome ↦ (outcome, memory m)
      ]
  reserve a ttl (sqlite t) key digest now lease token =
      if a.pool && a.begin
      then elim (reserve_row ttl digest now lease (if a.read then get key t else none)) [
        | none ↦ claim_row a t key digest now token
        | some outcome ↦ ((if a.commit then outcome else ReserveOutcome.in_progress), sqlite t)
      ]
      else (ReserveOutcome.in_progress, sqlite t)

  unfoldable pub release : Attempt → Backend → Key → String → Backend
  release a (memory m) key reservation_id =
      if is_some_and (get key m)
        (λ e. eqb e.response.status pending_status && e.reservation_id == reservation_id)
      then memory (remove key m)
      else memory m
  release a (sqlite t) key reservation_id =
      if a.pool
        && a.write
        && is_some_and (get key t)
            (λ r. eqb r.response_status 0 && r.reservation_id == reservation_id)
      then sqlite (remove key t)
      else sqlite t

  -- Absent, or a reservation with this token.
  abbrev pub owns_or_absent {ℓ} : {V : Type ℓ} → (V → String) → Option V → String → Bool
  owns_or_absent token none reservation_id = true
  owns_or_absent token (some v) reservation_id = token v == reservation_id

  -- `lossy` is `String::from_utf8_lossy`.
  unfoldable pub store :
      (List ℕ → List ℕ) → Attempt → Backend → Key → String → CachedResponse → ℤ → String → Backend
  store lossy a (memory m) key digest response now reservation_id =
      if owns_or_absent (λ e. e.reservation_id) (get key m) reservation_id
      then memory (
          insert key
            (record {
              request_digest = digest;
              response = response;
              created_at = now;
              reservation_id = "";
            })
            m)
      else memory m
  store lossy a (sqlite t) key digest response now reservation_id =
      if a.pool && a.write && owns_or_absent (λ r. r.reservation_id) (get key t) reservation_id
      then sqlite (
          insert key
            (record {
              request_digest = digest;
              response_status = response.status;
              response_body = lossy response.body_json;
              created_at = chrono.to_rfc3339 now;
              reservation_id = "";
            })
            t)
      else sqlite t

  -- The entries that are left, and how many went.
  unfoldable pub prune : Attempt → ℤ → Backend → ℤ → ℕ × Backend
  prune a ttl (memory m) now =
      if a.lock
      then (let rest = retain (λ e. leb_ℤ (now -ℤ ttl) e.created_at) m in
          (length m - length rest, memory rest))
      else (0, memory m)
  prune a ttl (sqlite t) now =
      if a.pool && a.write
      then (let rest =
            retain (λ r. not (chrono.text_before r.created_at (chrono.to_rfc3339 (now -ℤ ttl))))
              t in
          (length t - length rest, sqlite rest))
      else (0, sqlite t)
