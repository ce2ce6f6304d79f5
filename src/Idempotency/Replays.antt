-- ===== src/Idempotency/Replays.antt =====
-- Stored responses of the idempotency store (src/idempotency.rs), and its sweeper.
use stateset_icp_handler.Prelude.{
  ℕ, ◌^◌, ◌<◌, String, ◌≡◌, ◌≢◌, true, ◌&&◌, some, List, arith, eq_iff, eqb_iff, if◌then◌else◌,
}
use stateset_icp_handler.Prelude.Int.{ℤ, ◌-ℤ◌, ◌≤ℤ◌, ltb_ℤ_of_ge, leb_ℤ_of_le}
use stateset_icp_handler.Prelude.Keyed.{◌==◌, string_eq, pair_eq, get-insert_self}
use stateset_icp_handler.Chrono.{Chrono}
use stateset_icp_handler.Storage.{Attempt}
use stateset_icp_handler.Idempotency.{
  CachedResponse, LookupOutcome, ReserveOutcome, Entry, Row, Key, Backend, memory, sqlite, lookup,
  reserve, reserve_entry, reserve_row, lookup_entry, entry_of_row, store,
}
use stateset_icp_handler.Idempotency.Claims.{IsClaimed}

-- What a completed entry answers.
abbrev pub looked_up : String → String → CachedResponse → LookupOutcome
looked_up digest digest' response =
    if digest == digest' then LookupOutcome.replay response else LookupOutcome.conflict

abbrev pub reserved : String → String → CachedResponse → ReserveOutcome
reserved digest digest' response =
    if digest == digest' then ReserveOutcome.replay response else ReserveOutcome.conflict

abbrev done_entry : String → CachedResponse → ℤ → Entry
done_entry digest response now = record {
  request_digest = digest;
  response = response;
  created_at = now;
  reservation_id = "";
}

module _ (chrono : Chrono) (lossy : List ℕ → List ℕ) (ttl : ℤ) (digest : String)
    (response : CachedResponse) (now : ℤ) (completed : response.status ≢ 0) where
  lookup_done :
      (digest' : String) (later : ℤ)
      → later -ℤ now ≤ℤ ttl
      → lookup_entry ttl digest' later (some (done_entry digest response now))
        ≡ looked_up digest digest' response
  unfolding lookup_entry
  lookup_done digest' later fresh =
      rw (ltb_ℤ_of_ge ttl (later -ℤ now) fresh) (ground (arith, eqb_iff response.status 0))

  reserve_done :
      (digest' : String) (later lease : ℤ)
      → later -ℤ now ≤ℤ ttl
      → reserve_entry ttl digest' later lease (some (done_entry digest response now))
        ≡ some (reserved digest digest' response)
  unfolding reserve_entry
  reserve_done digest' later lease fresh =
      rw (leb_ℤ_of_le (later -ℤ now) ttl fresh) (ground (arith, eqb_iff response.status 0))

  abbrev done_row : Row
  done_row = record {
    request_digest = digest;
    response_status = response.status;
    response_body = lossy response.body_json;
    created_at = chrono.to_rfc3339 now;
    reservation_id = "";
  }

  row_back :
      (later : ℤ)
      → response.status < 2 ^ 16
      → lossy response.body_json ≡ response.body_json
      → entry_of_row chrono later done_row ≡ done_entry digest response now
  unfolding entry_of_row
  row_back later small utf8 = ground (arith, utf8, chrono.parse-to_rfc3339 now)

  reserve_row_done :
      (digest' : String) (later lease : ℤ)
      → later -ℤ now ≤ℤ ttl
      → response.status < 2 ^ 16
      → lossy response.body_json ≡ response.body_json
      → reserve_row chrono ttl digest' later lease (some done_row)
        ≡ some (reserved digest digest' response)
  unfolding reserve_row
  reserve_row_done digest' later lease fresh small utf8 =
      rw (chrono.parse-to_rfc3339 now) (
        rw (ltb_ℤ_of_ge ttl (later -ℤ now) fresh) (ground (arith, utf8, eqb_iff response.status 0)))

-- What the holder of a claimed key stores is what every lookup and reservation with the same digest
-- is answered with until it expires, and those with another digest conflict. The accesses go through,
-- the status is a `u16` and not 0, and the body is UTF-8.
pub stored_response_replays :
    (chrono : Chrono) (lossy : List ℕ → List ℕ) (ttl : ℤ) (a a' : Attempt) (b : Backend) (key : Key)
    (digest digest' : String) (response : CachedResponse) (since now later lease : ℤ)
    (token token' : String)
    → IsClaimed chrono b key digest since token
    → response.status ≢ 0
    → response.status < 2 ^ 16
    → lossy response.body_json ≡ response.body_json
    → (a.pool && a.write) ≡ true
    → (a'.lock && a'.pool && a'.begin && a'.read && a'.commit) ≡ true
    → later -ℤ now ≤ℤ ttl
    → let b' = store chrono lossy a b key digest response now token in
      (lookup chrono a' ttl b' key digest' later ≡ looked_up digest digest' response)
      × (reserve chrono a' ttl b' key digest' later lease token'
          ≡ (reserved digest digest' response, b'))
unfolding store lookup reserve
stored_response_replays chrono lossy ttl a a' (memory m) key digest digest' response since now later
      lease token token' claimed completed small utf8 written reads fresh =
    ground (
      arith,
      claimed,
      eq_iff token token,
      get-insert_self key (done_entry digest response now) m,
      lookup_done chrono lossy ttl digest response now completed digest' later fresh,
      reserve_done chrono lossy ttl digest response now completed digest' later lease fresh,
    )
stored_response_replays chrono lossy ttl a a' (sqlite t) key digest digest' response since now later
      lease token token' claimed completed small utf8 written reads fresh =
    ground (
      arith,
      claimed,
      eq_iff token token,
      get-insert_self key (done_row chrono lossy ttl digest response now completed) t,
      row_back chrono lossy ttl digest response now completed later small utf8,
      lookup_done chrono lossy ttl digest response now completed digest' later fresh,
      reserve_row_done chrono lossy ttl digest response now completed digest' later lease fresh
          small utf8,
    )
