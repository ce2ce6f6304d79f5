-- ===== src/Idempotency/Claims.antt =====
-- A claimed key of the idempotency store (src/idempotency.rs) among the calls of other workers.
use stateset_icp_handler.Prelude.{
  ℕ, ◌+◌, String, ◌≡◌, ◌≢◌, ◌⊎◌, true, false, some, List, [], ◌∷◌, arith, eq_iff, if◌then◌else◌,
}
use stateset_icp_handler.Prelude.Int.{ℤ, ◌-ℤ◌, ◌≤ℤ◌, ltb_ℤ_of_ge, leb_ℤ_of_le}
use stateset_icp_handler.Prelude.Keyed.{
  get, ◌==◌, string_eq, pair_eq, pair_beq_iff, get-insert_ne, get-remove,
}
use stateset_icp_handler.Chrono.{Chrono}
use stateset_icp_handler.Storage.{Attempt}
use stateset_icp_handler.Idempotency.{
  CachedResponse, ReserveOutcome, Key, Backend, memory, sqlite, pending_entry, pending_row,
  reserve_entry, reserve_row, reserve, release, store,
}

-- A call of any worker.
pub data Op : Type 0 where
  reserves : Attempt → Key → String → ℤ → ℤ → String → Op
  releases : Attempt → Key → String → Op
  stores : Attempt → Key → String → CachedResponse → ℤ → String → Op

-- The key is claimed since `since` under `token`, and its response has not come.
abbrev pub IsClaimed : Chrono → Backend → Key → String → ℤ → String → Type 0
IsClaimed chrono (memory m) key digest since token =
    get key m ≡ some (pending_entry digest since token)
IsClaimed chrono (sqlite t) key digest since token =
    get key t ≡ some (pending_row chrono digest since token)

module _ (chrono : Chrono) (lossy : List ℕ → List ℕ) (ttl : ℤ) where
  unfoldable pub apply : Op → Backend → Backend
  apply (reserves a key digest now lease token) b =
      (reserve chrono a ttl b key digest now lease token).1
  apply (releases a key token) b = release chrono a b key token
  apply (stores a key digest response now token) b =
      store chrono lossy a b key digest response now token

  unfoldable pub run : List Op → Backend → Backend
  run [] b = b
  run (o ∷ os) b = run os (apply o b)

  abbrev is_won : ReserveOutcome → ℕ
  is_won (ReserveOutcome.won _) = 1
  is_won (ReserveOutcome.replay _) = 0
  is_won ReserveOutcome.conflict = 0
  is_won ReserveOutcome.in_progress = 0

  unfoldable pub wins_op : Key → Op → Backend → ℕ
  wins_op key (reserves a key' digest now lease token) b =
      if key' == key then is_won (reserve chrono a ttl b key' digest now lease token).0 else 0
  wins_op key (releases a key' token) b = 0
  wins_op key (stores a key' digest response now token) b = 0

  -- How many calls won the key.
  unfoldable pub wins : Key → List Op → Backend → ℕ
  wins key [] b = 0
  wins key (o ∷ os) b = wins_op key o b + wins key os (apply o b)

  -- Another worker's call: on another key; or a reservation while the claim is neither expired nor
  -- past the caller's lease, whose read does not fail; or a call with another token.
  abbrev pub Foreign : Key → ℤ → String → Op → Type 0
  Foreign key since token (reserves a key' _ now lease _) =
      ((key' == key) ≡ false) ⊎ ((a.read ≡ true) × (now -ℤ since ≤ℤ ttl) × (now -ℤ since ≤ℤ lease))
  Foreign key since token (releases a key' token') = ((key' == key) ≡ false) ⊎ (token' ≢ token)
  Foreign key since token (stores a key' _ _ _ token') = ((key' == key) ≡ false) ⊎ (token' ≢ token)

  abbrev pub AllForeign : Key → ℤ → String → List Op → Type 0
  AllForeign key since token [] = Unit
  AllForeign key since token (o ∷ os) = Foreign key since token o × AllForeign key since token os

  pub reserve_other :
      (a : Attempt) (b : Backend) (key key' : Key) (digest' digest : String) (now lease since : ℤ)
      (token' token : String)
      → (key' == key) ≡ false
      → IsClaimed chrono b key digest since token
      → IsClaimed chrono
          (reserve chrono a ttl b key' digest' now lease token').1
          key
          digest
          since
          token
  unfolding reserve
  reserve_other a (memory m) key key' digest' digest now lease since token' token ne h =
      ground (arith, get-insert_ne key' key (pending_entry digest' now token') m)
  reserve_other a (sqlite t) key key' digest' digest now lease since token' token ne h =
      ground (arith, get-insert_ne key' key (pending_row chrono digest' now token') t)

  -- A claimed key is in progress for every other caller.
  reserve_entry_claimed :
      (digest' digest : String) (now lease since : ℤ) (token : String)
      → now -ℤ since ≤ℤ ttl
      → now -ℤ since ≤ℤ lease
      → reserve_entry ttl digest' now lease (some (pending_entry digest since token))
        ≡ some ReserveOutcome.in_progress
  unfolding reserve_entry
  reserve_entry_claimed digest' digest now lease since token fresh held =
      rw (leb_ℤ_of_le (now -ℤ since) ttl fresh) (rw (ltb_ℤ_of_ge lease (now -ℤ since) held))

  reserve_row_claimed :
      (digest' digest : String) (now lease since : ℤ) (token : String)
      → now -ℤ since ≤ℤ ttl
      → now -ℤ since ≤ℤ lease
      → reserve_row chrono ttl digest' now lease (some (pending_row chrono digest since token))
        ≡ some ReserveOutcome.in_progress
  unfolding reserve_row
  reserve_row_claimed digest' digest now lease since token fresh held =
      rw (chrono.parse-to_rfc3339 since)
        (rw (ltb_ℤ_of_ge ttl (now -ℤ since) fresh) (rw (ltb_ℤ_of_ge lease (now -ℤ since) held)))

  pub reserve_claimed :
      (a : Attempt) (b : Backend) (key : Key) (digest' digest : String) (now lease since : ℤ)
      (token' token : String)
      → a.read ≡ true
      → now -ℤ since ≤ℤ ttl
      → now -ℤ since ≤ℤ lease
      → IsClaimed chrono b key digest since token
      → reserve chrono a ttl b key digest' now lease token' ≡ (ReserveOutcome.in_progress, b)
  unfolding reserve
  reserve_claimed a (memory m) key digest' digest now lease since token' token reads fresh held h =
      rw (h, reserve)
        (rw (reserve_entry_claimed digest' digest now lease since token fresh held, reserve))
  reserve_claimed a (sqlite t) key digest' digest now lease since token' token reads fresh held h =
      ground (arith, reads, h, reserve_row_claimed digest' digest now lease since token fresh held)

  pub release-IsClaimed :
      (a : Attempt) (b : Backend) (key key' : Key) (digest : String) (since : ℤ)
      (token' token : String)
      → ((key' == key) ≡ false) ⊎ (token' ≢ token)
      → IsClaimed chrono b key digest since token
      → IsClaimed chrono (release chrono a b key' token') key digest since token
  unfolding release
  release-IsClaimed a (memory m) key key' digest since token' token f h =
      ground (arith, get-remove key' key m, pair_beq_iff key' key, eq_iff token token')
  release-IsClaimed a (sqlite t) key key' digest since token' token f h =
      ground (arith, get-remove key' key t, pair_beq_iff key' key, eq_iff token token')

  pub store-IsClaimed :
      (a : Attempt) (b : Backend) (key key' : Key) (digest' digest : String)
      (response : CachedResponse) (now since : ℤ) (token' token : String)
      → ((key' == key) ≡ false) ⊎ (token' ≢ token)
      → IsClaimed chrono b key digest since token
      → IsClaimed chrono
          (store chrono lossy a b key' digest' response now token')
          key
          digest
          since
          token
  unfolding store
  store-IsClaimed a (memory m) key key' digest' digest response now since token' token f h =
      grind (arith, get-insert_ne, pair_beq_iff key' key, eq_iff token token')
  store-IsClaimed a (sqlite t) key key' digest' digest response now since token' token f h =
      grind (arith, get-insert_ne, pair_beq_iff key' key, eq_iff token token')
