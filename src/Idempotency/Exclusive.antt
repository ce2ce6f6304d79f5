-- ===== src/Idempotency/Exclusive.antt =====
-- One winner for a key of the idempotency store (src/idempotency.rs).
use stateset_icp_handler.Prelude.{
  ℕ, String, ◌≡◌, ◌≢◌, inl, inr, refl, sym, subst, true, false, ◌&&◌, Option, none, some, List, [],
  ◌∷◌, arith, Bool-cases,
}
use stateset_icp_handler.Prelude.Int.{ℤ}
use stateset_icp_handler.Prelude.Keyed.{
  Keyed, get, insert, ◌==◌, pair_eq, pair_beq_iff, get-insert_self,
}
use stateset_icp_handler.Chrono.{Chrono}
use stateset_icp_handler.Storage.{Attempt}
use stateset_icp_handler.Idempotency.{
  ReserveOutcome, Row, Key, Backend, memory, sqlite, reserve, reserve_entry, reserve_row,
  pending_row, pending_entry, Entry,
}
use stateset_icp_handler.Idempotency.Claims.{
  Op, reserves, releases, stores, IsClaimed, Foreign, AllForeign, apply, run, wins_op, wins,
  reserve_other, reserve_claimed, release-IsClaimed, store-IsClaimed,
}

module _ (chrono : Chrono) (lossy : List ℕ → List ℕ) (ttl : ℤ) where
  -- Another worker's call keeps the claim and does not win the key.
  apply-Foreign :
      (key : Key) (digest : String) (since : ℤ) (token : String) (o : Op) (b : Backend)
      → Foreign chrono lossy ttl key since token o
      → IsClaimed chrono b key digest since token
      → IsClaimed chrono (apply chrono lossy ttl o b) key digest since token
        × (wins_op chrono lossy ttl key o b ≡ 0)
  unfolding apply wins_op
  apply-Foreign key digest since token (reserves a key' digest' now lease token') b f h =
      elim (Bool-cases (key' == key)) [
        | inr ne ↦ (
          reserve_other chrono lossy ttl a b key key' digest' digest now lease since token' token ne
              h,
          rw ne,
        )
        | inl own ↦ elim f [
          | inl ne ↦ cc
          | inr (reads, fresh, held) ↦
              let same = (pair_beq_iff key' key).0 own in
              let busy : reserve chrono a ttl b key' digest' now lease token'
                  ≡ (ReserveOutcome.in_progress, b) =
                rw same (
                  reserve_claimed chrono lossy ttl a b key digest' digest now lease since token'
                    token reads fresh held h) in
              (
                subst
                    (λ (r : ReserveOutcome × Backend). IsClaimed chrono r.1 key digest since token)
                    (sym busy) h,
                rw own (rw busy),
              )
        ]
      ]
  apply-Foreign key digest since token (releases a key' token') b f h =
      (release-IsClaimed chrono lossy ttl a b key key' digest since token' token f h, refl)
  apply-Foreign key digest since token (stores a key' digest' response now token') b f h = (
    store-IsClaimed chrono lossy ttl a b key key' digest' digest response now since token' token f
        h,
    refl,
  )

  run_foreign :
      (key : Key) (digest : String) (since : ℤ) (token : String) (os : List Op) (b : Backend)
      → AllForeign chrono lossy ttl key since token os
      → IsClaimed chrono b key digest since token
      → IsClaimed chrono (run chrono lossy ttl os b) key digest since token
        × (wins chrono lossy ttl key os b ≡ 0)
  unfolding run wins
  run_foreign key digest since token [] b f h = (h, refl)
  run_foreign key digest since token (o ∷ os) b f h =
      let (h', none_now) = apply-Foreign key digest since token o b f.0 h in
      let (h'', none_later) =
        run_foreign key digest since token os (apply chrono lossy ttl o b) f.1 h' in
      (h'', omega (arith, none_now, none_later))

  not_won_entry :
      (digest : String) (now lease : ℤ) (o : Option Entry) (token : String)
      → reserve_entry ttl digest now lease o ≢ some (ReserveOutcome.won token)
  unfolding reserve_entry
  not_won_entry digest now lease o token h = ground arith

  not_won_row :
      (digest : String) (now lease : ℤ) (o : Option Row) (token : String)
      → reserve_row chrono ttl digest now lease o ≢ some (ReserveOutcome.won token)
  unfolding reserve_row
  not_won_row digest now lease o token h = ground arith

  -- Who wins a key holds it.
  won-IsClaimed :
      (a : Attempt) (b : Backend) (key : Key) (digest : String) (now lease : ℤ)
      (token token' : String)
      → (reserve chrono a ttl b key digest now lease token').0 ≡ ReserveOutcome.won token
      → IsClaimed chrono (reserve chrono a ttl b key digest now lease token').1 key digest now token
  unfolding reserve
  won-IsClaimed a (memory m) key digest now lease token token' h = ground (
    arith,
    not_won_entry digest now lease (get key m) token,
    get-insert_self key (pending_entry digest now token') m,
  )
  won-IsClaimed a (sqlite t) key digest now lease token token' h = ground (
    arith,
    not_won_row digest now lease (get key t) token,
    not_won_row digest now lease none token,
    get-insert_self key (pending_row chrono digest now token') t,
  )

-- After a worker wins a key, no call of the others wins it: while the claim is neither expired
-- nor past their leases, their reads do not fail, and they release and store under other tokens,
-- the claim stays as it was written, in memory and in SQLite.
pub winner_is_alone :
    (chrono : Chrono) (lossy : List ℕ → List ℕ) (ttl : ℤ) (a : Attempt) (b : Backend) (key : Key)
    (digest : String) (now lease : ℤ) (token fresh : String) (others : List Op)
    → (reserve chrono a ttl b key digest now lease fresh).0 ≡ ReserveOutcome.won token
    → AllForeign chrono lossy ttl key now token others
    → let b' = (reserve chrono a ttl b key digest now lease fresh).1 in
      (wins chrono lossy ttl key others b' ≡ 0)
      × IsClaimed chrono (run chrono lossy ttl others b') key digest now token
winner_is_alone chrono lossy ttl a b key digest now lease token fresh others h foreign =
    let claimed = won-IsClaimed chrono lossy ttl a b key digest now lease token fresh h in
    let b' = (reserve chrono a ttl b key digest now lease fresh).1 in
    let (kept, alone) =
      run_foreign chrono lossy ttl key digest now token others b' foreign claimed in
    (alone, kept)

-- A reservation in SQLite whose read fails, while the rest of its transaction goes through, wins
-- the key and overwrites whatever row stands there, a completed response too.
pub failed_read_reclaims :
    (chrono : Chrono) (ttl : ℤ) (a : Attempt) (t : Keyed Key Row) (key : Key) (digest : String)
    (now lease : ℤ) (token : String)
    → (a.pool && a.begin && a.write && a.commit) ≡ true
    → a.read ≡ false
    → reserve chrono a ttl (sqlite t) key digest now lease token
      ≡ (ReserveOutcome.won token, sqlite (insert key (pending_row chrono digest now token) t))
unfolding reserve reserve_row
failed_read_reclaims chrono ttl a t key digest now lease token works fails = ground arith
