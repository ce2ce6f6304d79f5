-- ===== src/Service/Pipeline/Rerun.antt =====
-- A request under a key with a stored response whose read of the key fails, in the pipeline of
-- src/service/mod.rs over SQLite.
use stateset_icp_handler.Prelude.{ℕ, String, ◌≡◌, ap, true, false, ◌&&◌, some, List}
use stateset_icp_handler.Prelude.Int.{ℤ, ◌-ℤ◌, ◌≤ℤ◌}
use stateset_icp_handler.Prelude.Keyed.{Keyed, pair_eq}
use stateset_icp_handler.Errors.{Result, ok}
use stateset_icp_handler.Chrono.{Chrono}
use stateset_icp_handler.Idempotency.{
  CachedResponse, ReserveOutcome, Row, Key, Backend, sqlite, reserve,
}
use stateset_icp_handler.Idempotency.Claims.{Op, AllForeign, run}
use stateset_icp_handler.Idempotency.Exclusive.{failed_read_reclaims}
use stateset_icp_handler.Service.Pipeline.{Codec, GuardedRun, replay_cached, run_guarded}
use stateset_icp_handler.Service.Pipeline.Replayed.{replayed_run, executed_once}

-- A key whose stored response a request gets, without its intent being run, does not keep the intent
-- from running again: a request whose read of the key's row fails, while the rest of its reservation
-- goes through, runs the intent and answers with a new response, and that is what the next request
-- under the key gets. That is so in SQLite, where the intent succeeds, the new response prints as
-- UTF-8 JSON and is written, others meanwhile try for the key only with reads that do not fail, in the
-- claim's time and lease, and under other tokens, and the next request's accesses go through before the
-- new response expires.
pub failed_read_runs_again :
    {Body W : Type 0} (codec : Codec Body) (chrono : Chrono) (ttl : ℤ) (key : Key) (digest : String)
    (lossy : List ℕ → List ℕ) (lease : ℤ) (seeing blind third : GuardedRun)
    (handle_intent handle_third : W → Result Body × W) (w w' v : W) (t : Keyed Key Row)
    (cached : CachedResponse) (body : Body) (bytes : List ℕ) (others : List Op)
    → reserve chrono seeing.reserving ttl
        (sqlite t)
        key
        digest
        seeing.reserved_at
        lease
        seeing.token
      ≡ (ReserveOutcome.replay cached, sqlite t)
    → (blind.reserving.pool && blind.reserving.begin && blind.reserving.write
        && blind.reserving.commit)
      ≡ true
    → blind.reserving.read ≡ false
    → handle_intent w ≡ (ok body, w')
    → codec.to_vec body ≡ some bytes
    → lossy bytes ≡ bytes
    → ((c : Backend) → blind.between c ≡ run chrono lossy ttl others c)
    → AllForeign chrono lossy ttl key blind.reserved_at blind.token others
    → (blind.settling.pool && blind.settling.write) ≡ true
    → (third.reserving.lock && third.reserving.pool && third.reserving.begin && third.reserving.read
        && third.reserving.commit)
      ≡ true
    → third.reserved_at -ℤ blind.stored_at ≤ℤ ttl
    → let guarded = run_guarded codec chrono ttl key digest lossy lease in
      let (answer, after, b') = guarded blind handle_intent w (sqlite t) in
      (guarded seeing handle_intent w (sqlite t) ≡ (replay_cached codec cached, w, sqlite t))
      × (answer ≡ ok (record { body = body; replayed = false }))
      × (after ≡ w')
      × (guarded third handle_third v b' ≡ (ok (record { body = body; replayed = true }), v, b'))
failed_read_runs_again codec chrono ttl key digest lossy lease seeing blind third handle_intent
      handle_third w w' v t cached body bytes others done works fails ran printed utf8 raced foreign
      written reads fresh =
    let reclaimed =
      failed_read_reclaims chrono ttl blind.reserving t key digest blind.reserved_at lease
        blind.token works fails in
    let (answered, ran_again, replayed) =
      executed_once codec chrono ttl key digest lossy lease blind third handle_intent handle_third w
        w' v (sqlite t) blind.token body bytes others (ap (λ r. r.0) reclaimed) ran printed utf8
        raced foreign written reads fresh in
    (
      replayed_run codec chrono ttl key digest lossy lease seeing handle_intent w (sqlite t) cached
          done,
      answered,
      ran_again,
      replayed,
    )
