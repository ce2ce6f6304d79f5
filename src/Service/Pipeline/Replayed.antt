-- ===== src/Service/Pipeline/Replayed.antt =====
-- A second request under an idempotency key, in the pipeline of src/service/mod.rs.
use stateset_icp_handler.Prelude.{
  ℕ, String, ◌≡◌, refl, ap, sym, ◌∙◌, subst, true, false, ◌&&◌, some, List, arith, if◌then◌else◌,
}
use stateset_icp_handler.Prelude.Int.{ℤ, ◌-ℤ◌, ◌≤ℤ◌}
use stateset_icp_handler.Prelude.Keyed.{==_refl, string_eq, pair_eq}
use stateset_icp_handler.Errors.{Result, ok}
use stateset_icp_handler.Chrono.{Chrono}
use stateset_icp_handler.Storage.{Attempt}
use stateset_icp_handler.Idempotency.{CachedResponse, ReserveOutcome, Backend, Key, reserve, store}
use stateset_icp_handler.Idempotency.Claims.{Op, IsClaimed, AllForeign, run}
use stateset_icp_handler.Idempotency.Exclusive.{winner_is_alone}
use stateset_icp_handler.Idempotency.Replays.{stored_response_replays}
use stateset_icp_handler.Service.Pipeline.{Codec, GuardedRun, replay_cached, settle, run_guarded}

module _ {Body W : Type 0} (codec : Codec Body) (chrono : Chrono) (ttl : ℤ) (key : Key)
    (digest : String) (lossy : List ℕ → List ℕ) (lease : ℤ) where
  -- The winner of the key, whose handler has answered.
  won_run :
      (first : GuardedRun) (handle_intent : W → Result Body × W) (w w' : W) (b : Backend)
      (token : String) (result : Result Body)
      → (reserve chrono first.reserving ttl b key digest first.reserved_at lease first.token).0
        ≡ ReserveOutcome.won token
      → handle_intent w ≡ (result, w')
      → run_guarded codec chrono ttl key digest lossy lease first handle_intent w b ≡ (
          let settled = settle codec chrono ttl key digest lossy first token result (
            first.between
              (reserve chrono first.reserving ttl b key digest first.reserved_at lease
                first.token).1) in
          (settled.0, w', settled.1))
  unfolding run_guarded
  won_run first handle_intent w w' b token result won ran =
      rw (won, run_guarded) (rw (ran, run_guarded) refl)

  -- A run on a key whose response is stored.
  pub replayed_run :
      (again : GuardedRun) (handle_intent : W → Result Body × W) (w : W) (b : Backend)
      (cached : CachedResponse)
      → reserve chrono again.reserving ttl b key digest again.reserved_at lease again.token
        ≡ (ReserveOutcome.replay cached, b)
      → run_guarded codec chrono ttl key digest lossy lease again handle_intent w b
        ≡ (replay_cached codec cached, w, b)
  unfolding run_guarded
  replayed_run again handle_intent w b cached done =
      rw (ap (λ r. r.0) done, run_guarded)
        (ap (λ x. (replay_cached codec cached, w, x)) (ap (λ r. r.1) done))

  -- A later run on the key, once the winner has stored its response.
  after_stored :
      (b : Backend) (since now : ℤ) (token : String) (a : Attempt) (body : Body) (bytes : List ℕ)
      (again : GuardedRun) (handle_intent : W → Result Body × W) (w : W)
      → IsClaimed chrono b key digest since token
      → codec.to_vec body ≡ some bytes
      → lossy bytes ≡ bytes
      → (a.pool && a.write) ≡ true
      → (again.reserving.lock && again.reserving.pool && again.reserving.begin
          && again.reserving.read && again.reserving.commit)
        ≡ true
      → again.reserved_at -ℤ now ≤ℤ ttl
      → let b' =
          store chrono lossy a b key digest
            (record { status = 200; body_json = bytes })
            now
            token in
        run_guarded codec chrono ttl key digest lossy lease again handle_intent w b'
        ≡ (ok (record { body = body; replayed = true }), w, b')
  unfolding replay_cached
  after_stored b since now token a body bytes again handle_intent w claimed printed utf8 written
        reads fresh =
      let response : CachedResponse = record { status = 200; body_json = bytes } in
      let b' = store chrono lossy a b key digest response now token in
      let (looked, done) =
        stored_response_replays chrono lossy ttl a again.reserving b key digest digest response
          since now again.reserved_at lease token again.token claimed (omega arith) (omega arith)
          utf8 written reads fresh in
      let replays : reserve chrono again.reserving ttl b' key digest again.reserved_at lease
            again.token
          ≡ (ReserveOutcome.replay response, b') =
        done
        ∙ ap (λ c. ((if c then ReserveOutcome.replay response else ReserveOutcome.conflict), b'))
            (==_refl digest) in
      replayed_run again handle_intent w b' response replays
      ∙ rw (codec.from_slice-to_vec body bytes printed, replay_cached) refl

  -- A request that wins its key and whose intent succeeds is answered with its response, and the
  -- next request under the key, with the same body and before the response expires, gets that response
  -- again, marked as replayed: it does not run its intent, and it leaves the store as it met it, with
  -- the response still there. While the first intent ran, others may have tried for the key, reserved
  -- other keys, and released or stored under other tokens; their reads do not fail and fall into the
  -- claim's time and lease. The response prints as UTF-8 JSON and is written, and the next request's
  -- accesses go through.
  pub executed_once :
      (first again : GuardedRun) (handle_intent handle_again : W → Result Body × W) (w w' v : W)
      (b : Backend) (token : String) (body : Body) (bytes : List ℕ) (others : List Op)
      → (reserve chrono first.reserving ttl b key digest first.reserved_at lease first.token).0
        ≡ ReserveOutcome.won token
      → handle_intent w ≡ (ok body, w')
      → codec.to_vec body ≡ some bytes
      → lossy bytes ≡ bytes
      → ((c : Backend) → first.between c ≡ run chrono lossy ttl others c)
      → AllForeign chrono lossy ttl key first.reserved_at token others
      → (first.settling.pool && first.settling.write) ≡ true
      → (again.reserving.lock && again.reserving.pool && again.reserving.begin
          && again.reserving.read && again.reserving.commit)
        ≡ true
      → again.reserved_at -ℤ first.stored_at ≤ℤ ttl
      → let (answer, after, b') =
          run_guarded codec chrono ttl key digest lossy lease first handle_intent w b in
        (answer ≡ ok (record { body = body; replayed = false }))
        × (after ≡ w')
        × (run_guarded codec chrono ttl key digest lossy lease again handle_again v b'
            ≡ (ok (record { body = body; replayed = true }), v, b'))
  unfolding settle
  executed_once first again handle_intent handle_again w w' v b token body bytes others won ran
        printed utf8 raced foreign written reads fresh =
      let b₁ =
        (reserve chrono first.reserving ttl b key digest first.reserved_at lease first.token).1 in
      let (alone, held) =
        winner_is_alone chrono lossy ttl first.reserving b key digest first.reserved_at lease token
          first.token others won foreign in
      let claimed : IsClaimed chrono (first.between b₁) key digest first.reserved_at token =
        subst (λ c. IsClaimed chrono c key digest first.reserved_at token) (sym (raced b₁)) held in
      let b₂ =
        store chrono lossy first.settling (first.between b₁) key digest
          (record { status = 200; body_json = bytes }) first.stored_at token in
      let done : run_guarded codec chrono ttl key digest lossy lease first handle_intent w b
          ≡ (ok (record { body = body; replayed = false }), w', b₂) =
        won_run first handle_intent w w' b token (ok body) won ran ∙ rw (printed, settle) refl in
      let again_done =
        after_stored (first.between b₁) first.reserved_at first.stored_at token first.settling body
          bytes again handle_again v claimed printed utf8 written reads fresh in
      (
        ap (λ r. r.0) done,
        ap (λ r. r.1) done,
        subst
            (λ c.
              run_guarded codec chrono ttl key digest lossy lease again handle_again v c
              ≡ (ok (record { body = body; replayed = true }), v, c))
            (sym (ap (λ r. r.2) done)) again_done,
      )
