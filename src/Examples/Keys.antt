-- ===== src/Examples/Keys.antt =====
-- The theorems on idempotency keys (src/idempotency.rs) at concrete inputs.
use stateset_icp_handler.Prelude.{◌≡◌, inr, refl, List, [], ◌∷◌, arith, eq_iff}
use stateset_icp_handler.Prelude.Int.{pos, ◌-ℤ◌}
use stateset_icp_handler.Prelude.Keyed.{get, pair_eq}
use stateset_icp_handler.Storage.{smooth}
use stateset_icp_handler.Idempotency.{
  CachedResponse, Key, Backend, memory, sqlite, pending_row, reserve, reserve_entry, store, lookup,
}
use stateset_icp_handler.Idempotency.Claims.{Op, reserves, releases, stores, IsClaimed, wins, run}
use stateset_icp_handler.Idempotency.Exclusive.{winner_is_alone}
use stateset_icp_handler.Idempotency.Replays.{stored_response_replays, looked_up, reserved}
use stateset_icp_handler.Examples.Clock.{calendar}

abbrev pub key : Key
key = ("acme", "k1")

abbrev pub empty : Backend
empty = memory []

-- Others race for the key, one with another digest, and try to release and complete the claim.
abbrev pub others : List Op
others =
    reserves smooth key "d1" (pos 15) (pos 30) "t2"
    ∷ reserves smooth key "d2" (pos 40) (pos 30) "t3"
    ∷ releases smooth key "t2"
    ∷ stores smooth key "d1" (record { status = 200; body_json = [] }) (pos 41) "t3"
    ∷ []

winner_is_alone_example :
    let b' = (reserve calendar smooth (pos 100) empty key "d1" (pos 10) (pos 30) "t1").1 in
    (wins calendar (λ s. s) (pos 100) key others b' ≡ 0)
    × IsClaimed calendar (run calendar (λ s. s) (pos 100) others b') key "d1" (pos 10) "t1"
unfolding reserve reserve_entry get ◌-ℤ◌
winner_is_alone_example =
    winner_is_alone calendar (λ s. s) (pos 100) smooth empty key "d1" (pos 10) (pos 30) "t1" "t1"
      others refl
      (
        inr (refl, omega arith, omega arith),
        (
          inr (refl, omega arith, omega arith),
          (
            inr (λ e. ground (arith, (eq_iff "t2" "t1").1 e)),
            (inr (λ e. ground (arith, (eq_iff "t3" "t1").1 e)), tt),
          ),
        ),
      )

abbrev ok_response : CachedResponse
ok_response = record { status = 200; body_json = b'o' ∷ b'k' ∷ [] }

abbrev claimed : Backend
claimed = sqlite ((key, pending_row calendar "d1" (pos 10) "t1") ∷ [])

stored_response_replays_example :
    let b' = store calendar (λ s. s) smooth claimed key "d1" ok_response (pos 12) "t1" in
    (lookup calendar smooth (pos 100) b' key "d1" (pos 60) ≡ looked_up "d1" "d1" ok_response)
    × (reserve calendar smooth (pos 100) b' key "d1" (pos 60) (pos 30) "t2"
        ≡ (reserved "d1" "d1" ok_response, b'))
unfolding get ◌-ℤ◌
stored_response_replays_example =
    stored_response_replays calendar (λ s. s) (pos 100) smooth smooth claimed key "d1" "d1"
      ok_response (pos 10) (pos 12) (pos 60) (pos 30) "t1" "t2" refl (λ e. ground arith)
      (omega arith) refl refl refl (omega arith)
