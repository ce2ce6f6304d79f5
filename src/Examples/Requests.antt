-- ===== src/Examples/Requests.antt =====
-- The theorems on requests (src/service/mod.rs) at concrete inputs.
use stateset_icp_handler.Prelude.{
  ℕ, List, [], ◌∷◌, Option, ◌≡◌, ◌+◌, refl, inr, true, false, none, some, arith, eq_iff,
}
use stateset_icp_handler.Prelude.Int.{pos, ◌+ℤ◌, ◌-ℤ◌, ◌*ℤ◌}
use stateset_icp_handler.Prelude.Word.{
  max_i64, min_i64, saturating_sub, saturating_add, saturating_mul, clamp_i64,
}
use stateset_icp_handler.Prelude.Keyed.{Keyed, get}
use stateset_icp_handler.Prelude.Text.{
  codes, eq_ignore_ascii_case, split_once, strip_suffix, codes_eq,
}
use stateset_icp_handler.Errors.{Result, ok}
use stateset_icp_handler.Storage.{smooth}
use stateset_icp_handler.Intent.{parse, buy, is_state_change, scope}
use stateset_icp_handler.Mandate.Period.{parse_i64, parse_period}
use stateset_icp_handler.Mandate.Jurisdiction.{jurisdiction_authorizes}
use stateset_icp_handler.Mandate.Ledger.{try_usage}
use stateset_icp_handler.Mandate.Signature.{
  verify_signature, decode_unverified, split_compact, candidates,
}
use stateset_icp_handler.Mandate.Evaluate.{
  evaluate, check_validity, check_terms, merchant_allowed, jurisdiction_allowed, check_budget,
  budget_window, effective_spent, check_signature,
}
use stateset_icp_handler.Idempotency.{
  Row, Key, Backend, sqlite, reserve, reserve_entry, reserve_row,
}
use stateset_icp_handler.Idempotency.Claims.{run}
use stateset_icp_handler.Service.Gate.{
  IntentInput, IntentConfig, admit_intent, mandate_for, scoped_mandate,
  estimate_intent_amount_minor, estimate_items,
}
use stateset_icp_handler.Service.Gate.Admitted.{IsMandated, admitted_under_mandate}
use stateset_icp_handler.Service.Pipeline.{
  Codec, GuardedRun, IntentExecution, replay_cached, run_guarded,
}
use stateset_icp_handler.Service.Pipeline.Replayed.{executed_once}
use stateset_icp_handler.Service.Pipeline.Rerun.{failed_read_runs_again}
use stateset_icp_handler.Examples.Clock.{calendar, span, read_instant, count}
use stateset_icp_handler.Examples.Mandates.{jws_for, resolver, ledger, evaluated}
use stateset_icp_handler.Examples.Keys.{key, empty, others}

abbrev config : IntentConfig
config = record {
  require_mandate = true;
  verify_mandate_signatures = true;
  is_production = true;
  idempotency_lease_secs = 30;
}

-- Four of an item at 100.
abbrev pub purchase : IntentInput
purchase = record {
  intent = codes "intent.buy";
  intent_id = none;
  agent_id = "agent";
  transaction_id = none;
  mandate_jti = none;
  jurisdiction = some "US-CA";
  currency = none;
  items = some (record { quantity = some (pos 4); amount_minor = some (pos 100) } ∷ []);
  agent_raw = "agent";
  tenant_id = "acme";
  rate_limit_per_minute = none;
  mandate_jws = some (codes "h.p.s");
  skip_mandate_check = false;
  skip_rate_limit = false;
}

admitted_under_mandate_example :
    IsMandated calendar
      (jws_for "P1D")
      config
      resolver
      purchase
      smooth
      ledger
      (pos 5)
      buy
      (some evaluated)
unfolding is_state_change scope admit_intent mandate_for scoped_mandate estimate_intent_amount_minor
    estimate_items saturating_add saturating_mul parse codes_eq evaluate check_validity check_terms
    check_budget check_signature decode_unverified split_compact verify_signature merchant_allowed
    jurisdiction_allowed budget_window effective_spent try_usage get jurisdiction_authorizes
    eq_ignore_ascii_case split_once parse_period parse_i64 strip_suffix span saturating_sub
    clamp_i64 max_i64 min_i64 ◌+ℤ◌ ◌-ℤ◌ ◌*ℤ◌ candidates
admitted_under_mandate_example =
    admitted_under_mandate calendar (jws_for "P1D") config resolver refl purchase smooth ledger
      (pos 5) buy (some evaluated) refl refl refl

abbrev first_byte : List ℕ → Option ℕ
first_byte [] = none
first_byte (b ∷ _) = some b

first_byte_printed :
    (body : ℕ) (bytes : List ℕ) → some (body ∷ []) ≡ some bytes → first_byte bytes ≡ some body
first_byte_printed body [] e = cc
first_byte_printed body (b ∷ bytes) e = cc

-- The text of a number is the list that holds it.
abbrev numbers : Codec ℕ
numbers = record {
  to_vec = λ n. some (n ∷ []);
  from_slice = first_byte;
  from_slice-to_vec = first_byte_printed;
}

-- The run of the worker with token "t1", while the others try for its key.
abbrev first_run : GuardedRun
first_run = record {
  reserving = smooth;
  reserved_at = pos 10;
  token = "t1";
  between = run calendar (λ s. s) (pos 100) others;
  settling = smooth;
  stored_at = pos 42;
  sight = λ _. (smooth, empty, pos 10);
}

abbrev second_run : GuardedRun
second_run = record first_run { reserved_at = pos 60; token = "t4" }

executed_once_example :
    let (answer, after, b') =
      run_guarded numbers calendar
        (pos 100)
        key
        "d1"
        (λ s. s)
        (pos 30)
        first_run
        (λ w. (ok 5, w + 1))
        0
        empty in
    (answer ≡ ok (record { body = 5; replayed = false }))
    × (after ≡ 1)
    × (run_guarded numbers calendar
          (pos 100)
          key
          "d1"
          (λ s. s)
          (pos 30)
          second_run
          (λ w. (ok 6, w + 1))
          1
          b'
        ≡ (ok (record { body = 5; replayed = true }), 1, b'))
unfolding reserve reserve_entry get ◌-ℤ◌
executed_once_example =
    executed_once numbers calendar (pos 100) key "d1" (λ s. s) (pos 30) first_run second_run
      (λ w. (ok 5, w + 1)) (λ w. (ok 6, w + 1)) 0 1 1 empty "t1" 5 (5 ∷ []) others refl refl refl
      refl (λ c. refl)
      (
        inr (refl, omega arith, omega arith),
        (
          inr (refl, omega arith, omega arith),
          (
            inr (λ e. ground (arith, (eq_iff "t2" "t1").1 e)),
            (inr (λ e. ground (arith, (eq_iff "t3" "t1").1 e)), tt),
          ),
        ),
      )
      refl refl (omega arith)

-- The row of a response that is stored, printed as the list that holds 5.
abbrev done : Row
done = record {
  request_digest = "d1";
  response_status = 200;
  response_body = 5 ∷ [];
  created_at = "+";
  reservation_id = "";
}

abbrev stored : Keyed Key Row
stored = (key, done) ∷ []

abbrev blind_run : GuardedRun
blind_run = record first_run { reserving = record smooth { read = false } }

abbrev guarded_rerun : GuardedRun → ℕ → Backend → Result (IntentExecution ℕ) × ℕ × Backend
guarded_rerun guarded w b =
    run_guarded numbers calendar (pos 100) key "d1" (λ s. s) (pos 30) guarded (λ n. (ok 6, n + 1)) w
      b

failed_read_runs_again_example :
    let (answer, after, b') = guarded_rerun blind_run 1 (sqlite stored) in
    (guarded_rerun second_run 1 (sqlite stored)
      ≡ (replay_cached numbers (record { status = 200; body_json = 5 ∷ [] }), 1, sqlite stored))
    × (answer ≡ ok (record { body = 6; replayed = false }))
    × (after ≡ 2)
    × (guarded_rerun second_run 2 b' ≡ (ok (record { body = 6; replayed = true }), 2, b'))
unfolding reserve reserve_row get ◌-ℤ◌ read_instant count
failed_read_runs_again_example =
    failed_read_runs_again numbers calendar (pos 100) key "d1" (λ s. s) (pos 30) second_run
      blind_run second_run (λ n. (ok 6, n + 1)) (λ n. (ok 6, n + 1)) 1 2 2 stored
      (record { status = 200; body_json = 5 ∷ [] }) 6 (6 ∷ []) others refl refl refl refl refl refl
      (λ c. refl)
      (
        inr (refl, omega arith, omega arith),
        (
          inr (refl, omega arith, omega arith),
          (
            inr (λ e. ground (arith, (eq_iff "t2" "t1").1 e)),
            (inr (λ e. ground (arith, (eq_iff "t3" "t1").1 e)), tt),
          ),
        ),
      )
      refl refl (omega arith)
