-- ===== src/Examples/Mandates.antt =====
-- The theorems on mandates (src/mandate.rs) at concrete inputs.
use stateset_icp_handler.Prelude.{
  ℕ, String, ◌≡◌, ◌⊎◌, ◌↔◌, inr, refl, true, false, none, some, List, [], ◌∷◌, arith, eqb, eq_iff,
}
use stateset_icp_handler.Prelude.Int.{pos, ◌+ℤ◌, ◌-ℤ◌, ◌*ℤ◌, ◌≤ℤ◌}
use stateset_icp_handler.Prelude.Word.{max_i64, min_i64, saturating_sub, clamp_i64}
use stateset_icp_handler.Prelude.Keyed.{get}
use stateset_icp_handler.Prelude.Text.{codes, eq_ignore_ascii_case, split_once, strip_suffix}
use stateset_icp_handler.Errors.{ok, err, panic, engine_unavailable}
use stateset_icp_handler.Storage.{smooth}
use stateset_icp_handler.Mandate.Period.{parse_i64, parse_period}
use stateset_icp_handler.Mandate.Jurisdiction.{
  jurisdiction_authorizes, Covers, jurisdiction_authorizes_iff,
}
use stateset_icp_handler.Mandate.Terms.{MandatePayload, MandateTerms}
use stateset_icp_handler.Mandate.Ledger.{
  MandateLedger, MandateUsage, MandateSpendLimits, memory, unused, try_usage_for_tenant, try_usage,
}
use stateset_icp_handler.Mandate.Ledger.Budget.{IsWithin, usage_in}
use stateset_icp_handler.Mandate.Ledger.Window.{SpendCall, spend_all, accepted, spend_all-IsWithin}
use stateset_icp_handler.Mandate.Ledger.Owners.{usage_hidden_from_others}
use stateset_icp_handler.Mandate.Signature.{
  Jws, PrincipalResolver, verify_signature, decode_unverified, split_compact, candidates,
}
use stateset_icp_handler.Mandate.Signature.Accepts.{IsSigned, verify_signature_iff}
use stateset_icp_handler.Mandate.Evaluate.{
  MandateEvaluation, evaluate, check_validity, check_terms, merchant_allowed, jurisdiction_allowed,
  check_budget, budget_window, effective_spent, check_signature,
}
use stateset_icp_handler.Mandate.Evaluate.Sound.{
  IsAuthorized, evaluate-IsAuthorized, evaluate_panics,
}
use stateset_icp_handler.Mandate.Reserve.{reserve_mandate_spend}
use stateset_icp_handler.Mandate.Reserve.Agrees.{evaluated_reserves}
use stateset_icp_handler.Examples.Clock.{calendar, span}

jurisdiction_authorizes_iff_example :
    (jurisdiction_authorizes (codes "us") (codes "US-CA") ≡ true)
    ↔ Covers (codes "us") (codes "US-CA")
jurisdiction_authorizes_iff_example = jurisdiction_authorizes_iff (codes "us") (codes "US-CA")

-- 300 of the 1000 that the mandate allows are spent, in a window that began at 100.
abbrev pub partly_spent : MandateUsage
partly_spent = record { spent_minor = pos 300; window_start = some (pos 100); tenant_id = "acme" }

abbrev thousand : MandateSpendLimits
thousand = record { budget_minor = pos 1000; per_transaction = none; window = pos 60 }

abbrev pub ledger : MandateLedger
ledger = memory (("m1", partly_spent) ∷ [])

abbrev call : ℕ → ℕ → SpendCall
call amount now = record {
  attempt = smooth;
  jti = "m1";
  tenant_id = "other";
  amount = pos amount;
  now = pos now;
}

-- The second call does not fit.
abbrev calls : List SpendCall
calls = call 500 110 ∷ call 300 120 ∷ call 200 160 ∷ []

ledger-IsWithin : IsWithin (pos 100) thousand partly_spent
ledger-IsWithin = record { started = refl; nonneg = omega arith; within = omega arith }

spend_all-IsWithin_example :
    IsWithin
      (pos 100)
      thousand
      (usage_in calendar (spend_all calendar (λ _. thousand) calls ledger) "m1")
    × ((usage_in calendar (spend_all calendar (λ _. thousand) calls ledger) "m1").spent_minor
        ≡ pos 300 +ℤ accepted calendar (λ _. thousand) "m1" calls ledger)
    × (pos 300 +ℤ accepted calendar (λ _. thousand) "m1" calls ledger ≤ℤ pos 1000)
unfolding max_i64 min_i64 get ◌-ℤ◌
spend_all-IsWithin_example =
    spend_all-IsWithin calendar (λ _. thousand) (pos 100) "m1" (omega arith, omega arith) calls
      ledger (inr (omega arith), (inr (omega arith), (inr (omega arith), tt))) ledger-IsWithin

usage_hidden_from_others_example :
    (try_usage_for_tenant calendar smooth
        (spend_all calendar (λ _. thousand) calls ledger)
        "m1"
        "other"
      ≡ ok none)
    ⊎ (try_usage_for_tenant calendar smooth
          (spend_all calendar (λ _. thousand) calls ledger)
          "m1"
          "other"
        ≡ err engine_unavailable)
unfolding get
usage_hidden_from_others_example =
    usage_hidden_from_others calendar (λ _. thousand) calls ledger "m1" "other" smooth
      (λ e. ground (arith, (eq_iff "acme" "").1 e))
      (λ e. ground (arith, (eq_iff "acme" "other").1 e))

abbrev sixty_four : List ℕ
sixty_four =
    let eight : List ℕ → List ℕ = λ s. 7 ∷ 7 ∷ 7 ∷ 7 ∷ 7 ∷ 7 ∷ 7 ∷ 7 ∷ s in
    eight (eight (eight (eight (eight (eight (eight (eight [])))))))

abbrev terms_for : String → MandateTerms
terms_for period = record {
  version = "2026-04-21";
  scope = "buy" ∷ [];
  budget = record {
    currency = "USD";
    amount_minor = pos 1000;
    per_transaction = none;
    period = some period;
  };
  merchants = "*" ∷ [];
  categories = [];
  jurisdictions = "US" ∷ [];
  policies = record {
    require_receipt = false;
    require_shipping_address_confirmation = false;
    prohibit_subscriptions = true;
  };
  linked_payment_methods = [];
}

abbrev payload_for : String → MandatePayload
payload_for period = record {
  iss = "did:key:z1";
  sub = "agent";
  iat = pos 0;
  nbf = pos 0;
  exp = pos 10;
  jti = "m2";
  icp = terms_for period;
}

abbrev first : List ℕ → ℕ
first [] = 0
first (a ∷ _) = a

-- Every payload reads as the mandate with this period; a key verifies what begins as it does.
abbrev pub jws_for : String → Jws
jws_for period = record {
  decode_base64 = λ _. some sixty_four;
  header_from_slice = λ _. some (record { alg = "EdDSA"; kid = some "k2" });
  payload_from_slice = λ _. some (payload_for period);
  verify = λ key message signature. eqb (first key) (first signature);
}

abbrev pub resolver : PrincipalResolver
resolver _ = some (
    record { kid = some "k1"; alg = "EdDSA"; key = 7 ∷ [] }
    ∷ record { kid = some "k2"; alg = "EdDSA"; key = 8 ∷ [] }
    ∷ [])

verify_signature_iff_example :
    (verify_signature (jws_for "P1D") (codes "h.p.s") "did:key:z1" resolver ≡ ok tt)
    ↔ IsSigned (jws_for "P1D") (codes "h.p.s") "did:key:z1" resolver
verify_signature_iff_example =
    verify_signature_iff (jws_for "P1D") (codes "h.p.s") "did:key:z1" resolver

abbrev pub evaluated : MandateEvaluation
evaluated = record {
  payload = payload_for "P1D";
  compact_jws = codes "h.p.s";
  spend_room_minor = pos 1000;
  signature_verified = true;
}

evaluate-IsAuthorized_example :
    IsAuthorized calendar
      (jws_for "P1D")
      (codes "h.p.s")
      "buy"
      (pos 400)
      (pos 5)
      "acme"
      (some "US-CA")
      smooth
      ledger
      (some resolver)
      evaluated
unfolding evaluate check_validity check_terms check_budget check_signature decode_unverified
    split_compact verify_signature merchant_allowed jurisdiction_allowed budget_window
    effective_spent try_usage get jurisdiction_authorizes eq_ignore_ascii_case split_once
    parse_period parse_i64 strip_suffix span saturating_sub clamp_i64 max_i64 min_i64 ◌-ℤ◌ ◌*ℤ◌
    candidates
evaluate-IsAuthorized_example =
    evaluate-IsAuthorized calendar (jws_for "P1D") (codes "h.p.s") "buy" (pos 400) (pos 5) "acme"
      (some "US-CA") smooth ledger (some resolver) evaluated refl

evaluated_reserves_example :
    (reserve_mandate_spend calendar smooth ledger (some evaluated) "acme" (pos 400) "usd" (pos 5)).0
    ≡ ok tt
unfolding evaluate check_validity check_terms check_budget check_signature decode_unverified
    split_compact verify_signature merchant_allowed jurisdiction_allowed budget_window
    effective_spent try_usage get jurisdiction_authorizes eq_ignore_ascii_case split_once
    parse_period parse_i64 strip_suffix span saturating_sub clamp_i64 max_i64 min_i64 ◌-ℤ◌ ◌*ℤ◌
    candidates
evaluated_reserves_example =
    evaluated_reserves calendar (jws_for "P1D") (codes "h.p.s") "buy" (pos 400) (pos 5) "acme"
      (some "US-CA") smooth ledger (some resolver) evaluated "usd" refl (omega arith) refl
      (omega arith)

evaluate_panics_example :
    evaluate calendar
      (jws_for "P999999999999D")
      (codes "h.p.s")
      "buy"
      (pos 400)
      (pos 5)
      "acme"
      (some "US-CA")
      smooth
      ledger
      none
    ≡ panic
unfolding check_validity check_terms decode_unverified split_compact merchant_allowed
    jurisdiction_allowed try_usage get jurisdiction_authorizes eq_ignore_ascii_case split_once
    parse_i64 span ◌*ℤ◌
evaluate_panics_example =
    evaluate_panics calendar (jws_for "P999999999999D") (codes "h.p.s") "buy" (pos 400) (pos 5)
      "acme" (some "US-CA") smooth ledger (payload_for "P999999999999D") unused "P999999999999D"
      (codes "999999999999") (pos 999999999999) refl refl refl refl refl refl refl refl refl none
