-- ===== src/Mandate/Evaluate/Authorized.antt =====
-- What each step of `evaluate` in src/mandate.rs lets through.
use stateset_icp_handler.Prelude.{
  String, ◌≡◌, ◌≢◌, ◌⊎◌, inl, inr, refl, Bool, true, false, not, ◌&&◌, ◌||◌, Option, none, some,
  List, [], ◌∷◌, any, is_none_or, is_some_and, arith, eq_iff, Bool-cases,
}
use stateset_icp_handler.Prelude.Int.{ℤ, ◌≤ℤ◌, ltb_ℤ, ltb_ℤ_false}
use stateset_icp_handler.Prelude.Word.{saturating_sub}
use stateset_icp_handler.Prelude.Keyed.{◌==◌, string_eq}
use stateset_icp_handler.Prelude.Text.{codes}
use stateset_icp_handler.Errors.{ok, >>=-eq-ok, ok_or-bind, ensure-bind, ensure-eq-ok}
use stateset_icp_handler.Chrono.{Chrono}
use stateset_icp_handler.Storage.{Attempt}
use stateset_icp_handler.Mandate.Jurisdiction.{
  Covers, jurisdiction_authorizes, jurisdiction_authorizes_iff,
}
use stateset_icp_handler.Mandate.Terms.{MandatePayload, MandateTerms}
use stateset_icp_handler.Mandate.Ledger.{MandateUsage, MandateLedger, try_usage}
use stateset_icp_handler.Mandate.Evaluate.{
  contains, check_validity, merchant_allowed, jurisdiction_allowed, check_terms, effective_spent,
  budget_window, check_budget,
}

-- An element of the list has the property.
abbrev pub AnyOf : (String → Type 0) → List String → Type 0
AnyOf P [] = ⊥
AnyOf P (x ∷ xs) = P x ⊎ AnyOf P xs

any-AnyOf :
    (P : String → Type 0) (p : String → Bool)
    → ((x : String) → p x ≡ true → P x)
    → (xs : List String) → any p xs ≡ true
    → AnyOf P xs
any-AnyOf P p sound [] h = cc
any-AnyOf P p sound (x ∷ xs) h = elim (Bool-cases (p x)) [
  | inl e ↦ inl (sound x e)
  | inr e ↦ inr (any-AnyOf P p sound xs (rw e at h))
]

abbrev pub Listed : String → List String → Type 0
Listed s = AnyOf (λ x. x ≡ s)

contains-Listed : (s : String) (xs : List String) → contains s xs ≡ true → Listed s xs
contains-Listed s = any-AnyOf (λ x. x ≡ s) (λ x. x == s) (λ x. (eq_iff x s).0)

pub record InTime (chrono : Chrono) (payload : MandatePayload) (now : ℤ) : Type 0 where
  pub nbf : ℤ
  pub exp : ℤ
  pub nbf_instant : chrono.from_timestamp payload.nbf ≡ some nbf
  pub exp_instant : chrono.from_timestamp payload.exp ≡ some exp
  pub begun : nbf ≤ℤ now
  pub not_over : now ≤ℤ exp

pub check_validity-InTime :
    (chrono : Chrono) (payload : MandatePayload) (now : ℤ)
    → check_validity chrono payload now ≡ ok tt
    → InTime chrono payload now
unfolding check_validity
check_validity-InTime chrono payload now h =
    let (nbf, e₀, h₀) = ok_or-bind (chrono.from_timestamp payload.nbf) _ _ h in
    let (exp, e₁, h₁) = ok_or-bind (chrono.from_timestamp payload.exp) _ _ h₀ in
    let (e₂, h₂) = ensure-bind (not (ltb_ℤ now nbf)) _ _ h₁ in
    let e₃ = ensure-eq-ok (not (ltb_ℤ exp now)) _ tt h₂ in
    record {
      nbf = nbf;
      exp = exp;
      nbf_instant = e₀;
      exp_instant = e₁;
      begun = ground arith;
      not_over = ground arith;
    }

pub record TermsAllow (icp : MandateTerms) (intent_scope tenant_id : String)
    (jurisdiction : Option String) : Type 0 where
  pub versioned : icp.version ≢ ""
  pub in_scope : Listed intent_scope icp.scope
  pub merchant : (icp.merchants ≡ []) ⊎ AnyOf (λ m. (m ≡ "*") ⊎ (m ≡ tenant_id)) icp.merchants
  pub place :
      (icp.jurisdictions ≡ [])
      ⊎ Listed "*" icp.jurisdictions
      ⊎ ((j : String) × (jurisdiction ≡ some j)
          × AnyOf (λ allowed. Covers (codes allowed) (codes j)) icp.jurisdictions)
  pub policy : (icp.policies.prohibit_subscriptions ≡ false) ⊎ (intent_scope ≢ "subscribe")

merchant-listed :
    (merchants : List String) (tenant_id : String)
    → merchant_allowed merchants tenant_id ≡ true
    → (merchants ≡ []) ⊎ AnyOf (λ m. (m ≡ "*") ⊎ (m ≡ tenant_id)) merchants
unfolding merchant_allowed
merchant-listed [] tenant_id h = inl refl
merchant-listed (m ∷ ms) tenant_id h = inr (
    any-AnyOf _ (λ x. x == "*" || x == tenant_id)
      (λ x e. ground (arith, eq_iff x "*", eq_iff x tenant_id)) (m ∷ ms) h)

place-Listed :
    (jurisdictions : List String) (jurisdiction : Option String)
    → jurisdiction_allowed jurisdictions jurisdiction ≡ true
    → (jurisdictions ≡ [])
      ⊎ Listed "*" jurisdictions
      ⊎ ((j : String) × (jurisdiction ≡ some j)
          × AnyOf (λ allowed. Covers (codes allowed) (codes j)) jurisdictions)
unfolding jurisdiction_allowed
place-Listed [] jurisdiction h = inl refl
place-Listed (x ∷ xs) jurisdiction h = elim (Bool-cases (contains "*" (x ∷ xs))) [
  | inl e ↦ inr (inl (contains-Listed "*" (x ∷ xs) e))
  | inr e ↦ inr (inr (declared jurisdiction (rw e at h)))
]
  where
    declared :
        (o : Option String)
        → is_some_and o
            (λ j. any (λ allowed. jurisdiction_authorizes (codes allowed) (codes j)) (x ∷ xs))
          ≡ true
        → (j : String) × (o ≡ some j) × AnyOf (λ allowed. Covers (codes allowed) (codes j)) (x ∷ xs)
    declared none e = cc
    declared (some j) e = (
      j,
      refl,
      any-AnyOf _ _ (λ a. (jurisdiction_authorizes_iff (codes a) (codes j)).0) (x ∷ xs) e,
    )

policy_holds :
    (prohibited : Bool) (intent_scope : String)
    → not (prohibited && intent_scope == "subscribe") ≡ true
    → (prohibited ≡ false) ⊎ (intent_scope ≢ "subscribe")
policy_holds true s h = inr (λ e. ground (arith, (eq_iff s "subscribe").1 e))
policy_holds false s h = inl refl

pub check_terms-TermsAllow :
    (icp : MandateTerms) (intent_scope tenant_id : String) (jurisdiction : Option String)
    → check_terms icp intent_scope tenant_id jurisdiction ≡ ok tt
    → TermsAllow icp intent_scope tenant_id jurisdiction
unfolding check_terms
check_terms-TermsAllow icp intent_scope tenant_id jurisdiction h =
    let (e₀, h₀) = ensure-bind (not (icp.version == "")) _ _ h in
    let (e₁, h₁) = ensure-bind (contains intent_scope icp.scope) _ _ h₀ in
    let (e₂, h₂) = ensure-bind (merchant_allowed icp.merchants tenant_id) _ _ h₁ in
    let (e₃, h₃) = ensure-bind (jurisdiction_allowed icp.jurisdictions jurisdiction) _ _ h₂ in
    let e₄ = ensure-eq-ok _ _ tt h₃ in
    record {
      versioned = λ e. ground (arith, (eq_iff icp.version "").1 e);
      in_scope = contains-Listed intent_scope icp.scope e₁;
      merchant = merchant-listed icp.merchants tenant_id e₂;
      place = place-Listed icp.jurisdictions jurisdiction e₃;
      policy = policy_holds icp.policies.prohibit_subscriptions intent_scope e₄;
    }

-- The amount is within the per-transaction cap and within what the budget leaves.
pub record BudgetAllows (chrono : Chrono) (a : Attempt) (ledger : MandateLedger)
    (payload : MandatePayload) (amount now room : ℤ) : Type 0 where
  pub usage : MandateUsage
  pub window : ℤ
  pub capped :
      (payload.icp.budget.per_transaction ≡ none)
      ⊎ ((cap : ℤ) × (payload.icp.budget.per_transaction ≡ some cap) × (amount ≤ℤ cap))
  pub read : try_usage chrono a ledger payload.jti ≡ ok usage
  pub windowed : budget_window chrono payload.icp.budget ≡ ok window
  pub left :
      room ≡ saturating_sub payload.icp.budget.amount_minor (effective_spent usage now window)
  pub fits : amount ≤ℤ room

cap_holds :
    (per_transaction : Option ℤ) (amount : ℤ)
    → is_none_or per_transaction (λ cap. not (ltb_ℤ cap amount)) ≡ true
    → (per_transaction ≡ none) ⊎ ((cap : ℤ) × (per_transaction ≡ some cap) × (amount ≤ℤ cap))
cap_holds none amount h = inl refl
cap_holds (some cap) amount h = inr (cap, refl, ltb_ℤ_false cap amount (ground arith))

pub check_budget-BudgetAllows :
    (chrono : Chrono) (a : Attempt) (ledger : MandateLedger) (payload : MandatePayload)
    (amount now room : ℤ)
    → check_budget chrono a ledger payload amount now ≡ ok room
    → BudgetAllows chrono a ledger payload amount now room
unfolding check_budget
check_budget-BudgetAllows chrono a ledger payload amount now room h =
    let budget = payload.icp.budget in
    let (e₀, h₀) =
      ensure-bind (is_none_or budget.per_transaction (λ cap. not (ltb_ℤ cap amount))) _ _ h in
    let (usage, e₁, h₁) = >>=-eq-ok (try_usage chrono a ledger payload.jti) _ h₀ in
    let (window, e₂, h₂) = >>=-eq-ok (budget_window chrono budget) _ h₁ in
    let remaining = saturating_sub budget.amount_minor (effective_spent usage now window) in
    let (e₃, h₃) = ensure-bind (not (ltb_ℤ remaining amount)) _ _ h₂ in
    let same : remaining ≡ room = cc h₃ in
    record {
      usage = usage;
      window = window;
      capped = cap_holds budget.per_transaction amount e₀;
      read = e₁;
      windowed = e₂;
      left = cc;
      fits = rw (← same) (ltb_ℤ_false remaining amount (ground arith));
    }
