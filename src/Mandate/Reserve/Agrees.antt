-- ===== src/Mandate/Reserve/Agrees.antt =====
-- The check of `evaluate` and the gate of the ledger (src/mandate.rs, src/service/helpers.rs) agree.
use stateset_icp_handler.Prelude.{
  ℕ, String, ◌≡◌, ◌⊎◌, inl, inr, refl, sym, subst, true, Option, none, some, List, arith,
  is_none_or,
}
use stateset_icp_handler.Prelude.Int.{
  ℤ, pos, ◌-ℤ◌, ◌≤ℤ◌, ◌<ℤ◌, leb_ℤ, int_laws, ltb_ℤ_of_ge, leb_ℤ_of_le, leb_ℤ_of_gt,
}
use stateset_icp_handler.Prelude.Word.{max_i64, min_i64, clamp_i64, saturating_sub}
use stateset_icp_handler.Prelude.Text.{codes, eq_ignore_ascii_case}
use stateset_icp_handler.Errors.{ok}
use stateset_icp_handler.Chrono.{Chrono}
use stateset_icp_handler.Storage.{Attempt, smooth}
use stateset_icp_handler.Mandate.Ledger.{
  MandateUsage, MandateSpendLimits, MandateLedger, memory, sqlite, claim, open_window, current,
  fits, precheck, spend_memory, spend_sqlite, spend_backend, try_usage, try_record_spend_checked,
}
use stateset_icp_handler.Mandate.Ledger.Budget.{usage_in}
use stateset_icp_handler.Mandate.Signature.{Jws, PrincipalResolver}
use stateset_icp_handler.Mandate.Evaluate.{MandateEvaluation, effective_spent, evaluate}
use stateset_icp_handler.Mandate.Evaluate.Sound.{evaluate-IsAuthorized}
use stateset_icp_handler.Mandate.Reserve.{limits_of, reserve_within, reserve_mandate_spend}

clamp_mono : (x y : ℤ) → x ≤ℤ y → clamp_i64 x ≤ℤ clamp_i64 y
unfolding clamp_i64 max_i64 min_i64
clamp_mono x y h = ground arith

-- Less spent leaves more.
room_mono : (b c e : ℤ) → c ≤ℤ e → saturating_sub b e ≤ℤ saturating_sub b c
unfolding saturating_sub
room_mono b c e h = clamp_mono (b -ℤ e) (b -ℤ c) (omega int_laws)

clamp_positive : (x a : ℤ) → pos 0 <ℤ a → a ≤ℤ clamp_i64 x → pos 0 <ℤ x
unfolding clamp_i64 max_i64 min_i64
clamp_positive x a h k = ground arith

budget_positive : (b e a : ℤ) → pos 0 ≤ℤ e → pos 0 <ℤ a → a ≤ℤ saturating_sub b e → pos 0 <ℤ b
unfolding saturating_sub
budget_positive b e a he ha h = let left = clamp_positive (b -ℤ e) a ha h in omega int_laws

-- The gate counts no more as spent than the check does.
current_spent :
    (tenant_id : String) (now : ℤ) (limits : MandateSpendLimits) (u : MandateUsage)
    → pos 0 ≤ℤ u.spent_minor
    → ((current tenant_id now limits u).spent_minor ≤ℤ effective_spent u now limits.window)
      × (pos 0 ≤ℤ effective_spent u now limits.window)
unfolding current claim open_window effective_spent
current_spent tenant_id now limits u h = ground arith

gate_opens :
    (limits : MandateSpendLimits) (tenant_id : String) (amount now : ℤ) (u : MandateUsage)
    → pos 0 ≤ℤ u.spent_minor
    → amount ≤ℤ saturating_sub limits.budget_minor (effective_spent u now limits.window)
    → fits amount limits (current tenant_id now limits u) ≡ true
unfolding fits
gate_opens limits tenant_id amount now u h k =
    let spent = (current_spent tenant_id now limits u h).0 in
    let room =
      room_mono limits.budget_minor (current tenant_id now limits u).spent_minor
        (effective_spent u now limits.window) spent in
    leb_ℤ_of_le amount _ (omega arith)

cap_passes :
    (cap : Option ℤ) (amount : ℤ)
    → (cap ≡ none) ⊎ ((c : ℤ) × (cap ≡ some c) × (amount ≤ℤ c))
    → is_none_or cap (λ c. leb_ℤ amount c) ≡ true
cap_passes cap amount (inl e) = rw e refl
cap_passes cap amount (inr (c, e, le)) = rw e (leb_ℤ_of_le amount c le)

precheck_passes :
    (amount : ℤ) (limits : MandateSpendLimits)
    → pos 0 <ℤ amount
    → pos 0 <ℤ limits.budget_minor
    → is_none_or limits.per_transaction (λ c. leb_ℤ amount c) ≡ true
    → precheck amount limits ≡ none
unfolding precheck
precheck_passes amount limits positive budget capped =
    rw (leb_ℤ_of_gt amount (pos 0) positive)
      (rw (ltb_ℤ_of_ge limits.budget_minor (pos 0) (omega arith)) (rw capped refl))

spend_goes :
    (chrono : Chrono) (l : MandateLedger) (jti tenant_id : String) (amount now : ℤ)
    (limits : MandateSpendLimits)
    → precheck amount limits ≡ none
    → fits amount limits (current tenant_id now limits (usage_in chrono l jti)) ≡ true
    → (try_record_spend_checked chrono smooth l jti tenant_id amount now limits).0 ≡ ok tt
unfolding try_record_spend_checked spend_backend spend_memory spend_sqlite
spend_goes chrono (memory m) jti tenant_id amount now limits pre fit =
    rw (pre, try_record_spend_checked) (rw fit refl)
spend_goes chrono (sqlite t) jti tenant_id amount now limits pre fit =
    rw (pre, try_record_spend_checked) (rw fit refl)

usage_read :
    (chrono : Chrono) (a : Attempt) (l : MandateLedger) (jti : String) (u : MandateUsage)
    → try_usage chrono a l jti ≡ ok u
    → usage_in chrono l jti ≡ u
unfolding try_usage
usage_read chrono a (memory m) jti u h = ground arith
usage_read chrono a (sqlite t) jti u h = ground arith

-- A mandate that `evaluate` accepts for a positive amount has that amount reserved by the same tenant
-- at the same instant, if the charge is in the currency of its budget, what has been spent is not
-- negative, and nothing fails in the store: the check before the intent and the gate of the ledger
-- agree, on both backends.
pub evaluated_reserves :
    (chrono : Chrono) (jws : Jws) (compact_jws : List ℕ) (intent_scope : String) (amount now : ℤ)
    (tenant_id : String) (jurisdiction : Option String) (a : Attempt) (ledger : MandateLedger)
    (resolver : Option PrincipalResolver) (ev : MandateEvaluation) (currency : String)
    → evaluate chrono jws compact_jws intent_scope amount now tenant_id jurisdiction a ledger
        resolver
      ≡ ok ev
    → pos 0 <ℤ amount
    → eq_ignore_ascii_case (codes ev.payload.icp.budget.currency) (codes currency) ≡ true
    → pos 0 ≤ℤ (usage_in chrono ledger ev.payload.jti).spent_minor
    → (reserve_mandate_spend chrono smooth ledger (some ev) tenant_id amount currency now).0 ≡ ok tt
unfolding reserve_mandate_spend reserve_within
evaluated_reserves chrono jws compact_jws intent_scope amount now tenant_id jurisdiction a ledger
      resolver ev currency accepted positive same_currency nonneg =
    let auth =
      evaluate-IsAuthorized chrono jws compact_jws intent_scope amount now tenant_id jurisdiction a
        ledger resolver ev accepted in
    let b = auth.budget in
    let limits = limits_of ev.payload.icp.budget b.window in
    let is_usage = usage_read chrono a ledger ev.payload.jti b.usage b.read in
    let nonneg' = subst (λ u. pos 0 ≤ℤ u.spent_minor) is_usage nonneg in
    let room = subst (λ r. amount ≤ℤ r) b.left b.fits in
    let fit = gate_opens limits tenant_id amount now b.usage nonneg' room in
    let spent = (current_spent tenant_id now limits b.usage nonneg').1 in
    let budget = budget_positive limits.budget_minor _ amount spent positive room in
    let pre =
      precheck_passes amount limits positive budget
        (cap_passes limits.per_transaction amount b.capped) in
    let goes = spend_goes chrono ledger ev.payload.jti tenant_id amount now limits pre (
      subst (λ u. fits amount limits (current tenant_id now limits u) ≡ true) (sym is_usage) fit) in
    rw (leb_ℤ_of_gt amount (pos 0) positive) (rw same_currency (rw b.windowed goes))
