-- ===== src/Mandate/Ledger/Owners.antt =====
-- To whom `MandateLedger` of src/mandate.rs shows a mandate's usage.
use stateset_icp_handler.Prelude.{
  String, ◌≡◌, ◌≢◌, ◌⊎◌, refl, ap, ◌∙◌, inl, inr, false, Option, none, some, List, [], ◌∷◌, arith,
  eq_iff, unwrap_or, Bool-cases, Option-cases,
}
use stateset_icp_handler.Prelude.Int.{ℤ}
use stateset_icp_handler.Prelude.Keyed.{◌==◌, string_eq, get-insert_self}
use stateset_icp_handler.Errors.{ok, err, engine_unavailable}
use stateset_icp_handler.Chrono.{Chrono}
use stateset_icp_handler.Storage.{Attempt}
use stateset_icp_handler.Mandate.Ledger.{
  MandateUsage, MandateSpendLimits, MandateLedger, UsageRow, memory, sqlite, usage_of_query,
  usage_of_row, row_of_usage, coalesce, coalesce_owner, claim, open_window, current, charged,
  precheck, spend_memory, spend_sqlite, spend_backend, try_record_spend_checked, visible, try_usage,
  try_usage_for_tenant,
}
use stateset_icp_handler.Mandate.Ledger.Budget.{usage_in}
use stateset_icp_handler.Mandate.Ledger.Window.{SpendCall, spend, spend_all, spend_other}

current-owner :
    (tenant_id : String) (now : ℤ) (limits : MandateSpendLimits) (u : MandateUsage)
    → (u.tenant_id == "") ≡ false
    → (current tenant_id now limits u).tenant_id ≡ u.tenant_id
unfolding current claim open_window
current-owner tenant_id now limits u owned = ground arith

charged-owner : (amount : ℤ) (u : MandateUsage) → (charged amount u).tenant_id ≡ u.tenant_id
unfolding charged
charged-owner amount u = refl

coalesce-owner :
    (old : Option String) (new : String)
    → (unwrap_or old "" == "") ≡ false
    → unwrap_or (coalesce old new) "" ≡ unwrap_or old ""
unfolding coalesce
coalesce-owner none new owned = ground (arith, eq_iff "" "")
coalesce-owner (some t) new owned = ground arith

row-owner :
    (chrono : Chrono) (q : Option UsageRow) (u : MandateUsage)
    → ((usage_of_query chrono q).tenant_id == "") ≡ false
    → (usage_of_query chrono (some (row_of_usage chrono q u))).tenant_id
      ≡ (usage_of_query chrono q).tenant_id
unfolding usage_of_query usage_of_row row_of_usage coalesce_owner
row-owner chrono none u owned = ground (arith, eq_iff "" "")
row-owner chrono (some r) u owned = coalesce-owner r.tenant_id u.tenant_id owned

module _ (chrono : Chrono) (limits_of : String → MandateSpendLimits) where
  backend-owner :
      (c : SpendCall) (l : MandateLedger)
      → ((usage_in chrono l c.jti).tenant_id == "") ≡ false
      → (usage_in chrono
          (spend_backend chrono c.attempt l c.jti c.tenant_id c.amount c.now (limits_of c.jti)).1
          c.jti).tenant_id
        ≡ (usage_in chrono l c.jti).tenant_id
  unfolding spend_backend spend_memory spend_sqlite
  backend-owner c (memory m) owned = grind (arith, get-insert_self, current-owner, charged-owner)
  backend-owner c (sqlite t) owned = grind (arith, get-insert_self, row-owner)

  spend-owner :
      (c : SpendCall) (l : MandateLedger) (jti : String)
      → ((usage_in chrono l jti).tenant_id == "") ≡ false
      → (usage_in chrono (spend chrono limits_of c l).1 jti).tenant_id
        ≡ (usage_in chrono l jti).tenant_id
  unfolding try_record_spend_checked
  spend-owner c l jti owned = elim (Bool-cases (c.jti == jti)) [
    | inr other ↦ ap (λ u. u.tenant_id) (spend_other chrono limits_of c l jti other)
    | inl own ↦
        let same = (eq_iff c.jti jti).0 own in
        rw (← same) (elim (Option-cases (precheck c.amount (limits_of c.jti))) [
          | inl go ↦ rw (go, try_record_spend_checked) (backend-owner c l (rw same owned))
          | inr (r, stop) ↦ rw (stop, try_record_spend_checked)
        ])
  ]

  -- Whatever spends follow, the mandate keeps its first spender.
  pub spend_all-owner :
      (cs : List SpendCall) (l : MandateLedger) (jti : String)
      → ((usage_in chrono l jti).tenant_id == "") ≡ false
      → (usage_in chrono (spend_all chrono limits_of cs l) jti).tenant_id
        ≡ (usage_in chrono l jti).tenant_id
  unfolding spend_all
  spend_all-owner [] l jti owned = refl
  spend_all-owner (c ∷ cs) l jti owned =
      let step = spend-owner c l jti owned in
      spend_all-owner cs (spend chrono limits_of c l).1 jti (rw step owned) ∙ step

  -- A read finds the usage in the ledger, or fails.
  try_usage_cases :
      (a : Attempt) (l : MandateLedger) (jti : String)
      → (try_usage chrono a l jti ≡ ok (usage_in chrono l jti))
        ⊎ (try_usage chrono a l jti ≡ err engine_unavailable)
  unfolding try_usage
  try_usage_cases a (memory m) jti = ground arith
  try_usage_cases a (sqlite t) jti = ground arith

  visible_owner :
      (u : MandateUsage) (tenant_id : String) → u.tenant_id ≢ tenant_id → visible tenant_id u ≡ none
  unfolding visible
  visible_owner u tenant_id other = ground (arith, eq_iff u.tenant_id tenant_id)

  -- Once a tenant has spent under a mandate, no other tenant is shown its usage, whatever spends
  -- follow: it gets a miss, or the error of a failed read.
  pub usage_hidden_from_others :
      (cs : List SpendCall) (l : MandateLedger) (jti tenant_id : String) (a : Attempt)
      → (usage_in chrono l jti).tenant_id ≢ ""
      → (usage_in chrono l jti).tenant_id ≢ tenant_id
      → let shown = try_usage_for_tenant chrono a (spend_all chrono limits_of cs l) jti tenant_id in
        (shown ≡ ok none) ⊎ (shown ≡ err engine_unavailable)
  unfolding try_usage_for_tenant
  usage_hidden_from_others cs l jti tenant_id a owned other =
      let l' = spend_all chrono limits_of cs l in
      let owner =
        spend_all-owner cs l jti (ground (arith, eq_iff (usage_in chrono l jti).tenant_id "")) in
      elim (try_usage_cases a l' jti) [
        | inr e ↦ inr (rw (e, try_usage_for_tenant))
        | inl e ↦ inl (
            rw (e, try_usage_for_tenant)
              (ap ok (visible_owner (usage_in chrono l' jti) tenant_id (rw owner other))))
      ]
