-- ===== src/Mandate/Ledger/Window.antt =====
-- Sequences of checked spends on one ledger (src/mandate.rs), as concurrent workers make them.
use stateset_icp_handler.Prelude.{
  String, Bool, ◌⊎◌, ◌≡◌, refl, ap, ◌∙◌, inl, inr, true, false, none, some, List, [], ◌∷◌, arith,
  if◌then◌else◌, Bool-cases, Option-cases, eq_iff,
}
use stateset_icp_handler.Prelude.Int.{ℤ, pos, ◌+ℤ◌, ◌-ℤ◌, ◌≤ℤ◌, leb_ℤ, +ℤ_assoc}
use stateset_icp_handler.Prelude.Word.{IsI64}
use stateset_icp_handler.Prelude.Keyed.{◌==◌, string_eq, get-insert_ne}
use stateset_icp_handler.Errors.{Result, ok, err, panic}
use stateset_icp_handler.Chrono.{Chrono}
use stateset_icp_handler.Storage.{Attempt}
use stateset_icp_handler.Mandate.Ledger.{
  MandateSpendLimits, MandateLedger, memory, sqlite, precheck, spend_memory, spend_sqlite,
  spend_backend, try_record_spend_checked,
}
use stateset_icp_handler.Mandate.Ledger.Budget.{
  IsWithin, Gains, usage_in, gain, add_nothing, spend_backend-Gains,
}

-- One call of `try_record_spend_checked`, with what its access to the store met.
pub record SpendCall : Type 0 where
  pub attempt : Attempt
  pub jti : String
  pub tenant_id : String
  pub amount : ℤ
  pub now : ℤ

module _ (chrono : Chrono) (limits_of : String → MandateSpendLimits) where
  abbrev pub spend : SpendCall → MandateLedger → Result (Unit {0}) × MandateLedger
  spend c l =
      try_record_spend_checked chrono c.attempt l c.jti c.tenant_id c.amount c.now (limits_of c.jti)

  unfoldable pub spend_all : List SpendCall → MandateLedger → MandateLedger
  spend_all [] l = l
  spend_all (c ∷ cs) l = spend_all cs (spend c l).1

  -- The sum of the amounts that were accepted for a mandate.
  unfoldable pub accepted : String → List SpendCall → MandateLedger → ℤ
  accepted jti [] l = pos 0
  accepted jti (c ∷ cs) l =
      (if c.jti == jti then gain (spend c l).0 c.amount else pos 0) +ℤ accepted jti cs (spend c l).1

-- Every call for the mandate comes before the window that began at `start` has elapsed.
abbrev pub AllInside : ℤ → ℤ → String → List SpendCall → Type 0
AllInside start window jti [] = Unit
AllInside start window jti (c ∷ cs) =
    (((c.jti == jti) ≡ false) ⊎ (c.now -ℤ start ≤ℤ window)) × AllInside start window jti cs

module _ (chrono : Chrono) (limits_of : String → MandateSpendLimits) where
  backend_other :
      (c : SpendCall) (l : MandateLedger) (jti : String)
      → (c.jti == jti) ≡ false
      → usage_in chrono
          (spend_backend chrono c.attempt l c.jti c.tenant_id c.amount c.now (limits_of c.jti)).1
          jti
        ≡ usage_in chrono l jti
  unfolding spend_backend spend_memory spend_sqlite
  backend_other c (memory m) jti ne = grind (arith, get-insert_ne)
  backend_other c (sqlite t) jti ne = grind (arith, get-insert_ne)

  pub spend_other :
      (c : SpendCall) (l : MandateLedger) (jti : String)
      → (c.jti == jti) ≡ false
      → usage_in chrono (spend chrono limits_of c l).1 jti ≡ usage_in chrono l jti
  unfolding try_record_spend_checked
  spend_other c l jti ne = elim (Option-cases (precheck c.amount (limits_of c.jti))) [
    | inl go ↦ rw (go, try_record_spend_checked) (backend_other c l jti ne)
    | inr (r, stop) ↦ rw (stop, try_record_spend_checked)
  ]

-- An answer without a look at the ledger accepts nothing.
gain-precheck :
    (amount : ℤ) (limits : MandateSpendLimits) (r : Result (Unit {0}))
    → precheck amount limits ≡ some r
    → gain r amount ≡ pos 0
unfolding precheck
gain-precheck amount limits (ok tt) h = ground arith
gain-precheck amount limits (err e) h = refl
gain-precheck amount limits panic h = refl

precheck_positive :
    (amount : ℤ) (limits : MandateSpendLimits)
    → precheck amount limits ≡ none
    → leb_ℤ amount (pos 0) ≡ false
unfolding precheck
precheck_positive amount limits h = ground arith

own_inside : {b : Bool} {P : Type 0} → b ≡ true → (b ≡ false) ⊎ P → P
own_inside own (inl other) = cc
own_inside own (inr inside) = inside

regroup :
    (before after end gained rest budget : ℤ)
    → after ≡ before +ℤ gained
    → end ≡ after +ℤ rest
    → after +ℤ rest ≤ℤ budget
    → (end ≡ before +ℤ (gained +ℤ rest)) × (before +ℤ (gained +ℤ rest) ≤ℤ budget)
regroup before after end gained rest budget e f le =
    let shape = ap (λ s. s +ℤ rest) e ∙ +ℤ_assoc before gained rest in (f ∙ shape, rw shape at le)

module _ (chrono : Chrono) (limits_of : String → MandateSpendLimits) (start : ℤ) (jti : String)
    (budget : IsI64 (limits_of jti).budget_minor) where
  pub spend-Gains :
      (c : SpendCall) (l : MandateLedger)
      → c.jti ≡ jti
      → c.now -ℤ start ≤ℤ (limits_of jti).window
      → IsWithin start (limits_of jti) (usage_in chrono l jti)
      → Gains chrono start
          (limits_of jti)
          jti
          (usage_in chrono l jti)
          c.amount
          (spend chrono limits_of c l)
  unfolding try_record_spend_checked
  spend-Gains c l own inside h = rw own (elim (Option-cases (precheck c.amount (limits_of jti))) [
    | inl go ↦
        rw (go, try_record_spend_checked)
          (spend_backend-Gains chrono (limits_of jti) budget start jti c.tenant_id c.amount c.now
            (precheck_positive c.amount (limits_of jti) go) inside c.attempt l h)
    | inr (r, stop) ↦
        rw (stop, try_record_spend_checked)
          (
            h,
            rw (gain-precheck c.amount (limits_of jti) r stop)
                (add_nothing (usage_in chrono l jti).spent_minor),
          )
  ])

  -- Whatever calls come in, in memory or in SQLite and failing at any step: while the mandate's
  -- calls fall in the window that began at `start` and its budget is not yet passed, the ledger
  -- holds what was spent before and all that was accepted since, and that is within the budget.
  pub spend_all-IsWithin :
      (cs : List SpendCall) (l : MandateLedger)
      → AllInside start (limits_of jti).window jti cs
      → IsWithin start (limits_of jti) (usage_in chrono l jti)
      → IsWithin start (limits_of jti) (usage_in chrono (spend_all chrono limits_of cs l) jti)
        × ((usage_in chrono (spend_all chrono limits_of cs l) jti).spent_minor
            ≡ (usage_in chrono l jti).spent_minor +ℤ accepted chrono limits_of jti cs l)
        × ((usage_in chrono l jti).spent_minor +ℤ accepted chrono limits_of jti cs l
            ≤ℤ (limits_of jti).budget_minor)
  unfolding spend_all accepted
  spend_all-IsWithin [] l inside h = (
    h,
    add_nothing (usage_in chrono l jti).spent_minor,
    rw (← add_nothing (usage_in chrono l jti).spent_minor) h.within,
  )
  spend_all-IsWithin (c ∷ cs) l inside h = elim (Bool-cases (c.jti == jti)) [
    | inl own ↦
        let (w, plus) = spend-Gains c l ((eq_iff c.jti jti).0 own) (own_inside own inside.0) h in
        let (w', sum, le) = spend_all-IsWithin cs (spend chrono limits_of c l).1 inside.1 w in
        let (sum', le') = regroup _ _ _ _ _ _ plus sum le in rw own (w', sum', le')
    | inr other ↦
        let same = spend_other chrono limits_of c l jti other in
        let (w', sum, le) =
          spend_all-IsWithin cs (spend chrono limits_of c l).1 inside.1 (rw same h) in
        let still =
          ap (λ u. u.spent_minor) same ∙ add_nothing (usage_in chrono l jti).spent_minor in
        let (sum', le') = regroup _ _ _ _ _ _ still sum le in rw other (w', sum', le')
  ]
