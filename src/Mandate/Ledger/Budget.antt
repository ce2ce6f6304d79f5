-- ===== src/Mandate/Ledger/Budget.antt =====
-- The budget gate of `MandateLedger` in src/mandate.rs: what is accepted in one window.
use stateset_icp_handler.Prelude.{
  String, ◌≡◌, inl, inr, refl, ap, ◌∙◌, true, false, ◌&&◌, Option, some, arith, if◌then◌else◌,
  unwrap_or, Bool-cases,
}
use stateset_icp_handler.Prelude.Int.{
  ℤ, pos, ◌+ℤ◌, ◌-ℤ◌, ◌≤ℤ◌, leb_ℤ, int_laws, ltb_ℤ_of_ge, leb_ℤ_true, leb_ℤ_false,
}
use stateset_icp_handler.Prelude.Word.{
  IsI64, saturating_add, saturating_sub, saturating_sub_exact, saturating_add_exact, max_i64,
  min_i64,
}
use stateset_icp_handler.Prelude.Keyed.{Keyed, get, string_eq, get-insert_self}
use stateset_icp_handler.Errors.{Result, ok, err, panic}
use stateset_icp_handler.Chrono.{Chrono}
use stateset_icp_handler.Storage.{Attempt}
use stateset_icp_handler.Mandate.Ledger.{
  MandateUsage, MandateSpendLimits, MandateLedger, UsageRow, memory, sqlite, unused, usage_of_query,
  usage_of_row, claim, open_window, current, fits, charged, spend_memory, spend_sqlite,
  spend_backend, row_of_usage,
}

-- The budget holds what has been spent, in a window that began at `start`.
pub record IsWithin (start : ℤ) (limits : MandateSpendLimits) (u : MandateUsage) : Type 0 where
  pub started : u.window_start ≡ some start
  pub nonneg : pos 0 ≤ℤ u.spent_minor
  pub within : u.spent_minor ≤ℤ limits.budget_minor

open_window_inside :
    (start now window : ℤ) (u : MandateUsage)
    → now -ℤ start ≤ℤ window
    → u.window_start ≡ some start
    → open_window now window u ≡ u
unfolding open_window
open_window_inside start now window u inside started =
    rw started (rw (ltb_ℤ_of_ge window (now -ℤ start) inside))

spent-claim : (t : String) (u : MandateUsage) → (claim t u).spent_minor ≡ u.spent_minor
unfolding claim
spent-claim t u = ground arith

window-claim : (t : String) (u : MandateUsage) → (claim t u).window_start ≡ u.window_start
unfolding claim
window-claim t u = ground arith

module _ (limits : MandateSpendLimits) (budget : IsI64 limits.budget_minor) where
  current-IsWithin :
      (start now : ℤ) (tenant_id : String) (u : MandateUsage)
      → now -ℤ start ≤ℤ limits.window
      → IsWithin start limits u
      → IsWithin start limits (current tenant_id now limits u)
        × ((current tenant_id now limits u).spent_minor ≡ u.spent_minor)
  unfolding current
  current-IsWithin start now tenant_id u inside h =
      rw (open_window_inside start now limits.window u inside h.started) (
        record {
          started = window-claim tenant_id u ∙ h.started;
          nonneg = rw (spent-claim tenant_id u) h.nonneg;
          within = rw (spent-claim tenant_id u) h.within;
        },
        spent-claim tenant_id u,
      )

  charged-IsWithin :
      (start amount : ℤ) (u : MandateUsage)
      → pos 0 ≤ℤ amount
      → fits amount limits u ≡ true
      → IsWithin start limits u
      → IsWithin start limits (charged amount u)
        × ((charged amount u).spent_minor ≡ u.spent_minor +ℤ amount)
  unfolding fits charged
  charged-IsWithin start amount u a0 room h = (
    record { started = h.started; nonneg = rw exact (omega int_laws); within = rw exact fit },
    exact,
  )
    where
      room_exact :
          saturating_sub limits.budget_minor u.spent_minor ≡ limits.budget_minor -ℤ u.spent_minor
      room_exact =
          unfold min_i64 max_i64 in
          saturating_sub_exact limits.budget_minor u.spent_minor budget (omega arith)
            (omega arith, omega arith) h.nonneg

      fit : u.spent_minor +ℤ amount ≤ℤ limits.budget_minor
      fit =
          let le =
            rw room_exact at
              (leb_ℤ_true amount (saturating_sub limits.budget_minor u.spent_minor) room) in
          omega int_laws

      exact : saturating_add u.spent_minor amount ≡ u.spent_minor +ℤ amount
      exact = saturating_add_exact u.spent_minor amount limits.budget_minor h.nonneg a0 fit budget

-- The usage that a ledger holds for a mandate.
abbrev pub usage_in : Chrono → MandateLedger → String → MandateUsage
usage_in chrono (memory m) jti = unwrap_or (get jti m) unused
usage_in chrono (sqlite t) jti = usage_of_query chrono (get jti t)

-- What an answer adds to the spend of its mandate.
abbrev pub gain : Result (Unit {0}) → ℤ → ℤ
gain (ok _) amount = if leb_ℤ amount (pos 0) then pos 0 else amount
gain (err _) amount = pos 0
gain panic amount = pos 0

-- After a call with answer `r`, the ledger holds what was spent and what the call gained.
abbrev pub Gains :
    Chrono
    → ℤ
    → MandateSpendLimits
    → String
    → MandateUsage
    → ℤ
    → Result (Unit {0}) × MandateLedger
    → Type 0
Gains chrono start limits jti u amount (r, l) =
    IsWithin start limits (usage_in chrono l jti)
    × ((usage_in chrono l jti).spent_minor ≡ u.spent_minor +ℤ gain r amount)

pub add_nothing : (a : ℤ) → a ≡ a +ℤ pos 0
add_nothing a = omega int_laws

module _ (chrono : Chrono) (limits : MandateSpendLimits) (budget : IsI64 limits.budget_minor)
    (start : ℤ) (jti tenant_id : String) (amount now : ℤ) (positive : leb_ℤ amount (pos 0) ≡ false)
    (inside : now -ℤ start ≤ℤ limits.window) where
  -- The entry that the budget is tested against, and what a charge makes of it.
  refused-Gains :
      (u : MandateUsage)
      → IsWithin start limits u
      → let e = current tenant_id now limits u in
        IsWithin start limits e × (e.spent_minor ≡ u.spent_minor +ℤ pos 0)
  refused-Gains u h =
      let (w, same) = current-IsWithin limits budget start now tenant_id u inside h in
      (w, same ∙ add_nothing u.spent_minor)

  accepted-Gains :
      (u : MandateUsage)
      → IsWithin start limits u
      → fits amount limits (current tenant_id now limits u) ≡ true
      → let e = charged amount (current tenant_id now limits u) in
        IsWithin start limits e × (e.spent_minor ≡ u.spent_minor +ℤ amount)
  accepted-Gains u h room =
      let (w, same) = current-IsWithin limits budget start now tenant_id u inside h in
      let (w', plus) =
        charged-IsWithin limits budget start amount (current tenant_id now limits u)
          (let p = leb_ℤ_false amount (pos 0) positive in omega arith) room w in
      (w', plus ∙ ap (λ s. s +ℤ amount) same)

  spend_memory-Gains :
      (m : Keyed String MandateUsage)
      → IsWithin start limits (unwrap_or (get jti m) unused)
      → Gains chrono start limits jti
          (unwrap_or (get jti m) unused)
          amount
          (spend_memory m jti tenant_id amount now limits)
  unfolding spend_memory
  spend_memory-Gains m h =
      let u : MandateUsage = unwrap_or (get jti m) unused in
      elim (Bool-cases (fits amount limits (current tenant_id now limits u))) [
        | inl room ↦
            rw (room, spend_memory) (rw get-insert_self (rw positive (accepted-Gains u h room)))
        | inr full ↦ rw (full, spend_memory) (rw get-insert_self (refused-Gains u h))
      ]

  row-IsWithin :
      (old : Option UsageRow) (u : MandateUsage)
      → IsWithin start limits u
      → IsWithin start limits (usage_of_query chrono (some (row_of_usage chrono old u)))
        × ((usage_of_query chrono (some (row_of_usage chrono old u))).spent_minor ≡ u.spent_minor)
  unfolding usage_of_query usage_of_row row_of_usage
  row-IsWithin old u h = (
    record {
      started = rw h.started (chrono.parse-to_rfc3339 start);
      nonneg = h.nonneg;
      within = h.within;
    },
    refl,
  )

  spend_sqlite-Gains :
      (a : Attempt) (t : Keyed String UsageRow)
      → IsWithin start limits (usage_of_query chrono (get jti t))
      → Gains chrono start limits jti
          (usage_of_query chrono (get jti t))
          amount
          (spend_sqlite chrono a t jti tenant_id amount now limits)
  unfolding spend_sqlite
  spend_sqlite-Gains a t h =
      let u : MandateUsage = usage_of_query chrono (get jti t) in
      let nothing = add_nothing u.spent_minor in
      elim (Bool-cases (a.pool && a.begin && a.read)) [
        | inr down ↦ rw (down, spend_sqlite) (h, nothing)
        | inl up ↦ elim (Bool-cases (fits amount limits (current tenant_id now limits u))) [
          | inr full ↦ rw (up, spend_sqlite) (rw (full, spend_sqlite) (h, nothing))
          | inl room ↦ elim (Bool-cases (a.write && a.commit)) [
            | inr lost ↦
                rw (up, spend_sqlite)
                  (rw (room, spend_sqlite) (rw (lost, spend_sqlite) (h, nothing)))
            | inl kept ↦
                let (w, plus) = accepted-Gains u h room in
                let (w', same) =
                  row-IsWithin (get jti t) (charged amount (current tenant_id now limits u)) w in
                rw (up, spend_sqlite)
                  (rw (room, spend_sqlite)
                    (rw (kept, spend_sqlite) (rw get-insert_self (rw positive (w', same ∙ plus)))))
          ]
        ]
      ]

  pub spend_backend-Gains :
      (a : Attempt) (l : MandateLedger)
      → IsWithin start limits (usage_in chrono l jti)
      → Gains chrono start limits jti
          (usage_in chrono l jti)
          amount
          (spend_backend chrono a l jti tenant_id amount now limits)
  unfolding spend_backend
  spend_backend-Gains a (memory m) h = elim (Bool-cases a.lock) [
    | inl up ↦ rw (up, spend_backend) (spend_memory-Gains m h)
    | inr down ↦
        rw (down, spend_backend) (h, add_nothing (unwrap_or (get jti m) unused).spent_minor)
  ]
  spend_backend-Gains a (sqlite t) h = spend_sqlite-Gains a t h
