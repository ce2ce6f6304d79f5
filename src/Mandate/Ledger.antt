-- ===== src/Mandate/Ledger.antt =====
-- `MandateLedger` of src/mandate.rs: what has been spent under each mandate, in memory or in the
-- table `mandate_usage`.
pub mod Budget
pub mod Window
pub mod Owners
use stateset_icp_handler.Prelude.{
  String, Bool, false, ◌&&◌, Option, none, some, if◌then◌else◌, is_none_or, unwrap_or,
}
use stateset_icp_handler.Prelude.Int.{ℤ, pos, ◌+ℤ◌, ◌-ℤ◌, ltb_ℤ, leb_ℤ, eqb_ℤ}
use stateset_icp_handler.Prelude.Word.{max_i64, saturating_add, saturating_sub}
use stateset_icp_handler.Prelude.Keyed.{Keyed, get, insert, ◌==◌, string_eq}
use stateset_icp_handler.Errors.{
  Result, ok, err, ◌>>=◌, engine_unavailable, mandate_budget_exceeded,
}
use stateset_icp_handler.Chrono.{Chrono}
use stateset_icp_handler.Storage.{Attempt}

pub record MandateUsage : Type 0 where
  pub spent_minor : ℤ
  pub window_start : Option ℤ
  pub tenant_id : String

-- `MandateUsage::default()`
abbrev pub unused : MandateUsage
unused = record { spent_minor = pos 0; window_start = none; tenant_id = "" }

pub record MandateSpendLimits : Type 0 where
  pub budget_minor : ℤ
  pub per_transaction : Option ℤ
  pub window : ℤ

-- A row of `mandate_usage`.
pub record UsageRow : Type 0 where
  pub spent_minor : ℤ
  pub window_start : Option String
  pub tenant_id : Option String

pub data MandateLedger : Type 0 where
  memory : Keyed String MandateUsage → MandateLedger
  sqlite : Keyed String UsageRow → MandateLedger

-- The usage, if `tenant_id` may see it.
pub visible : String → MandateUsage → Option MandateUsage
visible tenant_id usage =
    if is_none_or usage.window_start (λ _. false)
      && eqb_ℤ usage.spent_minor (pos 0)
      && usage.tenant_id == ""
    then none
    else if usage.tenant_id == tenant_id
    then some usage
    else none

-- The first spender owns the usage.
unfoldable pub claim : String → MandateUsage → MandateUsage
claim tenant_id u = if u.tenant_id == "" then record u { tenant_id = tenant_id } else u

-- A window that has not begun, or has elapsed, begins now with nothing spent.
unfoldable pub open_window : ℤ → ℤ → MandateUsage → MandateUsage
open_window now window u =
    if is_none_or u.window_start (λ start. ltb_ℤ window (now -ℤ start))
    then record u { spent_minor = pos 0; window_start = some now }
    else u

-- `COALESCE(NULLIF(mandate_usage.tenant_id, ''), excluded.tenant_id)`
unfoldable pub coalesce : Option String → String → Option String
coalesce none new = some new
coalesce (some t) new = if t == "" then some new else some t

unfoldable pub coalesce_owner : Option UsageRow → String → Option String
unfolding coalesce
coalesce_owner none new = some new
coalesce_owner (some r) new = coalesce r.tenant_id new

-- `record_spend`: no budget, and the window is left as it is.
pub start_window : ℤ → MandateUsage → MandateUsage
start_window now u = elim u.window_start [
  | none ↦ record u { window_start = some now }
  | some _ ↦ u
]

-- What `try_record_spend_checked` tests before it reads the ledger; `none` means that the call
-- goes on.
unfoldable pub precheck : ℤ → MandateSpendLimits → Option (Result (Unit {0}))
precheck amount limits =
    if leb_ℤ amount (pos 0)
    then some (ok tt)
    else if ltb_ℤ limits.budget_minor (pos 0)
    then some (err mandate_budget_exceeded)
    else if is_none_or limits.per_transaction (λ cap. leb_ℤ amount cap)
    then none
    else some (err mandate_budget_exceeded)

-- The entry that the budget is tested against.
unfoldable pub current : String → ℤ → MandateSpendLimits → MandateUsage → MandateUsage
unfolding claim open_window
current tenant_id now limits u = claim tenant_id (open_window now limits.window u)

unfoldable pub fits : ℤ → MandateSpendLimits → MandateUsage → Bool
fits amount limits u = leb_ℤ amount (saturating_sub limits.budget_minor u.spent_minor)

unfoldable pub charged : ℤ → MandateUsage → MandateUsage
charged amount u = record u { spent_minor = saturating_add u.spent_minor amount }

-- Under the write lock. A refusal keeps the entry's new window and owner.
unfoldable pub spend_memory :
    Keyed String MandateUsage
    → String
    → String
    → ℤ
    → ℤ
    → MandateSpendLimits
    → Result (Unit {0}) × MandateLedger
spend_memory m jti tenant_id amount now limits =
    let entry = current tenant_id now limits (unwrap_or (get jti m) unused) in
    if fits amount limits entry
    then (ok tt, memory (insert jti (charged amount entry) m))
    else (err mandate_budget_exceeded, memory (insert jti entry m))

module _ (chrono : Chrono) where
  -- The usage that a row stands for.
  unfoldable pub usage_of_row : UsageRow → MandateUsage
  usage_of_row r = record {
    spent_minor = r.spent_minor;
    window_start = elim r.window_start [ none ↦ none | some s ↦ chrono.parse_from_rfc3339 s ];
    tenant_id = unwrap_or r.tenant_id "";
  }

  unfoldable pub usage_of_query : Option UsageRow → MandateUsage
  usage_of_query none = unused
  usage_of_query (some r) = usage_of_row r

  unfoldable pub try_usage : Attempt → MandateLedger → String → Result MandateUsage
  unfolding usage_of_query usage_of_row
  try_usage a (memory m) jti =
      if a.lock then ok (unwrap_or (get jti m) unused) else err engine_unavailable
  try_usage a (sqlite t) jti =
      if a.pool && a.read then ok (usage_of_query (get jti t)) else err engine_unavailable

  pub try_usage_for_tenant :
      Attempt → MandateLedger → String → String → Result (Option MandateUsage)
  try_usage_for_tenant a l jti tenant_id = do
    usage ← try_usage a l jti
    ok (visible tenant_id usage)

  upsert_spend : Option UsageRow → String → ℤ → ℤ → UsageRow
  unfolding coalesce_owner
  upsert_spend none tenant_id amount now = record {
    spent_minor = amount;
    window_start = some (chrono.to_rfc3339 now);
    tenant_id = some tenant_id;
  }
  upsert_spend (some r) tenant_id amount now = record {
    spent_minor = let sum = r.spent_minor +ℤ amount in if ltb_ℤ max_i64 sum then max_i64 else sum;
    window_start = r.window_start;
    tenant_id = coalesce_owner (some r) tenant_id;
  }

  unfoldable pub try_record_spend :
      Attempt → MandateLedger → String → String → ℤ → ℤ → Result (Unit {0}) × MandateLedger
  unfolding start_window claim upsert_spend
  try_record_spend a (memory m) jti tenant_id amount now =
      if a.lock
      then (let entry = claim tenant_id (start_window now (unwrap_or (get jti m) unused)) in
          (
            ok tt,
            memory (
                insert jti (record entry { spent_minor = saturating_add entry.spent_minor amount })
                  m),
          ))
      else (err engine_unavailable, memory m)
  try_record_spend a (sqlite t) jti tenant_id amount now =
      if a.pool && a.write
      then (ok tt, sqlite (insert jti (upsert_spend (get jti t) tenant_id amount now) t))
      else (err engine_unavailable, sqlite t)

  unfoldable pub row_of_usage : Option UsageRow → MandateUsage → UsageRow
  unfolding coalesce_owner
  row_of_usage old u = record {
    spent_minor = u.spent_minor;
    window_start = elim u.window_start [ none ↦ none | some w ↦ some (chrono.to_rfc3339 w) ];
    tenant_id = coalesce_owner old u.tenant_id;
  }

  -- In an immediate transaction, which a refusal or a failure rolls back.
  unfoldable pub spend_sqlite :
      Attempt
      → Keyed String UsageRow
      → String
      → String
      → ℤ
      → ℤ
      → MandateSpendLimits
      → Result (Unit {0}) × MandateLedger
  spend_sqlite a t jti tenant_id amount now limits =
      if a.pool && a.begin && a.read
      then (let usage = current tenant_id now limits (usage_of_query (get jti t)) in
          if fits amount limits usage
          then (if a.write && a.commit
              then (ok tt, sqlite (insert jti (row_of_usage (get jti t) (charged amount usage)) t))
              else (err engine_unavailable, sqlite t))
          else (err mandate_budget_exceeded, sqlite t))
      else (err engine_unavailable, sqlite t)

  unfoldable pub spend_backend :
      Attempt
      → MandateLedger
      → String
      → String
      → ℤ
      → ℤ
      → MandateSpendLimits
      → Result (Unit {0}) × MandateLedger
  spend_backend a (memory m) jti tenant_id amount now limits =
      if a.lock
      then spend_memory m jti tenant_id amount now limits
      else (err engine_unavailable, memory m)
  spend_backend a (sqlite t) jti tenant_id amount now limits =
      spend_sqlite a t jti tenant_id amount now limits

  unfoldable pub try_record_spend_checked :
      Attempt
      → MandateLedger
      → String
      → String
      → ℤ
      → ℤ
      → MandateSpendLimits
      → Result (Unit {0}) × MandateLedger
  try_record_spend_checked a l jti tenant_id amount now limits = elim (precheck amount limits) [
    | some r ↦ (r, l)
    | none ↦ spend_backend a l jti tenant_id amount now limits
  ]
