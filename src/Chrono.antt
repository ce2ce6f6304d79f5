-- ===== src/Chrono.antt =====
-- The `chrono` crate, a parameter of the model. An instant and a duration are integers, in
-- nanoseconds; an instant counts from the Unix epoch.
use stateset_icp_handler.Prelude.{◌≤◌, ◌<◌, String, ◌≡◌, Bool, false, Option, none, some}
use stateset_icp_handler.Prelude.Keyed.{◌==◌, string_eq}
use stateset_icp_handler.Prelude.Int.{ℤ, pos_part, neg_part, ltb_ℤ}

pub record Chrono : Type 0 where
  -- `Duration::hours` and `Duration::days`, which panic where these have no value
  pub try_hours : ℤ → Option ℤ
  pub try_days : ℤ → Option ℤ
  -- `DateTime::from_timestamp(s, 0)`
  pub from_timestamp : ℤ → Option ℤ
  pub to_rfc3339 : ℤ → String
  pub parse_from_rfc3339 : String → Option ℤ
  -- the order of SQLite on printed instants
  pub text_before : String → String → Bool
  -- a printed instant reads back: the instants of the model are those of the years 0 to 9999, which
  -- are the ones that `chrono` reads in this form
  pub parse-to_rfc3339 : (t : ℤ) → parse_from_rfc3339 (to_rfc3339 t) ≡ some t

-- The years 0 to 9999, which RFC 3339 prints with four digits.
abbrev pub IsPrintable : ℤ → Type 0
IsPrintable t = (neg_part t ≤ 62167219200000000000) × (pos_part t < 253402300800000000000)

abbrev pub IsPrintableIfAny : Option ℤ → Type 0
IsPrintableIfAny none = Unit
IsPrintableIfAny (some t) = IsPrintable t

-- Printed instants of those years stand in the order of time, and none is empty.
pub record IsOrdered (chrono : Chrono) : Type 0 where
  pub order :
      (a b : ℤ)
      → IsPrintable a
      → IsPrintable b
      → chrono.text_before (chrono.to_rfc3339 a) (chrono.to_rfc3339 b) ≡ ltb_ℤ a b
  pub not_empty : (t : ℤ) → (chrono.to_rfc3339 t == "") ≡ false
