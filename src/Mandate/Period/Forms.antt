-- ===== src/Mandate/Period/Forms.antt =====
-- The durations that `parse_period` of src/mandate.rs reads.
use stateset_icp_handler.Prelude.{ℕ, ◌≡◌, refl, none, some, List, [], ◌∷◌, ◌++◌, arith}
use stateset_icp_handler.Prelude.Int.{ℤ, pos, ◌*ℤ◌}
use stateset_icp_handler.Prelude.Text.{strip_prefix, strip_suffix-append, strip_suffix-append_ne}
use stateset_icp_handler.Chrono.{Chrono}
use stateset_icp_handler.Mandate.Period.{
  parse_i64, wrapping_i64, spanning, time_part, duration_part, date_part, parse_period,
}

-- A text that reads as a number does not begin with `T`.
not_time : (n s : List ℕ) (v : ℤ) → parse_i64 n ≡ some v → strip_prefix b'T' (n ++ s) ≡ none
unfolding parse_i64
not_time [] s v h = cc
not_time (c ∷ n) s v h = ground arith

module _ (chrono : Chrono) (n : List ℕ) (v : ℤ) (reads : parse_i64 n ≡ some v) where
  hours_form :
      parse_period chrono (some (b'P' ∷ b'T' ∷ (n ++ b'H' ∷ []))) ≡ spanning (chrono.try_hours v)
  unfolding parse_period
  hours_form = rw (strip_suffix-append, time_part) (rw reads)

  days_form : parse_period chrono (some (b'P' ∷ (n ++ b'D' ∷ []))) ≡ spanning (chrono.try_days v)
  unfolding parse_period
  days_form =
      rw (not_time n (b'D' ∷ []) v reads, duration_part)
        (rw (strip_suffix-append, date_part) (rw reads))

  weeks_form :
      parse_period chrono (some (b'P' ∷ (n ++ b'W' ∷ [])))
      ≡ spanning (chrono.try_days (wrapping_i64 (v *ℤ pos 7)))
  unfolding parse_period
  weeks_form =
      rw (not_time n (b'W' ∷ []) v reads, duration_part)
        (rw (strip_suffix-append_ne b'D' b'W' n refl, date_part)
          (rw (strip_suffix-append, date_part) (rw reads)))

  months_form :
      parse_period chrono (some (b'P' ∷ (n ++ b'M' ∷ [])))
      ≡ spanning (chrono.try_days (wrapping_i64 (v *ℤ pos 30)))
  unfolding parse_period
  months_form =
      rw (not_time n (b'M' ∷ []) v reads, duration_part)
        (rw (strip_suffix-append_ne b'D' b'M' n refl, date_part)
          (rw (strip_suffix-append_ne b'W' b'M' n refl, date_part)
            (rw (strip_suffix-append, date_part) (rw reads))))

-- For a text `n` that reads as the `i64` value `v`: `PT<n>H` is `v` hours, `P<n>D` is `v` days,
-- `P<n>W` is `v * 7` days and `P<n>M` is `v * 30` days (products wrapping at 64 bits), each a panic
-- where the duration is out of chrono's range.
pub period_forms :
    (chrono : Chrono) (n : List ℕ) (v : ℤ)
    → parse_i64 n ≡ some v
    → (parse_period chrono (some (b'P' ∷ b'T' ∷ (n ++ b'H' ∷ []))) ≡ spanning (chrono.try_hours v))
      × (parse_period chrono (some (b'P' ∷ (n ++ b'D' ∷ []))) ≡ spanning (chrono.try_days v))
      × (parse_period chrono (some (b'P' ∷ (n ++ b'W' ∷ [])))
          ≡ spanning (chrono.try_days (wrapping_i64 (v *ℤ pos 7))))
      × (parse_period chrono (some (b'P' ∷ (n ++ b'M' ∷ [])))
          ≡ spanning (chrono.try_days (wrapping_i64 (v *ℤ pos 30))))
period_forms chrono n v reads = (
  hours_form chrono n v reads,
  days_form chrono n v reads,
  weeks_form chrono n v reads,
  months_form chrono n v reads,
)
