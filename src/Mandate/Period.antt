-- ===== src/Mandate/Period.antt =====
-- `parse_period` of src/mandate.rs: the ISO 8601 durations of a mandate's budget.
pub mod Forms
use stateset_icp_handler.Prelude.{
  ℕ, zero, suc, ◌+◌, ◌-◌, ◌*◌, ◌^◌, ◌%◌, Bool, true, false, ◌&&◌, Option, none, some, List, [], ◌∷◌,
  leb, ltb, eqb, if◌then◌else◌,
}
use stateset_icp_handler.Prelude.Int.{ℤ, pos, negsuc, ◌*ℤ◌}
use stateset_icp_handler.Prelude.Text.{strip_prefix, strip_suffix}
use stateset_icp_handler.Errors.{Result, ok, panic}
use stateset_icp_handler.Chrono.{Chrono}

digits_value : ℕ → List ℕ → Option ℕ
digits_value n [] = some n
digits_value n (c ∷ s) =
    if leb b'0' c && leb c b'9' then digits_value (n * 10 + (c - b'0')) s else none

in_i64 : Bool → ℕ → Option ℤ
in_i64 true n =
    if ltb (2 ^ 63) n then none else elim n [ zero ↦ some (pos 0) | suc m ↦ some (negsuc m) ]
in_i64 false n = if leb (2 ^ 63) n then none else some (pos n)

-- One digit at least, and the value in range.
signed_digits : Bool → List ℕ → Option ℤ
signed_digits negative [] = none
signed_digits negative (c ∷ s) = elim (digits_value 0 (c ∷ s)) [
  | none ↦ none
  | some n ↦ in_i64 negative n
]

-- `str::parse::<i64>`
unfoldable pub parse_i64 : List ℕ → Option ℤ
unfolding signed_digits digits_value in_i64
parse_i64 [] = none
parse_i64 (c ∷ s) =
    if eqb c b'-'
    then signed_digits true s
    else if eqb c b'+'
    then signed_digits false s
    else signed_digits false (c ∷ s)

-- A product of two `i64`, which wraps in the release profile.
unfoldable pub wrapping_i64 : ℤ → ℤ
wrapping_i64 (pos n) =
    let r = n % 2 ^ 64 in if ltb r (2 ^ 63) then pos r else negsuc (2 ^ 64 - r - 1)
wrapping_i64 (negsuc n) =
    let r = n % 2 ^ 64 in if ltb r (2 ^ 63) then negsuc r else pos (2 ^ 64 - r - 1)

-- A constructor of `Duration`, which panics out of range.
abbrev pub spanning : Option ℤ → Result (Option ℤ)
spanning none = panic
spanning (some d) = ok (some d)

module _ (chrono : Chrono) where
  -- `h.parse::<i64>().ok().map(f)`
  abbrev pub parsed : (ℤ → Result (Option ℤ)) → Option ℤ → Result (Option ℤ)
  parsed f none = ok none
  parsed f (some n) = f n

  days : ℤ → Result (Option ℤ)
  days d = spanning (chrono.try_days d)

  -- after `P`
  date_part : List ℕ → Result (Option ℤ)
  date_part inner = elim (strip_suffix b'D' inner) [
    | some d ↦ parsed days (parse_i64 d)
    | none ↦ elim (strip_suffix b'W' inner) [
      | some w ↦ parsed (λ n. days (wrapping_i64 (n *ℤ pos 7))) (parse_i64 w)
      | none ↦ elim (strip_suffix b'M' inner) [
        | some m ↦ parsed (λ n. days (wrapping_i64 (n *ℤ pos 30))) (parse_i64 m)
        | none ↦ ok none
      ]
    ]
  ]

  -- after `PT`
  time_part : List ℕ → Result (Option ℤ)
  time_part rest = elim (strip_suffix b'H' rest) [
    | some h ↦ parsed (λ n. spanning (chrono.try_hours n)) (parse_i64 h)
    | none ↦ ok none
  ]

  duration_part : List ℕ → Result (Option ℤ)
  unfolding date_part time_part
  duration_part inner = elim (strip_prefix b'T' inner) [
    | some rest ↦ time_part rest
    | none ↦ date_part inner
  ]

  unfoldable pub parse_period : Option (List ℕ) → Result (Option ℤ)
  unfolding duration_part days
  parse_period none = ok none
  parse_period (some s) = elim (strip_prefix b'P' s) [
    | none ↦ ok none
    | some inner ↦ duration_part inner
  ]
