-- ===== src/Examples/Clock.antt =====
-- A calendar for the examples, in nanoseconds: an instant is printed by its sign and its unary
-- digits.
use Prim.Native.Char.{code}
use stateset_icp_handler.Prelude.{
  ℕ, zero, suc, String, ◌≡◌, refl, ap, Option, none, some, eqb, leb, ltb, if◌then◌else◌,
}
use stateset_icp_handler.Prelude.Int.{ℤ, pos, negsuc, ◌*ℤ◌, pos_part, neg_part}
use stateset_icp_handler.Chrono.{Chrono}

unfoldable pub strokes : ℕ → String
strokes zero = String.[]
strokes (suc n) = String.◌∷◌ "1" (strokes n)

unfoldable pub count : String → ℕ
count String.[] = 0
count (String.◌∷◌ c s) = suc (count s)

count-strokes : (n : ℕ) → count (strokes n) ≡ n
unfolding count strokes
count-strokes zero = refl
count-strokes (suc n) = ap suc (count-strokes n)

unfoldable pub print_instant : ℤ → String
print_instant (pos n) = String.◌∷◌ "+" (strokes n)
print_instant (negsuc n) = String.◌∷◌ "-" (strokes n)

unfoldable pub read_instant : String → Option ℤ
read_instant String.[] = none
read_instant (String.◌∷◌ c s) =
    if eqb (code c) b'+' then some (pos (count s)) else some (negsuc (count s))

pub parse-print : (t : ℤ) → read_instant (print_instant t) ≡ some t
unfolding read_instant print_instant
parse-print (pos n) = ap (λ k. some (pos k)) (count-strokes n)
parse-print (negsuc n) = ap (λ k. some (negsuc k)) (count-strokes n)

-- `d` times `unit`, in the range of `chrono::Duration` (milliseconds in an `i64`).
unfoldable pub span : ℕ → ℕ → ℤ → Option ℤ
span unit bound d =
    if leb (pos_part d) bound
    then (if leb (neg_part d) bound then some (d *ℤ pos unit) else none)
    else none

abbrev pub calendar : Chrono
calendar = record {
  try_hours = span 3600000000000 2562047788015;
  try_days = span 86400000000000 106751991167;
  from_timestamp = span 1000000000 8210266876799;
  to_rfc3339 = print_instant;
  parse_from_rfc3339 = read_instant;
  text_before = λ s t. ltb (count s) (count t);
  parse-to_rfc3339 = parse-print;
}
