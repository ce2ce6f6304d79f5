-- ===== src/Prelude/Word.antt =====
-- The bounds of `i64` and its saturating operations.
use Prim.Native.Nat.{◌-◌, ◌^◌}
use mathlib.Core.Path.{◌≡◌}
use native.Mathlib.Omega.{arith}
use stateset_icp_handler.Prelude.Tests.{if◌then◌else◌}
use stateset_icp_handler.Prelude.Int.{
  ℤ, pos, negsuc, ◌+ℤ◌, ◌-ℤ◌, ◌*ℤ◌, ◌≤ℤ◌, ltb_ℤ, int_laws, ltb_ℤ_of_ge,
}

unfoldable pub max_i64 : ℤ
max_i64 = pos (2 ^ 63 - 1)

unfoldable pub min_i64 : ℤ
min_i64 = negsuc (2 ^ 63 - 1)

abbrev pub IsI64 : ℤ → Type 0
IsI64 a = (min_i64 ≤ℤ a) × (a ≤ℤ max_i64)

unfoldable pub clamp_i64 : ℤ → ℤ
clamp_i64 a = if ltb_ℤ max_i64 a then max_i64 else if ltb_ℤ a min_i64 then min_i64 else a

unfoldable pub saturating_add : ℤ → ℤ → ℤ
saturating_add a b = clamp_i64 (a +ℤ b)

unfoldable pub saturating_sub : ℤ → ℤ → ℤ
saturating_sub a b = clamp_i64 (a -ℤ b)

unfoldable pub saturating_mul : ℤ → ℤ → ℤ
saturating_mul a b = clamp_i64 (a *ℤ b)

pub clamp_i64_exact : (a : ℤ) → IsI64 a → clamp_i64 a ≡ a
unfolding clamp_i64
clamp_i64_exact a h = rw (ltb_ℤ_of_ge max_i64 a h.1) (rw (ltb_ℤ_of_ge a min_i64 h.0))

pub clamp_i64-IsI64 : (a : ℤ) → IsI64 (clamp_i64 a)
unfolding clamp_i64 max_i64 min_i64
clamp_i64-IsI64 a = ground arith

-- What is left of a budget that has not been passed is an `i64`, so nothing saturates.
pub saturating_sub_exact :
    (budget spent : ℤ)
    → IsI64 budget
    → pos 0 ≤ℤ budget
    → IsI64 spent
    → pos 0 ≤ℤ spent
    → saturating_sub budget spent ≡ budget -ℤ spent
unfolding saturating_sub max_i64 min_i64
saturating_sub_exact budget spent b b0 s s0 =
    clamp_i64_exact (budget -ℤ spent) (omega int_laws, omega int_laws)

pub saturating_add_exact :
    (a b c : ℤ) → pos 0 ≤ℤ a → pos 0 ≤ℤ b → a +ℤ b ≤ℤ c → IsI64 c → saturating_add a b ≡ a +ℤ b
unfolding saturating_add max_i64 min_i64
saturating_add_exact a b c a0 b0 le cI = clamp_i64_exact (a +ℤ b) (omega int_laws, omega int_laws)
