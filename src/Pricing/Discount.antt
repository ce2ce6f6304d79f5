-- ===== src/Pricing/Discount.antt =====
-- Discounts on priced totals (src/service/helpers.rs).
use stateset_icp_handler.Prelude.{
  ℕ, ◌+◌, ◌*◌, ◌/◌, ◌^◌, ◌-◌, ◌≤◌, min, String, ◌≡◌, refl, inl, inr, some, arith, Bool-cases,
}
use stateset_icp_handler.Prelude.Int.{ℤ, pos, negsuc, ◌+ℤ◌, ◌-ℤ◌, ◌≤ℤ◌, ltb_ℤ}
use stateset_icp_handler.Prelude.Word.{max_i64, min_i64, clamp_i64, saturating_add}
use stateset_icp_handler.Errors.{ok}
use stateset_icp_handler.Pricing.{
  Totals, money, flat_tax_minor, totals_of, clamp_discount, apply_discount_to_totals,
  total_amount_minor,
}

-- What is to be paid on a subtotal: the two parts, capped.
charge : ℕ → ℕ
charge n = min (n + n * 875 / 10000) (2 ^ 63 - 1)

charge_mono : (m n : ℕ) → m ≤ n → charge m ≤ charge n
unfolding charge
charge_mono m n h = omega arith

total_is : (n : ℕ) → saturating_add (pos n) (flat_tax_minor (pos n)) ≡ pos (charge n)
unfolding saturating_add clamp_i64 max_i64 min_i64 ◌+ℤ◌ flat_tax_minor charge
total_is n = ground arith

sub_pos : (m n : ℕ) → m ≤ n → pos n -ℤ pos m ≡ pos (n - m)
unfolding ◌-ℤ◌
sub_pos m n h = ground arith

-- The discount that counts is between nothing and the subtotal.
clamped :
    (discount : ℤ) (n : ℕ) → (m : ℕ) × (m ≤ n) × (clamp_discount discount (pos n) ≡ ok (pos m))
clamped (pos m) n = elim (Bool-cases (ltb_ℤ (pos n) (pos m))) [
  | inl more ↦ (n, omega arith, ground arith)
  | inr less ↦ (m, ground arith, ground arith)
]
clamped (negsuc m) n = (0, omega arith, ground arith)

-- Any discount on totals priced at a subtotal of 0 or more, a negative one too, leaves between nothing
-- and the price before it to be paid, and a discount that is recorded as between nothing and the
-- subtotal.
pub discount_in_bounds :
    (n : ℕ) (currency : String) (discount_minor : ℤ)
    → (totals : Totals) × (d : ℕ) × (apply_discount_to_totals
          (totals_of currency (pos n))
          discount_minor
          currency
        ≡ ok totals)
      × (totals.discount ≡ some (money (pos d) currency))
      × (d ≤ n)
      × (pos 0 ≤ℤ total_amount_minor totals)
      × (total_amount_minor totals ≤ℤ total_amount_minor (totals_of currency (pos n)))
unfolding apply_discount_to_totals total_amount_minor
discount_in_bounds n currency discount_minor =
    let (d, le, is_d) = clamped discount_minor n in
    let before = total_is n in
    let after = total_is (n - d) in
    let mono = charge_mono (n - d) n (omega arith) in
    let t = totals_of currency (pos n) in
    let totals = record t {
      discount = some (money (pos d) currency);
      tax = some (money (flat_tax_minor (pos (n - d))) currency);
      total = some (money (pos (charge (n - d))) currency);
    } in
    (
      totals,
      d,
      rw is_d (rw (sub_pos d n le) (rw after refl)),
      refl,
      le,
      omega arith,
      rw before (omega arith),
    )
