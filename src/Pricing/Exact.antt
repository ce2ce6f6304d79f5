-- ===== src/Pricing/Exact.antt =====
-- The subtotal of a priced request (src/service/helpers.rs) against the exact sum.
use stateset_icp_handler.Prelude.{
  ℕ, min, ◌+◌, ◌*◌, ◌/◌, ◌^◌, ◌-◌, ◌≤◌, ◌<◌, String, ◌≡◌, refl, ap, ◌∙◌, sym, not, List, [], ◌∷◌,
  none, some, inl, inr, Option-cases, arith,
}
use stateset_icp_handler.Prelude.Int.{
  ℤ, pos, negsuc, ◌+ℤ◌, ◌*ℤ◌, ◌≤ℤ◌, ◌<ℤ◌, ltb_ℤ, int_laws, ltb_ℤ_of_lt, ltb_ℤ_of_ge, ltb_ℤ_true,
  ltb_ℤ_false, +ℤ_assoc, eq_of_parts,
}
use stateset_icp_handler.Prelude.Word.{max_i64, min_i64, clamp_i64, saturating_add, saturating_mul}
use stateset_icp_handler.Errors.{ok, invalid_request, ensure-bind, >>=-eq-ok}
use stateset_icp_handler.Pricing.{
  RequestItem, LineItem, Totals, unit_minor, line_item, price_lines, totals_of, price_request_items,
  money, flat_tax_minor,
}

-- What the items cost, without a bound.
unfoldable pub cost : List RequestItem → ℤ
cost [] = pos 0
cost (req ∷ items) = unit_minor req *ℤ req.quantity +ℤ cost items

-- Every quantity is positive and no price is negative.
abbrev pub AllPriceable : List RequestItem → Type 0
AllPriceable [] = Unit
AllPriceable (req ∷ items) =
    (pos 0 <ℤ req.quantity) × (pos 0 ≤ℤ unit_minor req) × AllPriceable items

-- The hint of an item, or $10.00.
abbrev pub asked : RequestItem → ℤ
asked req = elim req.unit_price_hint [ none ↦ pos 1000 | some m ↦ m.amount_minor ]

-- One line for each item, in their order: at the price asked, its subtotal and total the exact product
-- capped at `i64::MAX`.
abbrev pub ArePriced : String → List RequestItem → List LineItem → Type 0
ArePriced currency [] [] = Unit
ArePriced currency [] (line ∷ lines) = ⊥
ArePriced currency (req ∷ items) [] = ⊥
ArePriced currency (req ∷ items) (line ∷ lines) =
    (line.sku ≡ req.sku)
    × (line.quantity ≡ req.quantity)
    × (line.unit_price ≡ money (asked req) currency)
    × (line.subtotal ≡ money (clamp_i64 (asked req *ℤ req.quantity)) currency)
    × (line.total ≡ money (clamp_i64 (asked req *ℤ req.quantity)) currency)
    × ArePriced currency items lines

-- The totals on an exact sum: 8.75% of the capped sum, cut to a whole minor unit, on top of it.
pub record IsTotalled (currency : String) (exact : ℤ) (totals : Totals) : Type 0 where
  pub subtotal_minor : ℕ
  pub tax_minor : ℕ
  pub capped : clamp_i64 exact ≡ pos subtotal_minor
  pub tax_low : tax_minor * 10000 ≤ subtotal_minor * 875
  pub tax_high : subtotal_minor * 875 < (tax_minor + 1) * 10000
  pub subtotal : totals.subtotal ≡ some (money (pos subtotal_minor) currency)
  pub tax : totals.tax ≡ some (money (pos tax_minor) currency)
  pub total : totals.total ≡ some (money (clamp_i64 (pos (subtotal_minor + tax_minor))) currency)
  pub undiscounted : (totals.discount ≡ none) × (totals.shipping ≡ none)

unit_asked : (req : RequestItem) → unit_minor req ≡ asked req
unit_asked req = elim (Option-cases req.unit_price_hint) [
  | inl e ↦ ground arith
  | inr (m, e) ↦ ground arith
]

mul_nonneg : (a b : ℤ) → pos 0 ≤ℤ a → pos 0 ≤ℤ b → pos 0 ≤ℤ a *ℤ b
unfolding ◌*ℤ◌
mul_nonneg (pos a) (pos b) ha hb = ground arith
mul_nonneg (pos a) (negsuc b) ha hb = absurd (omega arith)
mul_nonneg (negsuc a) b ha hb = absurd (omega arith)

cost_nonneg : (items : List RequestItem) → AllPriceable items → pos 0 ≤ℤ cost items
unfolding cost
cost_nonneg [] all = omega arith
cost_nonneg (req ∷ items) (many, price, all) =
    let line = mul_nonneg (unit_minor req) req.quantity price (omega arith) in
    let rest = cost_nonneg items all in omega int_laws

clamp_pos : (n : ℕ) → clamp_i64 (pos n) ≡ pos (min n (2 ^ 63 - 1))
unfolding clamp_i64 max_i64 min_i64
clamp_pos n = ground arith

add_pos : (a b : ℕ) → pos a +ℤ pos b ≡ pos (a + b)
unfolding ◌+ℤ◌
add_pos a b = ground arith

totals_exact :
    (currency : String) (exact : ℤ)
    → pos 0 ≤ℤ exact
    → IsTotalled currency exact (totals_of currency (clamp_i64 exact))
unfolding flat_tax_minor saturating_add
totals_exact currency (negsuc n) h = absurd (omega arith)
totals_exact currency (pos k) h =
    let n = min k (2 ^ 63 - 1) in
    let t = n * 875 / 10000 in
    rw (clamp_pos k) (record {
      subtotal_minor = n;
      tax_minor = t;
      capped = clamp_pos k;
      tax_low = omega arith;
      tax_high = omega arith;
      subtotal = refl;
      tax = refl;
      total = ap (λ x. some (money (clamp_i64 x) currency)) (add_pos n t);
      undiscounted = (refl, refl);
    })

-- A running sum that is capped at each step is the capped sum.
capped_twice :
    (a b : ℤ)
    → pos 0 ≤ℤ a
    → pos 0 ≤ℤ b
    → saturating_add (clamp_i64 a) (clamp_i64 b) ≡ clamp_i64 (a +ℤ b)
unfolding saturating_add
capped_twice (pos a) (pos b) ha hb = rw (clamp_pos a) (
    rw (clamp_pos b) (
      rw (add_pos (min a (2 ^ 63 - 1)) (min b (2 ^ 63 - 1))) (
        rw (add_pos a b) (
          rw (clamp_pos (a + b))
            (rw (clamp_pos (min a (2 ^ 63 - 1) + min b (2 ^ 63 - 1))) (ap pos (omega arith)))))))
capped_twice (pos a) (negsuc b) ha hb = absurd (omega arith)
capped_twice (negsuc a) b ha hb = absurd (omega arith)

lines_exact :
    (line_id : ℕ → String) (currency : String) (idx : ℕ) (so_far : ℤ) (items : List RequestItem)
    → pos 0 ≤ℤ so_far
    → AllPriceable items
    → (lines : List LineItem) × (price_lines line_id currency idx (clamp_i64 so_far) items
        ≡ ok (lines, clamp_i64 (so_far +ℤ cost items)))
      × ArePriced currency items lines
unfolding price_lines cost saturating_mul
lines_exact line_id currency idx so_far [] nonneg all =
    ([], ap (λ s. ok ([], clamp_i64 s)) (eq_of_parts so_far (so_far +ℤ pos 0) (omega int_laws)), tt)
lines_exact line_id currency idx so_far (req ∷ items) nonneg (many, price, all) =
    let line = unit_minor req *ℤ req.quantity in
    let line_nonneg : pos 0 ≤ℤ line =
      mul_nonneg (unit_minor req) req.quantity price (omega arith) in
    let (lines, rest, priced) =
      lines_exact line_id currency (idx + 1) (so_far +ℤ line) items (omega int_laws) all in
    let charged = saturating_mul (unit_minor req) req.quantity in
    let capped : saturating_add (clamp_i64 so_far) charged ≡ clamp_i64 (so_far +ℤ line) =
      capped_twice so_far line nonneg line_nonneg in
    let first = line_item line_id currency idx req charged in
    (
      first ∷ lines,
      rw (ltb_ℤ_of_lt (pos 0) req.quantity many) (
          rw (ltb_ℤ_of_ge (unit_minor req) (pos 0) price) (
            rw capped (
              rw rest
                (ap (λ s. ok (first ∷ lines, clamp_i64 s)) (+ℤ_assoc so_far line (cost items)))))),
      (
        refl,
        refl,
        ap (λ u. money u currency) (unit_asked req),
        ap (λ u. money (clamp_i64 (u *ℤ req.quantity)) currency) (unit_asked req),
        ap (λ u. money (clamp_i64 (u *ℤ req.quantity)) currency) (unit_asked req),
        priced,
      ),
    )

-- A request whose quantities are positive and whose prices are not negative is priced, line by line and
-- in their sum, at what its items cost exactly, each amount capped at `i64::MAX` and none of them
-- wrapping, and its total adds a tax of 8.75%, cut to a whole minor unit.
pub price_exact :
    (line_id : ℕ → String) (items : List RequestItem) (currency : String)
    → AllPriceable items
    → (lines : List LineItem) × (totals : Totals) × (price_request_items line_id items currency
        ≡ ok (lines, totals))
      × ArePriced currency items lines
      × IsTotalled currency (cost items) totals
unfolding price_request_items
price_exact line_id items currency all =
    let (lines, done, priced) = lines_exact line_id currency 0 (pos 0) items (omega arith) all in
    let none_yet : clamp_i64 (pos 0) ≡ pos 0 = clamp_pos 0 in
    let sum : pos 0 +ℤ cost items ≡ cost items =
      eq_of_parts (pos 0 +ℤ cost items) (cost items) (omega int_laws) in
    let done' : price_lines line_id currency 0 (pos 0) items ≡ ok (lines, clamp_i64 (cost items)) =
      ap (λ s. price_lines line_id currency 0 s items) (sym none_yet)
      ∙ (done ∙ ap (λ s. ok (lines, clamp_i64 s)) sum) in
    (
      lines,
      totals_of currency (clamp_i64 (cost items)),
      rw done' refl,
      priced,
      totals_exact currency (cost items) (cost_nonneg items all),
    )

lines_priceable :
    (line_id : ℕ → String) (currency : String) (idx : ℕ) (so_far : ℤ) (items : List RequestItem)
    (priced : List LineItem × ℤ)
    → price_lines line_id currency idx so_far items ≡ ok priced
    → AllPriceable items
unfolding price_lines
lines_priceable line_id currency idx so_far [] priced h = tt
lines_priceable line_id currency idx so_far (req ∷ items) priced h =
    let (many, h1) = ensure-bind (ltb_ℤ (pos 0) req.quantity) invalid_request _ h in
    let (price, h2) = ensure-bind (not (ltb_ℤ (unit_minor req) (pos 0))) invalid_request _ h1 in
    let (rest, h3, _) =
      >>=-eq-ok
        (price_lines line_id currency (idx + 1)
          (saturating_add so_far (saturating_mul (unit_minor req) req.quantity)) items)
        _ h2 in
    (
      ltb_ℤ_true (pos 0) req.quantity many,
      ltb_ℤ_false (unit_minor req) (pos 0) (ground arith),
      lines_priceable line_id currency (idx + 1) _ items rest h3,
    )

-- Nothing else is priced: a request with a quantity of 0 or less, or with a negative price, is refused.
priced-AllPriceable :
    (line_id : ℕ → String) (items : List RequestItem) (currency : String)
    (priced : List LineItem × Totals)
    → price_request_items line_id items currency ≡ ok priced
    → AllPriceable items
unfolding price_request_items
priced-AllPriceable line_id items currency priced h =
    let (lines, h1, _) = >>=-eq-ok (price_lines line_id currency 0 (pos 0) items) _ h in
    lines_priceable line_id currency 0 (pos 0) items lines h1
