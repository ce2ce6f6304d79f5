-- ===== src/Pricing.antt =====
-- The placeholder pricing of src/service/helpers.rs, with the amounts of src/models.rs. The ids of line
-- items are printed by a parameter.
pub mod Exact
pub mod Discount
use stateset_icp_handler.Prelude.{
  ℕ, suc, ◌+◌, ◌*◌, ◌/◌, String, not, Option, none, some, List, [], ◌∷◌, unwrap_or, map_some,
  if◌then◌else◌,
}
use stateset_icp_handler.Prelude.Int.{ℤ, pos, negsuc, ◌-ℤ◌, ltb_ℤ}
use stateset_icp_handler.Prelude.Word.{saturating_add, saturating_mul}
use stateset_icp_handler.Errors.{Result, ok, panic, ◌>>=◌, ◌>>◌, ensure, invalid_request}

pub record Money : Type 0 where
  pub amount_minor : ℤ
  pub amount_display : Option String
  pub currency : String

-- `Money::new`
abbrev pub money : ℤ → String → Money
money amount_minor currency = record {
  amount_minor = amount_minor;
  amount_display = none;
  currency = currency;
}

pub record RequestItem : Type 0 where
  pub sku : String
  pub quantity : ℤ
  pub unit_price_hint : Option Money

pub record LineItem : Type 0 where
  pub id : String
  pub sku : String
  pub name : String
  pub quantity : ℤ
  pub unit_price : Money
  pub subtotal : Money
  pub tax : Option Money
  pub total : Money

pub record Totals : Type 0 where
  pub subtotal : Option Money
  pub discount : Option Money
  pub shipping : Option Money
  pub tax : Option Money
  pub total : Option Money

-- 8.75%, cut towards zero. The product is an `i128` and the quotient an `i64`, so neither wraps.
unfoldable pub flat_tax_minor : ℤ → ℤ
flat_tax_minor (pos n) = pos (n * 875 / 10000)
flat_tax_minor (negsuc n) = pos 0 -ℤ pos (suc n * 875 / 10000)

-- The hint, or $10.00.
abbrev pub unit_minor : RequestItem → ℤ
unit_minor req = unwrap_or (map_some (λ m. m.amount_minor) req.unit_price_hint) (pos 1000)

abbrev pub line_item : (ℕ → String) → String → ℕ → RequestItem → ℤ → LineItem
line_item line_id currency idx req line_subtotal = record {
  id = line_id idx;
  sku = req.sku;
  name = req.sku;
  quantity = req.quantity;
  unit_price = money (unit_minor req) currency;
  subtotal = money line_subtotal currency;
  tax = none;
  total = money line_subtotal currency;
}

-- The loop over the items: the lines, and the subtotal on top of `subtotal_minor`.
unfoldable pub price_lines :
    (ℕ → String) → String → ℕ → ℤ → List RequestItem → Result (List LineItem × ℤ)
price_lines line_id currency idx subtotal_minor [] = ok ([], subtotal_minor)
price_lines line_id currency idx subtotal_minor (req ∷ items) = do
  ensure (ltb_ℤ (pos 0) req.quantity) invalid_request
  ensure (not (ltb_ℤ (unit_minor req) (pos 0))) invalid_request
  let line_subtotal = saturating_mul (unit_minor req) req.quantity
  (lines, subtotal) ←
      price_lines line_id currency (idx + 1) (saturating_add subtotal_minor line_subtotal) items
  ok (line_item line_id currency idx req line_subtotal ∷ lines, subtotal)

abbrev pub totals_of : String → ℤ → Totals
totals_of currency subtotal_minor = record {
  subtotal = some (money subtotal_minor currency);
  discount = none;
  shipping = none;
  tax = some (money (flat_tax_minor subtotal_minor) currency);
  total = some (money (saturating_add subtotal_minor (flat_tax_minor subtotal_minor)) currency);
}

unfoldable pub price_request_items :
    (ℕ → String) → List RequestItem → String → Result (List LineItem × Totals)
price_request_items line_id items currency = do
  (lines, subtotal_minor) ← price_lines line_id currency 0 (pos 0) items
  ok (lines, totals_of currency subtotal_minor)

-- `i64::clamp(0, subtotal)`, which panics on a negative subtotal
abbrev pub clamp_discount : ℤ → ℤ → Result ℤ
clamp_discount discount subtotal =
    if ltb_ℤ subtotal (pos 0)
    then panic
    else if ltb_ℤ discount (pos 0)
    then ok (pos 0)
    else if ltb_ℤ subtotal discount
    then ok subtotal
    else ok discount

unfoldable pub apply_discount_to_totals : Totals → ℤ → String → Result Totals
apply_discount_to_totals totals discount_minor currency = do
  let subtotal = unwrap_or (map_some (λ m. m.amount_minor) totals.subtotal) (pos 0)
  discount ← clamp_discount discount_minor subtotal
  let discounted = subtotal -ℤ discount
  let tax = flat_tax_minor discounted
  ok (record totals {
    discount = some (money discount currency);
    tax = some (money tax currency);
    total = some (money (saturating_add discounted tax) currency);
  })

unfoldable pub total_amount_minor : Totals → ℤ
total_amount_minor totals = unwrap_or (map_some (λ m. m.amount_minor) totals.total) (pos 0)
