-- ===== src/Examples/Charges.antt =====
-- The theorems on prices (src/service/helpers.rs) at concrete inputs.
use stateset_icp_handler.Prelude.{ℕ, ◌≤◌, String, ◌≡◌, none, some, List, [], ◌∷◌, arith}
use stateset_icp_handler.Prelude.Int.{pos, negsuc, ◌≤ℤ◌}
use stateset_icp_handler.Errors.{ok}
use stateset_icp_handler.Pricing.{
  RequestItem, LineItem, Totals, money, price_request_items, totals_of, apply_discount_to_totals,
  total_amount_minor,
}
use stateset_icp_handler.Pricing.Exact.{ArePriced, IsTotalled, cost, price_exact}
use stateset_icp_handler.Pricing.Discount.{discount_in_bounds}

abbrev basket : List RequestItem
basket =
    record { sku = "book"; quantity = pos 3; unit_price_hint = some (money (pos 1250) "USD") }
    ∷ record { sku = "pen"; quantity = pos 1; unit_price_hint = none }
    ∷ []

abbrev item_id : ℕ → String
item_id n = "li"

price_exact_example :
    (lines : List LineItem) × (totals : Totals) × (price_request_items item_id basket "USD"
      ≡ ok (lines, totals))
    × ArePriced "USD" basket lines
    × IsTotalled "USD" (cost basket) totals
price_exact_example =
    price_exact item_id basket "USD" (omega arith, omega arith, (omega arith, omega arith, tt))

discount_in_bounds_example :
    (totals : Totals) × (d : ℕ) × (apply_discount_to_totals
        (totals_of "USD" (pos 10000))
        (negsuc 4)
        "USD"
      ≡ ok totals)
    × (totals.discount ≡ some (money (pos d) "USD"))
    × (d ≤ 10000)
    × (pos 0 ≤ℤ total_amount_minor totals)
    × (total_amount_minor totals ≤ℤ total_amount_minor (totals_of "USD" (pos 10000)))
discount_in_bounds_example = discount_in_bounds 10000 "USD" (negsuc 4)
