-- ===== src/Domain/Catalog.antt =====
-- server/dukan/domain/catalog.py: products, units and barcodes. `format_quantity` is in Numbers.
use dukan_pro.Prelude.{ℕ, String, Bool, not, ◌&&◌, Option, List, []}
use dukan_pro.Prelude.{◌∷◌}
use dukan_pro.Prelude.Int.{ℤ, pos, leb_ℤ}
use dukan_pro.Errors.{Result, Checked, ok, err, raise_if, validation, conflict, Code}
use dukan_pro.Domain.Limits.{money_max}
use dukan_pro.Domain.Money.{Money}
use dukan_pro.Domain.Numbers.{
  too_precise, not_a_number, too_large, Parsed, value, problem, parse_scaled,
}

pub record UnitOfMeasure : Type 0 where
  pub id : String
  pub name : String
  pub decimal_places : ℕ

abbrev unit : String → String → ℕ → UnitOfMeasure
unit id name decimal_places = record { id = id; name = name; decimal_places = decimal_places }

unfoldable pub builtin_units : List UnitOfMeasure
builtin_units =
    unit "00000000-0000-7000-8000-000000000001" "piece" 0
    ∷ unit "00000000-0000-7000-8000-000000000002" "kg" 3
    ∷ unit "00000000-0000-7000-8000-000000000003" "litre" 3
    ∷ unit "00000000-0000-7000-8000-000000000004" "dozen" 0
    ∷ unit "00000000-0000-7000-8000-000000000005" "meter" 2
    ∷ []

pub record Product : Type 0 where
  pub id : String
  pub sku : String
  pub name : String
  pub unit_id : String
  pub sell_price : Money
  pub category_id : Option String
  pub cost : Option Money
  pub track_stock : Bool
  pub is_active : Bool
  pub version : ℕ

unfoldable pub assert_unique_sku : Bool → Checked
assert_unique_sku taken = raise_if taken (conflict Code.product_duplicate_sku)

unfoldable pub assert_unique_barcode : Bool → Checked
assert_unique_barcode taken = raise_if taken (conflict Code.barcode_duplicate)

-- The two tests behind `parse_scaled`.
abbrev quantity_of : Parsed → Result ℤ
quantity_of (value v) = ok v
quantity_of (problem too_precise) = err (validation Code.catalog_unit_precision)
quantity_of (problem not_a_number) = err (validation Code.catalog_qty_invalid)
quantity_of (problem too_large) = err (validation Code.catalog_qty_invalid)

unfoldable pub quantity_to_minor : List ℕ → ℕ → Result ℤ
quantity_to_minor text decimal_places = quantity_of (parse_scaled text decimal_places)

unfoldable pub assert_price_valid : ℤ → Checked
assert_price_valid sell_price_minor =
    raise_if (not (leb_ℤ (pos 0) sell_price_minor && leb_ℤ sell_price_minor money_max))
      (validation Code.catalog_price_invalid)
