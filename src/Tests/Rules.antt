-- ===== src/Tests/Rules.antt =====
-- Rules: who may do what, and which sales, returns and receipts are accepted.
use dukan_pro.Prelude.{true, false, List, [], ◌∷◌, ◌≡◌, ◌≢◌, refl, All, ◌↔◌}
use dukan_pro.Prelude.Int.{ℤ, pos, ◌+ℤ◌, ◌-ℤ◌, ◌*ℤ◌, ◌≤ℤ◌}
use dukan_pro.Prelude.Dict.{Dict}
use dukan_pro.Errors.{ok}
use mathlib.Core.List.{Memᴰ}
use dukan_pro.Domain.Limits.{money_max}
use dukan_pro.Domain.Identity.{
  sale_create, BranchAssignment, active, can, is_active, permissions_for, granted, role_permissions,
  builtin_role_permissions, cashier,
}
use dukan_pro.Domain.Identity.Policy.{Grants, can_iff}
use dukan_pro.Domain.Sales.{
  SaleLine, compute_totals, lines_sum, line_total, line_total_minor, line_total_fits,
  assert_discount_valid, assert_settleable, assert_sale_lines_valid, assert_lines_from,
  assert_line_valid, assert_sale_not_overpaid,
}
use dukan_pro.Domain.Sales.Validity.{IsSellable, assert_sale_lines_valid_iff}
use dukan_pro.Domain.Purchasing.{ReceiptLine, assert_receivable}
use dukan_pro.Tests.World.{cashier_user, b1}

abbrev wanted : Dict ℤ
wanted = ("p1", pos 2) ∷ []

abbrev returnable : Dict ℤ
returnable = ("p1", pos 3) ∷ []

abbrev line : SaleLine
line = record {
  product_id = "p1";
  name = "rice";
  qty_minor = pos 2000;
  decimal_places = 3;
  unit_price_minor = pos 500;
  unit_cost_minor = pos 300;
  currency = "AFN";
  track_stock = true;
}

discount_ok :
    assert_discount_valid (pos 100) (compute_totals (line ∷ []) (pos 100)).subtotal_minor ≡ ok tt
unfolding assert_discount_valid compute_totals lines_sum line_total line_total_minor ◌*ℤ◌ ◌+ℤ◌ ◌-ℤ◌
discount_ok = refl

settleable :
    assert_settleable
      (line ∷ [])
      (compute_totals (line ∷ []) (pos 100)).total_minor
      (pos 900)
      "AFN"
      false
    ≡ ok tt
unfolding assert_settleable assert_sale_lines_valid assert_lines_from assert_line_valid
    line_total_fits compute_totals lines_sum line_total line_total_minor ◌*ℤ◌ ◌+ℤ◌ ◌-ℤ◌
settleable = refl

not_overpaid :
    assert_sale_not_overpaid (pos 900) (compute_totals (line ∷ []) (pos 100)).total_minor ≡ ok tt
unfolding assert_sale_not_overpaid compute_totals lines_sum line_total line_total_minor ◌*ℤ◌ ◌+ℤ◌
    ◌-ℤ◌
not_overpaid = refl

assert_sale_lines_valid_iff_example : (assert_sale_lines_valid (line ∷ []) "AFN" ≡ ok tt) ↔ (
    ((line ∷ []) ≢ []) × All (IsSellable "AFN") (line ∷ []) × (lines_sum (line ∷ []) ≤ℤ money_max))
assert_sale_lines_valid_iff_example = assert_sale_lines_valid_iff (line ∷ []) "AFN"

can_iff_example : (can cashier_user sale_create b1 ≡ true) ↔ (
    (cashier_user.status ≡ active)
    × ((a : BranchAssignment) × Memᴰ a cashier_user.assignments × Grants b1 sale_create a))
can_iff_example = can_iff cashier_user sale_create b1

cashier-can : can cashier_user sale_create b1 ≡ true
unfolding can is_active permissions_for granted role_permissions builtin_role_permissions cashier
cashier-can = refl

abbrev receipt : List ReceiptLine
receipt =
    record { product_id = "p1"; qty_minor = pos 10; unit_cost_minor = pos 60; decimal_places = 0 }
    ∷ []

receivable : All (λ l. assert_receivable l ≡ ok tt) receipt
unfolding assert_receivable line_total_fits ◌*ℤ◌
receivable = (refl, tt)
