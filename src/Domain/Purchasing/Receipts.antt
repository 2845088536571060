-- ===== src/Domain/Purchasing/Receipts.antt =====
-- What a receipt of accepted lines bills.
use dukan_pro.Prelude.{◌≡◌, List, [], ◌∷◌, All, arith}
use dukan_pro.Prelude.Int.{pos, ◌≤ℤ◌, ◌<ℤ◌, int_laws, *ℤ_nonneg}
use dukan_pro.Errors.{ok, err, validation, Code}
use dukan_pro.Domain.Limits.{money_max}
use dukan_pro.Domain.Purchasing.{
  ReceiptLine, line_cost, assert_receivable, costs_sum, receipt_total,
}
use dukan_pro.Domain.Sales.Rounding.{line_total_minor-IsRounded}

costs_sum_nonneg :
    (lines : List ReceiptLine)
    → All (λ l. assert_receivable l ≡ ok tt) lines
    → pos 0 ≤ℤ costs_sum lines
unfolding costs_sum line_cost assert_receivable
costs_sum_nonneg [] h = omega arith
costs_sum_nonneg (l ∷ ls) h =
    let qty : pos 0 ≤ℤ l.qty_minor = ground arith in
    let cost : pos 0 ≤ℤ l.unit_cost_minor = ground arith in
    omega (
      int_laws,
      costs_sum_nonneg ls h.1,
      (line_total_minor-IsRounded l.unit_cost_minor l.qty_minor l.decimal_places).1
          (*ℤ_nonneg l.unit_cost_minor l.qty_minor cost qty),
    )

-- A receipt of accepted lines bills the sum of their costs, from 0 to MONEY_MAX, or is refused
-- because the sum is larger.
pub receipt_total-bounds :
    (lines : List ReceiptLine)
    → All (λ l. assert_receivable l ≡ ok tt) lines
    → (pos 0 ≤ℤ costs_sum lines)
      × (costs_sum lines ≤ℤ money_max → receipt_total lines ≡ ok (costs_sum lines))
      × (money_max <ℤ costs_sum lines
          → receipt_total lines ≡ err (validation Code.grn_total_too_large))
unfolding receipt_total
receipt_total-bounds lines h = (costs_sum_nonneg lines h, (λ le. ground arith), λ gt. ground arith)
