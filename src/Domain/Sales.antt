-- ===== src/Domain/Sales.antt =====
-- server/dukan/domain/sales.py: a line's money, the totals, and the rules of a sale, a payment, a
-- discount and a return. Mappings are dictionaries in insertion order.
pub mod Rounding
pub mod Returns
pub mod Validity
use dukan_pro.Prelude.{
  ℕ, ◌*◌, ◌^◌, ◌+◌, ◌/◌, String, Bool, true, false, not, ◌&&◌, ◌||◌, Option, none, some, List, [],
  ◌∷◌, ltb, leb, if◌then◌else◌, is_some,
}
use dukan_pro.Prelude.Int.{ℤ, pos, ◌+ℤ◌, ◌-ℤ◌, ◌*ℤ◌, negate, abs, ltb_ℤ, leb_ℤ, eqb_ℤ}
use dukan_pro.Prelude.Text.{str_eq, is_blank}
use dukan_pro.Prelude.Dict.{Dict, lookup}
use dukan_pro.Errors.{Checked, ok, err, ◌>>◌, raise_if, validation, conflict}
use dukan_pro.Errors.{Code}
use dukan_pro.Domain.Limits.{money_max, money_max_ℕ}

pub data PaymentMethod : Type 0 where
  cash card transfer credit : PaymentMethod

abbrev pub scale : ℕ → ℕ
scale decimal_places = 10 ^ decimal_places

-- `-m if negative else m`
abbrev pub signed_as : Bool → ℕ → ℤ
signed_as negative m = if negative then negate (pos m) else pos m

unfoldable pub line_total_minor : ℤ → ℤ → ℕ → ℤ
line_total_minor unit_price_minor qty_minor decimal_places =
    let product = unit_price_minor *ℤ qty_minor in
    let rounded = (abs product + scale decimal_places / 2) / scale decimal_places in
    signed_as (ltb_ℤ product (pos 0)) rounded

unfoldable pub line_total_fits : ℤ → ℤ → ℕ → Bool
line_total_fits unit_price_minor qty_minor decimal_places =
    leb (abs (unit_price_minor *ℤ qty_minor)) (money_max_ℕ * scale decimal_places)

pub record SaleLine : Type 0 where
  pub product_id : String
  pub name : String
  pub qty_minor : ℤ
  pub decimal_places : ℕ
  pub unit_price_minor : ℤ
  pub unit_cost_minor : ℤ
  pub currency : String
  pub track_stock : Bool

unfoldable pub line_total : SaleLine → ℤ
line_total l = line_total_minor l.unit_price_minor l.qty_minor l.decimal_places

pub record SaleTotals : Type 0 where
  pub subtotal_minor : ℤ
  pub tax_minor : ℤ
  pub total_minor : ℤ

-- `sum(l.line_total for l in lines)`
unfoldable pub lines_sum : List SaleLine → ℤ
lines_sum [] = pos 0
lines_sum (l ∷ ls) = line_total l +ℤ lines_sum ls

unfoldable pub compute_totals : List SaleLine → ℤ → SaleTotals
compute_totals lines discount_minor =
    let subtotal = lines_sum lines in
    let tax = pos 0 in
    record {
      subtotal_minor = subtotal;
      tax_minor = tax;
      total_minor = subtotal -ℤ discount_minor +ℤ tax;
    }

-- The body of the loop, but for the running total.
unfoldable pub assert_line_valid : String → SaleLine → Checked
assert_line_valid currency l = do
  raise_if (leb_ℤ l.qty_minor (pos 0)) (validation Code.sale_line_invalid_qty)
  raise_if (ltb_ℤ l.unit_price_minor (pos 0)) (validation Code.sale_line_invalid_price)
  raise_if (not (str_eq l.currency currency)) (conflict Code.sale_currency_mismatch)
  raise_if (not (line_total_fits l.unit_price_minor l.qty_minor l.decimal_places))
      (validation Code.sale_total_too_large)

-- The loop, from a running total, and the test after it.
unfoldable pub assert_lines_from : String → ℤ → List SaleLine → Checked
assert_lines_from currency total [] =
    raise_if (ltb_ℤ money_max total) (validation Code.sale_total_too_large)
assert_lines_from currency total (l ∷ ls) =
    assert_line_valid currency l >> assert_lines_from currency (total +ℤ line_total l) ls

unfoldable pub assert_sale_lines_valid : List SaleLine → String → Checked
assert_sale_lines_valid [] currency = err (validation Code.sale_empty)
assert_sale_lines_valid (l ∷ ls) currency = assert_lines_from currency (pos 0) (l ∷ ls)

unfoldable pub assert_settleable : List SaleLine → ℤ → ℤ → String → Bool → Checked
assert_settleable lines total_minor paid_minor currency allow_credit = do
  assert_sale_lines_valid lines currency
  raise_if (ltb_ℤ paid_minor (pos 0)) (validation Code.sale_payment_invalid)
  raise_if (not allow_credit && ltb_ℤ paid_minor total_minor) (conflict Code.sale_underpaid)

-- `_TENDERS`, the methods that are no credit, by their texts.
unfoldable pub is_tender : String → Bool
is_tender method = str_eq method "cash" || (str_eq method "card" || str_eq method "transfer")

unfoldable pub bad_tendered : String → ℤ → Option ℤ → Bool
bad_tendered method amount_minor none = false
bad_tendered method amount_minor (some tendered_minor) =
    not (str_eq method "cash") || ltb_ℤ tendered_minor amount_minor

unfoldable pub assert_payment_valid : String → ℤ → Option ℤ → Checked
unfolding is_tender bad_tendered
assert_payment_valid method amount_minor tendered_minor = do
  raise_if (not (is_tender method)) (validation Code.sale_payment_invalid)
  raise_if (leb_ℤ amount_minor (pos 0)) (validation Code.sale_payment_invalid)
  raise_if (bad_tendered method amount_minor tendered_minor) (validation Code.sale_payment_invalid)

unfoldable pub assert_sale_not_overpaid : ℤ → ℤ → Checked
assert_sale_not_overpaid paid_minor total_minor =
    raise_if (ltb_ℤ total_minor paid_minor) (conflict Code.sale_overpaid)

unfoldable pub assert_discount_valid : ℤ → ℤ → Checked
assert_discount_valid discount_minor subtotal_minor =
    raise_if (not (leb_ℤ (pos 0) discount_minor && leb_ℤ discount_minor subtotal_minor))
      (validation Code.sale_discount_invalid)

unfoldable pub assert_shift_cash_valid : ℤ → Checked
assert_shift_cash_valid amount_minor =
    raise_if (ltb_ℤ amount_minor (pos 0)) (validation Code.shift_cash_invalid)

-- The denominator is positive.
unfoldable pub div_round_half_up : ℤ → ℕ → ℤ
div_round_half_up numerator denominator =
    signed_as (ltb_ℤ numerator (pos 0)) ((2 * abs numerator + denominator) / (2 * denominator))

unfoldable pub returned_value_minor : ℤ → ℤ → ℤ → ℤ
returned_value_minor line_total_minor sold_qty_minor returned_qty_minor =
    if leb_ℤ sold_qty_minor (pos 0)
    then pos 0
    else div_round_half_up (line_total_minor *ℤ returned_qty_minor) (abs sold_qty_minor)

unfoldable pub refund_total_minor : ℤ → ℤ → ℤ → ℤ
refund_total_minor gross_minor sale_subtotal_minor sale_discount_minor =
    if leb_ℤ sale_subtotal_minor (pos 0) || eqb_ℤ sale_discount_minor (pos 0)
    then gross_minor
    else gross_minor
      -ℤ div_round_half_up (sale_discount_minor *ℤ gross_minor) (abs sale_subtotal_minor)

-- `returnable.get(product_id, 0)`
abbrev pub left_of : Dict ℤ → String → ℤ
left_of returnable product_id = elim (lookup product_id returnable) [
  | none ↦ pos 0
  | some left ↦ left
]

-- The loop over `wanted.items()`.
unfoldable pub assert_wanted : Dict ℤ → Dict ℤ → Checked
assert_wanted returnable [] = ok tt
assert_wanted returnable ((product_id, qty) ∷ wanted) =
    raise_if (leb_ℤ qty (pos 0) || ltb_ℤ (left_of returnable product_id) qty)
      (validation Code.refund_qty_invalid)
    >> assert_wanted returnable wanted

unfoldable pub assert_refund_valid : String → Dict ℤ → Dict ℤ → Checked
assert_refund_valid reason [] returnable =
    raise_if (is_blank reason) (validation Code.refund_reason_required)
    >> err (validation Code.refund_empty)
assert_refund_valid reason (w ∷ wanted) returnable =
    raise_if (is_blank reason) (validation Code.refund_reason_required)
    >> assert_wanted returnable (w ∷ wanted)
