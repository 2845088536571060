-- ===== src/Sync/Handlers/Lines.antt =====
-- The handlers of a sale's lines: `_sale_lines_insert` and `_refund_line`.
pub mod Totals
pub mod Returns
use dukan_pro.Prelude.{
  ℕ, ◌*◌, String, Bool, true, false, not, ◌||◌, ◌&&◌, Option, none, some, List, [], ◌∷◌, any,
  if◌then◌else◌, is_some,
}
use dukan_pro.Prelude.Int.{ℤ, pos, ◌+ℤ◌, ◌-ℤ◌, negate, ltb_ℤ, leb_ℤ, eqb_ℤ, min_ℤ}
use dukan_pro.Prelude.Text.{str_eq, str_mem, is_text, opt_eq, is_blank, strip}
use dukan_pro.Prelude.Dict.{Dict, lookup, insert, erase, contains}
use dukan_pro.Errors.{
  or_raise, AppError, Result, Checked, ok, err, crash, ◌>>=◌, ◌>>◌, raise_if, validation, not_found,
  conflict, permission_denied, Code,
}
use dukan_pro.Domain.Identity.{
  Permission, sale_create, price_change, stock_adjust, product_manage, sale_void, sale_discount,
  customer_credit, purchase_cost, debt_write_off, all_permissions, permissions_for, is_active, can,
}
use dukan_pro.Sync.Values.{
  Value, Fields, value_eq, str_at, int_at, str_or, int_or, str_get, int_get, is_bool, pick,
  value_get, opt_str,
}
use dukan_pro.Sync.Types.{
  Ctx, RowSnapshot, ProductRef, CustomerRef, SupplierRef, SaleRef, SaleLineRef, ShiftRef,
  AuditIntent, ApplyPlan, audit, plan,
}
use dukan_pro.Sync.Guards.{
  need, active, guard_insert, guard_update, product, customer, sale, own_sale,
  require_complete_lines, violates, own_shift, after_close, is_given, flag, default_currency,
}
use dukan_pro.Domain.Sales.{line_total_minor, returned_value_minor}
use dukan_pro.Access.{require_any_permission}

-- `PRICE_DRIFT_WINDOW`, in microseconds
abbrev pub price_drift_window : ℤ
price_drift_window = pos (45 * (24 * 3600 * 1000000))

abbrev pub discounters : List Permission
discounters = sale_discount ∷ price_change ∷ []

-- `sold is None or sold.qty_minor <= 0` raises.
abbrev pub sold_of : Option SaleLineRef → Result SaleLineRef
sold_of none = err (validation Code.sync_ref_mismatch)
sold_of (some l) =
    if leb_ℤ l.qty_minor (pos 0) then err (validation Code.sync_ref_mismatch) else ok l

-- The quantity and the money of a returned line, against what the sale sold.
unfoldable pub check_refund_line : Ctx → Fields → SaleRef → String → ℤ → Result SaleLineRef
check_refund_line ctx v refund original_id qty = do
  product_id ← str_at "product_id" v
  sold ← sold_of (ctx.reader.sale_line_ref original_id product_id)
  let left = sold.qty_minor -ℤ ctx.reader.refunded_qty original_id product_id
  raise_if (ltb_ℤ left (negate qty)) (conflict Code.refund_qty_invalid)
  let worth = returned_value_minor sold.value_minor sold.qty_minor (negate qty)
  total ← int_at "line_total_minor" v
  price ← int_at "unit_price_minor" v
  raise_if (not (eqb_ℤ total (negate worth)) || not (eqb_ℤ price sold.unit_price_minor))
      (validation Code.sync_field_invalid)
  currency ← str_or "currency" v default_currency
  raise_if (not (str_eq currency refund.currency)) (conflict Code.sale_currency_mismatch)
  raise_if (ltb_ℤ (ctx.reader.sale_lines_total refund.id +ℤ total) refund.subtotal_minor)
      (validation Code.sync_ref_mismatch)
  ok sold

-- `_refund_line`
unfoldable pub refund_line : Ctx → Fields → SaleRef → Result ApplyPlan
refund_line ctx v refund = do
  need ctx sale_void refund.branch_id
  guard_insert ctx
  original_id ← or_raise refund.refund_of (validation Code.sync_ref_mismatch)
  qty ← int_at "qty_minor" v
  raise_if (leb_ℤ (pos 0) qty) (validation Code.sync_field_invalid)
  sold ← check_refund_line ctx v refund original_id qty
  let values =
      insert "unit_cost_minor" (Value.int sold.unit_cost_minor)
        (insert "decimal_places" (Value.int (pos sold.decimal_places)) v)
  ok (
      plan values refund.branch_id (some refund.branch_id) (
        audit "sale.line_returned" "sale_line"
          (pick v ("sale_id" ∷ "product_id" ∷ "qty_minor" ∷ "line_total_minor" ∷ []))))

-- The money of a line: the unit's decimal places, the rounded product, the sale's currency, and
-- room below the sale's subtotal. The result is the line's price.
unfoldable pub check_line_money : Ctx → Fields → SaleRef → ℕ → ℤ → ℤ → Result ℤ
check_line_money ctx v s places qty total = do
  claimed ← int_or "decimal_places" v (pos places)
  raise_if (not (eqb_ℤ claimed (pos places))) (validation Code.sync_field_invalid)
  price ← int_at "unit_price_minor" v
  raise_if (not (eqb_ℤ total (line_total_minor price qty places)))
      (validation Code.sync_field_invalid)
  currency ← str_or "currency" v default_currency
  raise_if (not (str_eq currency s.currency)) (conflict Code.sale_currency_mismatch)
  raise_if (ltb_ℤ s.subtotal_minor (ctx.reader.sale_lines_total s.id +ℤ total))
      (validation Code.sync_ref_mismatch)
  ok price

-- A price that the product had within the window before the sale.
unfoldable pub had_price : Ctx → SaleRef → ProductRef → ℤ → Bool
had_price ctx s p price =
    any (λ old. eqb_ℤ price old)
      (ctx.reader.recent_sell_prices p.id (min_ℤ ctx.now s.occurred_at -ℤ price_drift_window))

-- A price below the catalog's: someone who may discount, or an older price.
unfoldable pub check_price : Ctx → SaleRef → ProductRef → ℤ → Checked
check_price ctx s p price =
    if ltb_ℤ price p.sell_price_minor && not (any (λ q. can ctx.actor q s.branch_id) discounters)
    then (if had_price ctx s p price
        then ok tt
        else require_any_permission ctx.actor discounters s.branch_id)
    else ok tt

abbrev cost_of : Option ℤ → ℤ
cost_of none = pos 0
cost_of (some c) = c

abbrev pub line_plan : Fields → SaleRef → ProductRef → ℕ → Bool → ApplyPlan
line_plan v s p places below =
    plan
      (insert "unit_cost_minor" (Value.int (cost_of p.cost_minor))
        (insert "decimal_places" (Value.int (pos places)) v))
      s.branch_id (some s.branch_id)
      (audit "sale.line_added" "sale_line" (
        flag below "below_catalog" (
          insert "catalog_price_minor" (Value.int p.sell_price_minor) (
            pick v (
              "sale_id" ∷ "product_id" ∷ "qty_minor" ∷ "unit_price_minor" ∷ "line_total_minor"
              ∷ [])))))

-- The rest of `_sale_lines_insert`, of a sale that is no return.
unfoldable pub sold_line : Ctx → Fields → SaleRef → Result ApplyPlan
sold_line ctx v s = do
  qty ← int_at "qty_minor" v
  total ← int_at "line_total_minor" v
  raise_if (leb_ℤ qty (pos 0) || ltb_ℤ total (pos 0)) (validation Code.sync_field_invalid)
  guard_insert ctx
  product_id ← str_at "product_id" v
  p ← product ctx product_id true
  places ← or_raise p.decimal_places (not_found Code.unit_not_found)
  price ← check_line_money ctx v s places qty total
  check_price ctx s p price
  ok (line_plan v s p places (ltb_ℤ price p.sell_price_minor))

-- `_sale_lines_insert`
unfoldable pub sale_lines_insert : Ctx → Fields → Result ApplyPlan
sale_lines_insert ctx v = do
  sale_id ← str_at "sale_id" v
  s ← own_sale ctx sale_id
  if is_some s.refund_of then refund_line ctx v s else sold_line ctx v s
