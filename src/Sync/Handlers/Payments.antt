-- ===== src/Sync/Handlers/Payments.antt =====
-- The handlers of payments: `_payments_insert` and `_refund_payment`.
pub mod Bounds
pub mod History
use dukan_pro.Prelude.{
  ℕ, String, Bool, true, false, not, ◌||◌, ◌&&◌, Option, none, some, List, [], ◌∷◌, any,
  if◌then◌else◌, is_some,
}
use dukan_pro.Prelude.Int.{ℤ, pos, ◌+ℤ◌, ◌-ℤ◌, negate, ltb_ℤ, leb_ℤ, eqb_ℤ, min_ℤ}
use dukan_pro.Prelude.Text.{str_eq, str_mem, is_text, opt_eq, is_blank, strip}
use dukan_pro.Prelude.Dict.{Dict, lookup, insert, erase, contains}
use dukan_pro.Errors.{
  or_raise, AppError, Result, Checked, ok, err, crash, ◌>>=◌, ◌>>◌, raise_if, validation, not_found,
  conflict, permission_denied, Code,
}
use dukan_pro.Domain.Identity.{
  Permission, sale_create, price_change, stock_adjust, product_manage, sale_void, sale_discount,
  customer_credit, purchase_cost, debt_write_off, all_permissions, permissions_for, is_active, can,
}
use dukan_pro.Sync.Values.{
  Value, Fields, value_eq, str_at, int_at, str_or, int_or, str_get, int_get, is_bool, pick,
  value_get, opt_str,
}
use dukan_pro.Sync.Types.{
  Ctx, RowSnapshot, ProductRef, CustomerRef, SupplierRef, SaleRef, SaleLineRef, ShiftRef,
  AuditIntent, ApplyPlan, audit, plan,
}
use dukan_pro.Sync.Guards.{
  need, active, guard_insert, guard_update, product, customer, sale, own_sale,
  require_complete_lines, violates, own_shift, after_close, is_given, flag, default_currency,
}
use dukan_pro.Domain.Sales.{assert_payment_valid}

abbrev payment_plan : Fields → SaleRef → String → ApplyPlan
payment_plan v s action =
    plan v s.branch_id (some s.branch_id)
      (audit action "payment" (pick v ("sale_id" ∷ "method" ∷ "amount_minor" ∷ "currency" ∷ [])))

-- `_refund_payment`
unfoldable pub refund_payment : Ctx → Fields → SaleRef → Result ApplyPlan
refund_payment ctx v refund = do
  need ctx sale_void refund.branch_id
  guard_insert ctx
  amount ← int_at "amount_minor" v
  method ← str_at "method" v
  raise_if (leb_ℤ (pos 0) amount) (validation Code.sync_field_invalid)
  raise_if (str_eq method "credit") (validation Code.refund_method_invalid)
  raise_if (is_given "tendered_minor" v || is_given "change_minor" v)
      (validation Code.sync_field_not_allowed)
  raise_if (str_eq method "cash" && not (is_some refund.shift_id)) (conflict Code.shift_not_open)
  currency ← str_or "currency" v default_currency
  raise_if (not (str_eq currency refund.currency)) (conflict Code.sale_currency_mismatch)
  require_complete_lines ctx refund
  raise_if (ltb_ℤ (ctx.reader.sale_payments_total refund.id +ℤ amount) refund.paid_minor)
      (validation Code.sync_ref_mismatch)
  ok (payment_plan v refund "payment.refunded")

-- The rest of `_payments_insert`, of a sale that is no return.
unfoldable pub sale_payment : Ctx → Fields → SaleRef → Result ApplyPlan
sale_payment ctx v s = do
  amount ← int_at "amount_minor" v
  raise_if (leb_ℤ amount (pos 0)) (validation Code.sync_field_invalid)
  guard_insert ctx
  currency ← str_or "currency" v default_currency
  raise_if (not (str_eq currency s.currency)) (conflict Code.sale_currency_mismatch)
  method ← str_at "method" v
  tendered ← int_get "tendered_minor" v
  assert_payment_valid method amount tendered
  require_complete_lines ctx s
  raise_if
      (ltb_ℤ (min_ℤ s.paid_minor s.total_minor) (ctx.reader.sale_payments_total s.id +ℤ amount))
      (validation Code.sync_ref_mismatch)
  ok (payment_plan v s "payment.recorded")

-- `_payments_insert`
unfoldable pub payments_insert : Ctx → Fields → Result ApplyPlan
payments_insert ctx v = do
  sale_id ← str_at "sale_id" v
  s ← own_sale ctx sale_id
  if is_some s.refund_of then refund_payment ctx v s else sale_payment ctx v s
