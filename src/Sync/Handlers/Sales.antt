-- ===== src/Sync/Handlers/Sales.antt =====
-- The handlers of a sale's header: `_sales_insert`, `_refund_insert`, and the void `_sales_update`.
pub mod Amounts
pub mod Refunds
pub mod Voids
use dukan_pro.Prelude.{
  ℕ, String, Bool, true, false, not, ◌||◌, ◌&&◌, Option, none, some, List, [], ◌∷◌, any,
  if◌then◌else◌, is_some,
}
use dukan_pro.Prelude.Int.{ℤ, pos, ◌+ℤ◌, ◌-ℤ◌, negate, ltb_ℤ, leb_ℤ, eqb_ℤ, min_ℤ}
use dukan_pro.Prelude.Text.{str_eq, str_mem, is_text, opt_eq, is_blank, strip}
use dukan_pro.Prelude.Dict.{Dict, lookup, insert, erase, contains}
use dukan_pro.Errors.{
  or_raise, AppError, Result, Checked, ok, err, crash, ◌>>=◌, ◌>>◌, raise_if, validation, not_found,
  conflict, permission_denied, Code,
}
use dukan_pro.Domain.Identity.{
  Permission, sale_create, price_change, stock_adjust, product_manage, sale_void, sale_discount,
  customer_credit, purchase_cost, debt_write_off, all_permissions, permissions_for, is_active, can,
}
use dukan_pro.Sync.Values.{
  Value, Fields, value_eq, str_at, int_at, str_or, int_or, str_get, int_get, is_bool, pick,
  value_get, opt_str,
}
use dukan_pro.Sync.Types.{
  Ctx, RowSnapshot, ProductRef, CustomerRef, SupplierRef, SaleRef, SaleLineRef, ShiftRef,
  AuditIntent, ApplyPlan, audit, plan,
}
use dukan_pro.Sync.Guards.{
  need, active, guard_insert, guard_update, product, customer, sale, own_sale,
  require_complete_lines, violates, own_shift, after_close, is_given, flag, default_currency,
}
use dukan_pro.Domain.Sales.{assert_discount_valid, assert_sale_not_overpaid}

-- `v.get("change_minor")`, `v.get("tax_minor")` as a test.
unfoldable pub is_non_zero : String → Fields → Result Bool
is_non_zero k v = do n ← int_get k v; ok (elim n [ none ↦ false | some x ↦ not (eqb_ℤ x (pos 0)) ])

-- The amounts of a return: none positive, in arithmetic order, and within the original's total.
unfoldable pub check_refund_amounts : Ctx → Fields → SaleRef → Checked
check_refund_amounts ctx v original = do
  subtotal ← int_at "subtotal_minor" v
  total ← int_at "total_minor" v
  paid ← int_at "paid_minor" v
  change ← is_non_zero "change_minor" v
  tax ← is_non_zero "tax_minor" v
  raise_if (ltb_ℤ (pos 0) subtotal || ltb_ℤ (pos 0) total || ltb_ℤ (pos 0) paid || change || tax)
      (validation Code.sync_field_invalid)
  discount ← int_or "discount_minor" v (pos 0)
  raise_if (not (eqb_ℤ total (subtotal -ℤ discount))) (validation Code.sync_field_invalid)
  raise_if (ltb_ℤ paid total) (validation Code.sync_ref_mismatch)
  raise_if
      (ltb_ℤ (original.total_minor +ℤ ctx.reader.sale_refunds_total original.id) (negate total))
      (validation Code.sync_ref_mismatch)

-- The original of a return: settled and no return itself, with the return's customer and currency.
unfoldable pub check_refund_of : Fields → SaleRef → String → Checked
check_refund_of v original branch = do
  raise_if (not (str_eq branch original.branch_id)) (validation Code.sync_ref_mismatch)
  raise_if (not (str_eq original.status "settled") || is_some original.refund_of)
      (conflict Code.sale_not_refundable)
  customer_id ← str_get "customer_id" v
  raise_if (not (opt_eq customer_id original.customer_id)) (validation Code.sync_ref_mismatch)
  currency ← str_or "currency" v default_currency
  raise_if (not (str_eq currency original.currency)) (conflict Code.sale_currency_mismatch)

-- `(v.get("refund_reason") or "").strip()`
unfoldable pub refund_reason : Fields → Result String
refund_reason v = do
  reason ← str_get "refund_reason" v
  ok (elim reason [ none ↦ "" | some r ↦ strip r ])

-- `_refund_insert`
unfoldable pub refund_insert : Ctx → Fields → Result ApplyPlan
refund_insert ctx v = do
  refund_of ← str_at "refund_of" v
  original ← sale ctx refund_of
  need ctx sale_void original.branch_id
  guard_insert ctx
  reason ← refund_reason v
  raise_if (str_eq reason "") (validation Code.refund_reason_required)
  branch ← str_at "branch_id" v
  check_refund_of v original branch
  check_refund_amounts ctx v original
  shift_id ← str_get "shift_id" v
  late ← after_close ctx shift_id branch
  let after =
      pick v
        ("number" ∷ "customer_id" ∷ "currency" ∷ "total_minor" ∷ "paid_minor" ∷ "refund_of" ∷ [])
  ok (
      plan (erase "refund_reason" v) branch (some branch) (
        audit "sale.refunded" "sale"
          (flag late "after_shift_close" (insert "reason" (Value.str reason) after))))

-- The loop over the four amounts.
unfoldable pub check_not_negative : Fields → List String → Checked
check_not_negative v [] = ok tt
check_not_negative v (field ∷ rest) = do
  n ← int_or field v (pos 0)
  raise_if (ltb_ℤ n (pos 0)) (validation Code.sync_field_invalid)
  check_not_negative v rest

-- The discount and the total of a sale, and what was paid of it.
unfoldable pub check_sale_amounts : Ctx → Fields → String → Checked
check_sale_amounts ctx v branch = do
  discount ← int_or "discount_minor" v (pos 0)
  subtotal ← int_at "subtotal_minor" v
  assert_discount_valid discount subtotal
  if ltb_ℤ (pos 0) discount then need ctx sale_discount branch else ok tt
  total ← int_at "total_minor" v
  tax ← int_or "tax_minor" v (pos 0)
  raise_if (not (eqb_ℤ total (subtotal -ℤ discount +ℤ tax))) (validation Code.sync_field_invalid)
  paid ← int_at "paid_minor" v
  assert_sale_not_overpaid paid total
  customer_id ← str_get "customer_id" v
  elim customer_id [
    | none ↦ raise_if (ltb_ℤ paid total) (conflict Code.sale_underpaid)
    | some id ↦ (do _ ← customer ctx id; ok tt)
  ]

-- `_sales_insert` for a sale that is no return.
unfoldable pub settled_insert : Ctx → Fields → Result ApplyPlan
settled_insert ctx given = do
  check_not_negative given ("discount_minor" ∷ "subtotal_minor" ∷ "total_minor" ∷ "paid_minor" ∷ [])
  let v = erase "refund_reason" given
  branch ← str_at "branch_id" v
  need ctx sale_create branch
  guard_insert ctx
  shift_id ← str_get "shift_id" v
  late ← after_close ctx shift_id branch
  check_sale_amounts ctx v branch
  number ← str_at "number" v
  let after = pick v (
      "number" ∷ "branch_id" ∷ "customer_id" ∷ "currency" ∷ "discount_minor" ∷ "total_minor"
      ∷ "paid_minor" ∷ [])
  ok (
      plan v branch (some branch) (
        audit "sale.settled" "sale" (
          flag late "after_shift_close"
            (flag (ctx.reader.sale_number_taken branch number) "number_taken" after))))

-- `_sales_insert`
unfoldable pub sales_insert : Ctx → Fields → Result ApplyPlan
sales_insert ctx v = if is_given "refund_of" v then refund_insert ctx v else settled_insert ctx v

-- The drawer of a voided sale was counted already, and the sale's cash with it.
abbrev counted_cash : Ctx → SaleRef → Bool
counted_cash ctx s = elim s.shift_id [
  | none ↦ false
  | some id ↦ (elim (ctx.reader.shift id) [
    | none ↦ false
    | some shift ↦
        not (str_eq shift.status "open") && ltb_ℤ (pos 0) (ctx.reader.sale_cash_taken s.id)
  ])
]

abbrev void_noop : SaleRef → ApplyPlan
void_noop s = record (plan [] s.branch_id (some s.branch_id) (audit "sale.voided" "sale" [])) {
  noop = true;
}

abbrev void_plan : SaleRef → Fields → ApplyPlan
void_plan s after =
    record (plan (("status", Value.str "voided") ∷ []) s.branch_id (some s.branch_id)
      (record (audit "sale.voided" "sale" after) {
        before = some (("status", Value.str "settled") ∷ []);
      })) { compare_version = false }

-- The rest of a void, of a sale that was not voided yet.
unfoldable pub void_settled : Ctx → Fields → SaleRef → Result ApplyPlan
void_settled ctx v s = do
  raise_if
      (not (str_eq s.status "settled") || is_some s.refund_of || ctx.reader.sale_has_refunds s.id)
      (conflict Code.sale_not_voidable)
  reason ← str_at "void_reason" v
  ok (
      void_plan s (
        flag (counted_cash ctx s) "after_shift_close"
          (("status", Value.str "voided") ∷ ("reason", Value.str (strip reason)) ∷ [])))

-- `_sales_update`
unfoldable pub sales_update : Ctx → Fields → Result ApplyPlan
sales_update ctx v = do
  s ← sale ctx ctx.op.row_id
  need ctx sale_void s.branch_id
  let voided = void_settled ctx v s
  if str_eq s.status "voided" then ok (void_noop s) else voided
