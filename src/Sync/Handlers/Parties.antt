-- ===== src/Sync/Handlers/Parties.antt =====
-- The handlers of customers and suppliers.
pub mod Credit
use dukan_pro.Prelude.{
  ℕ, String, Bool, true, false, not, ◌||◌, ◌&&◌, Option, none, some, List, [], ◌∷◌, any,
  if◌then◌else◌, is_some,
}
use dukan_pro.Prelude.Int.{ℤ, pos, ◌+ℤ◌, ◌-ℤ◌, negate, ltb_ℤ, leb_ℤ, eqb_ℤ, min_ℤ}
use dukan_pro.Prelude.Text.{str_eq, str_mem, is_text, opt_eq, is_blank, strip}
use dukan_pro.Prelude.Dict.{Dict, lookup, insert, erase, contains}
use dukan_pro.Errors.{
  or_raise, AppError, Result, Checked, ok, err, crash, ◌>>=◌, ◌>>◌, raise_if, validation, not_found,
  conflict, permission_denied, Code,
}
use dukan_pro.Domain.Identity.{
  Permission, sale_create, price_change, stock_adjust, product_manage, sale_void, sale_discount,
  customer_credit, purchase_cost, debt_write_off, all_permissions, permissions_for, is_active, can,
}
use dukan_pro.Sync.Values.{
  Value, Fields, value_eq, str_at, int_at, str_or, int_or, str_get, int_get, is_bool, pick,
  value_get, opt_str,
}
use dukan_pro.Sync.Types.{
  Ctx, RowSnapshot, ProductRef, CustomerRef, SupplierRef, SaleRef, SaleLineRef, ShiftRef,
  AuditIntent, ApplyPlan, audit, plan,
}
use dukan_pro.Sync.Guards.{
  need, active, guard_insert, guard_update, product, customer, sale, own_sale,
  require_complete_lines, violates, own_shift, after_close, is_given, flag, default_currency,
}
use dukan_pro.Sync.Changes.{changed_of, before_of, is_empty}

-- Credit asked for by someone who may not grant it: the row applies without.
unfoldable pub granting : Bool → Fields → Fields → Fields × Fields
granting allowed v after =
    let limit = value_get "credit_limit_minor" v in
    if not (value_eq limit (Value.int (pos 0))) && not allowed
    then (
      insert "credit_limit_minor" (Value.int (pos 0)) v,
      insert "credit_limit_requested" limit (insert "credit_limit_minor" (Value.int (pos 0)) after),
    )
    else (v, after)

-- `_customers_insert`
unfoldable pub customers_insert : Ctx → Fields → Result ApplyPlan
unfolding granting
customers_insert ctx v = do
  branch ← active ctx
  need ctx sale_create branch
  guard_insert ctx
  let after = pick v ("name" ∷ "credit_limit_minor" ∷ "currency" ∷ [])
  let (values, noted) = granting (can ctx.actor customer_credit branch) v after
  ok (plan values branch none (audit "customer.created" "customer" noted))

-- `_customers_update`
unfoldable pub customers_update : Ctx → Fields → Result ApplyPlan
customers_update ctx v = do
  branch ← active ctx
  need ctx sale_create branch
  current ← guard_update ctx Code.customer_not_found
  raise_if (is_empty v) (validation Code.sync_op_invalid)
  let changed = changed_of v current.values
  if contains "credit_limit_minor" changed || contains "is_active" changed
      then need ctx customer_credit branch
      else ok tt
  let action =
      if contains "credit_limit_minor" changed
      then "customer.credit_limit_changed"
      else "customer.updated"
  ok (
      plan v branch none (record (audit action "customer" changed) {
        before = some (before_of changed current.values);
      }))

-- `_suppliers_insert`
unfoldable pub suppliers_insert : Ctx → Fields → Result ApplyPlan
suppliers_insert ctx v = do
  branch ← active ctx
  need ctx product_manage branch
  guard_insert ctx
  ok (plan v branch none (audit "supplier.created" "supplier" (pick v ("name" ∷ "currency" ∷ []))))
