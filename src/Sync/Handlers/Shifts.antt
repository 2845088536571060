-- ===== src/Sync/Handlers/Shifts.antt =====
-- The handlers of shifts.
pub mod Closing
use dukan_pro.Prelude.{
  ℕ, String, Bool, true, false, not, ◌||◌, ◌&&◌, Option, none, some, List, [], ◌∷◌, any,
  if◌then◌else◌, is_some,
}
use dukan_pro.Prelude.Int.{ℤ, pos, ◌+ℤ◌, ◌-ℤ◌, negate, ltb_ℤ, leb_ℤ, eqb_ℤ, min_ℤ}
use dukan_pro.Prelude.Text.{str_eq, str_mem, is_text, opt_eq, is_blank, strip}
use dukan_pro.Prelude.Dict.{Dict, lookup, insert, erase, contains}
use dukan_pro.Errors.{
  or_raise, AppError, Result, Checked, ok, err, crash, ◌>>=◌, ◌>>◌, raise_if, validation, not_found,
  conflict, permission_denied, Code,
}
use dukan_pro.Domain.Identity.{
  Permission, sale_create, price_change, stock_adjust, product_manage, sale_void, sale_discount,
  customer_credit, purchase_cost, debt_write_off, all_permissions, permissions_for, is_active, can,
}
use dukan_pro.Sync.Values.{
  Value, Fields, value_eq, str_at, int_at, str_or, int_or, str_get, int_get, is_bool, pick,
  value_get, opt_str,
}
use dukan_pro.Sync.Types.{
  Ctx, RowSnapshot, ProductRef, CustomerRef, SupplierRef, SaleRef, SaleLineRef, ShiftRef,
  AuditIntent, ApplyPlan, audit, plan,
}
use dukan_pro.Sync.Guards.{
  need, active, guard_insert, guard_update, product, customer, sale, own_sale,
  require_complete_lines, violates, own_shift, after_close, is_given, flag, default_currency,
}
use dukan_pro.Domain.Sales.{assert_shift_cash_valid}
use dukan_pro.Sync.EventTime.{Clock, event_time}

-- `if others: after = {**after, "another_open_shift": others[0]}`
unfoldable pub another_open : List String → Fields → Fields
another_open [] after = after
another_open (other ∷ _) after = insert "another_open_shift" (Value.str other) after

module _ (fromisoformat : Clock) where
  -- `_shifts_insert`
  unfoldable pub shifts_insert : Ctx → Fields → Result ApplyPlan
  shifts_insert ctx v = do
    branch ← str_at "branch_id" v
    need ctx sale_create branch
    guard_insert ctx
    user_id ← str_at "user_id" v
    raise_if (not (str_eq user_id ctx.actor.id)) (validation Code.sync_ref_mismatch)
    opening_float ← int_or "opening_float_minor" v (pos 0)
    assert_shift_cash_valid opening_float
    let opened_at = event_time fromisoformat ctx.op.created_at ctx.now
    let values = insert "opened_at" (Value.time opened_at) (insert "status" (Value.str "open") v)
    ok (
        plan values branch (some branch) (
          audit "shift.opened" "shift" (
            another_open (ctx.reader.open_shifts ctx.actor.id branch)
              (pick v ("branch_id" ∷ "opening_float_minor" ∷ [])))))

  abbrev pub closing : Ctx → ℤ → ℤ → Fields
  closing ctx counted expected =
      ("status", Value.str "closed")
      ∷ ("counted_cash_minor", Value.int counted)
      ∷ ("expected_cash_minor", Value.int expected)
      ∷ ("variance_minor", Value.int (counted -ℤ expected))
      ∷ ("closed_at", Value.time (event_time fromisoformat ctx.op.created_at ctx.now))
      ∷ []

  -- `_shifts_update`
  unfoldable pub shifts_update : Ctx → Fields → Result ApplyPlan
  shifts_update ctx v = do
    current ← guard_update ctx Code.shift_not_found
    branch ← str_at "branch_id" current.values
    user_id ← str_at "user_id" current.values
    need ctx (if str_eq user_id ctx.actor.id then sale_create else sale_void) branch
    stored ← str_at "status" current.values
    raise_if (not (str_eq stored "open")) (conflict Code.shift_already_closed)
    status ← str_get "status" v
    raise_if (not (is_text status "closed") || not (contains "counted_cash_minor" v))
        (validation Code.sync_op_invalid)
    counted ← int_at "counted_cash_minor" v
    assert_shift_cash_valid counted
    let expected = ctx.reader.shift_expected_cash ctx.op.row_id
    ok (
        plan (closing ctx counted expected) branch (some branch) (
          audit "shift.closed" "shift" (
            ("counted", Value.int counted)
            ∷ ("expected", Value.int expected)
            ∷ ("variance", Value.int (counted -ℤ expected))
            ∷ [])))
