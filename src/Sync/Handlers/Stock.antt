-- ===== src/Sync/Handlers/Stock.antt =====
-- The handlers of stock movements: `_stock_insert` and `_stock_returned`.
pub mod Bounds
use dukan_pro.Prelude.{
  ℕ, String, Bool, true, false, not, ◌||◌, ◌&&◌, Option, none, some, List, [], ◌∷◌, any,
  if◌then◌else◌, is_some,
}
use dukan_pro.Prelude.Int.{ℤ, pos, ◌+ℤ◌, ◌-ℤ◌, negate, ltb_ℤ, leb_ℤ, eqb_ℤ, min_ℤ}
use dukan_pro.Prelude.Text.{str_eq, str_mem, is_text, opt_eq, is_blank, strip}
use dukan_pro.Prelude.Dict.{Dict, lookup, insert, erase, contains}
use dukan_pro.Errors.{
  or_raise, AppError, Result, Checked, ok, err, crash, ◌>>=◌, ◌>>◌, raise_if, validation, not_found,
  conflict, permission_denied, Code,
}
use dukan_pro.Domain.Identity.{
  Permission, sale_create, price_change, stock_adjust, product_manage, sale_void, sale_discount,
  customer_credit, purchase_cost, debt_write_off, all_permissions, permissions_for, is_active, can,
}
use dukan_pro.Sync.Values.{
  Value, Fields, value_eq, str_at, int_at, str_or, int_or, str_get, int_get, is_bool, pick,
  value_get, opt_str,
}
use dukan_pro.Sync.Types.{
  Ctx, RowSnapshot, ProductRef, CustomerRef, SupplierRef, SaleRef, SaleLineRef, ShiftRef,
  AuditIntent, ApplyPlan, audit, plan,
}
use dukan_pro.Sync.Guards.{
  need, active, guard_insert, guard_update, product, customer, sale, own_sale,
  require_complete_lines, violates, own_shift, after_close, is_given, flag, default_currency,
}
use dukan_pro.Domain.Inventory.{
  StockReason, purchase, adjustment, returned, stock_reason, adjust_stock,
}

-- What a void took from stock: as much as the sale's movements did.
unfoldable pub took_by_void : Ctx → SaleRef → String → Result ℤ
took_by_void ctx s product_id = do
  raise_if (not (str_eq s.status "voided")) (validation Code.sync_ref_mismatch)
  ok (ctx.reader.sale_stock_out_qty s.id product_id)

-- What a return brings back: the quantity of its lines, of goods that the sale took from stock.
unfoldable pub took_by_refund : Ctx → SaleRef → String → Result ℤ
took_by_refund ctx s product_id = elim s.refund_of [
  | none ↦ err (validation Code.sync_ref_mismatch)
  | some original ↦ (do
    raise_if (leb_ℤ (ctx.reader.sale_stock_out_qty original product_id) (pos 0))
        (validation Code.sync_ref_mismatch)
    ok (negate (ctx.reader.sale_line_qty s.id product_id)))
]

unfoldable pub took_by : Ctx → String → SaleRef → String → Result ℤ
took_by ctx ref_type s product_id =
    if str_eq ref_type "void"
    then took_by_void ctx s product_id
    else took_by_refund ctx s product_id

-- `ref_type not in ("void", "refund") or ref_id is None` raises; the two texts otherwise.
unfoldable pub return_ref : Fields → Result (String × String)
return_ref v = do
  ref_type ← str_get "ref_type" v
  ref_id ← str_get "ref_id" v
  kind ← or_raise ref_type (validation Code.sync_field_required)
  raise_if (not (str_mem kind ("void" ∷ "refund" ∷ []))) (validation Code.sync_field_required)
  id ← or_raise ref_id (validation Code.sync_field_required)
  ok (kind, id)

-- `_stock_returned`
unfoldable pub stock_returned : Ctx → Fields → Result ApplyPlan
stock_returned ctx v = do
  (ref_type, ref_id) ← return_ref v
  qty ← int_at "qty_delta" v
  raise_if (leb_ℤ qty (pos 0)) (validation Code.stock_invalid_qty)
  s ← sale ctx ref_id
  need ctx sale_void s.branch_id
  guard_insert ctx
  branch ← str_at "branch_id" v
  raise_if (not (str_eq branch s.branch_id)) (validation Code.sync_ref_mismatch)
  product_id ← str_at "product_id" v
  took ← took_by ctx ref_type s product_id
  raise_if (ltb_ℤ took (ctx.reader.returned_stock_qty ref_type s.id product_id +ℤ qty))
      (validation Code.sync_ref_mismatch)
  ok (
      plan v branch (some branch) (
        audit "stock.returned" "stock_movement" (
          pick v
            ("product_id" ∷ "branch_id" ∷ "qty_delta" ∷ "reason" ∷ "ref_type" ∷ "ref_id" ∷ []))))

-- The branch of `_stock_insert` for a sale's movement.
unfoldable pub check_sale_movement : Ctx → Fields → String → ℤ → Checked
check_sale_movement ctx v branch qty = do
  product_id ← str_at "product_id" v
  p ← product ctx product_id true
  raise_if (not p.track_stock) (validation Code.product_not_stock_tracked)
  raise_if (leb_ℤ (pos 0) qty) (validation Code.stock_invalid_qty)
  ref_type ← str_get "ref_type" v
  raise_if (not (is_text ref_type "sale")) (validation Code.sync_field_required)
  ref_id ← str_get "ref_id" v
  id ← or_raise ref_id (validation Code.sync_field_required)
  s ← own_sale ctx id
  raise_if (not (str_eq s.branch_id branch)) (validation Code.sync_ref_mismatch)
  let sold = ctx.reader.sale_line_qty s.id product_id
  let moved = ctx.reader.sale_stock_out_qty s.id product_id
  if ltb_ℤ sold (moved -ℤ qty)
      then (require_complete_lines ctx s >> err (validation Code.sync_ref_mismatch))
      else ok tt

-- The quantity of a movement that is no sale: an adjustment is not 0, a purchase is positive.
unfoldable pub check_own_qty : Ctx → StockReason → String → String → ℤ → Checked
check_own_qty ctx adjustment product_id branch qty = do
  _ ← adjust_stock ctx.op.row_id product_id branch qty ctx.now
  ok tt
check_own_qty ctx _ product_id branch qty =
    raise_if (leb_ℤ qty (pos 0)) (validation Code.stock_invalid_qty)

-- The other branch: a movement that names no sale.
unfoldable pub check_own_movement : Ctx → Fields → StockReason → String → ℤ → Checked
check_own_movement ctx v reason branch qty = do
  raise_if (is_given "ref_type" v || is_given "ref_id" v) (validation Code.sync_field_not_allowed)
  product_id ← str_at "product_id" v
  p ← product ctx product_id false
  check_own_qty ctx reason p.id branch qty
  raise_if (not p.track_stock) (validation Code.product_not_stock_tracked)

abbrev moved_plan : Fields → String → String → ApplyPlan
moved_plan v branch action = plan v branch (some branch) (
    audit action "stock_movement"
      (pick v ("product_id" ∷ "branch_id" ∷ "qty_delta" ∷ "reason" ∷ "ref_id" ∷ [])))

unfoldable pub stock_sold : Ctx → Fields → Result ApplyPlan
stock_sold ctx v = do
  branch ← str_at "branch_id" v
  need ctx sale_create branch
  guard_insert ctx
  qty ← int_at "qty_delta" v
  check_sale_movement ctx v branch qty
  ok (moved_plan v branch "stock.sold")

unfoldable pub stock_moved : Ctx → Fields → StockReason → String → Result ApplyPlan
stock_moved ctx v reason action = do
  branch ← str_at "branch_id" v
  need ctx stock_adjust branch
  guard_insert ctx
  qty ← int_at "qty_delta" v
  check_own_movement ctx v reason branch qty
  ok (moved_plan v branch action)

-- The rest of `_stock_insert`, by the reason.
unfoldable pub stock_by_reason : Ctx → Fields → StockReason → Result ApplyPlan
stock_by_reason ctx v StockReason.sale = stock_sold ctx v
stock_by_reason ctx v purchase = stock_moved ctx v purchase "stock.received"
stock_by_reason ctx v adjustment = stock_moved ctx v adjustment "stock.adjusted"
stock_by_reason ctx v returned = stock_returned ctx v
stock_by_reason ctx v _ = err (validation Code.sync_op_unsupported)

-- `_stock_insert`
unfoldable pub stock_insert : Ctx → Fields → Result ApplyPlan
unfolding stock_by_reason
stock_insert ctx v = do
  text ← str_at "reason" v
  reason ← or_raise (stock_reason text) crash
  stock_by_reason ctx v reason
