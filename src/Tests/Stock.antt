-- ===== src/Tests/Stock.antt =====
-- Stock that the sale takes and that the void brings back.
use dukan_pro.Prelude.{String, true, none, some, [], ◌∷◌, ◌≡◌, refl}
use dukan_pro.Prelude.Int.{ℤ, pos, negsuc, ◌+ℤ◌, ◌-ℤ◌, negate, ◌≤ℤ◌, ◌<ℤ◌}
use dukan_pro.Prelude.Dict.{lookup}
use dukan_pro.Errors.{ok}
use dukan_pro.Access.{require_permission}
use dukan_pro.Domain.Identity.{
  can, is_active, permissions_for, granted, role_permissions, builtin_role_permissions, sale_void,
}
use dukan_pro.Sync.Values.{
  Value, Fields, str_at, int_at, str_or, int_or, str_get, int_get, pick, value_get,
}
use dukan_pro.Sync.Types.{Ctx, SaleRef, ApplyPlan, audit, plan}
use dukan_pro.Sync.Guards.{
  own_sale, sale, need, active, guard_insert, guard_update, product, customer,
  require_complete_lines, violates, after_close, is_given,
}
use dukan_pro.Sync.Guards.Passed.{OwnSale}
use dukan_pro.Tests.World.{s1, w1, p1, b1, reader, row_id, operation, context_of}
use dukan_pro.Sync.Handlers.Stock.{
  stock_sold, check_sale_movement, stock_returned, return_ref, took_by, took_by_void,
}
use dukan_pro.Sync.Handlers.Stock.Bounds.{Took, stock_sold-backed, stock_returned-within_taken}

abbrev v : Fields
v =
    ("product_id", Value.str p1)
    ∷ ("branch_id", Value.str b1)
    ∷ ("qty_delta", Value.int (negsuc 5))
    ∷ ("reason", Value.str "sale")
    ∷ ("ref_type", Value.str "sale")
    ∷ ("ref_id", Value.str s1)
    ∷ []

abbrev ctx : Ctx
ctx = context_of reader (operation "stock_movements" "insert" row_id v)

abbrev p : ApplyPlan
p = plan v b1 (some b1) (
    audit "stock.sold" "stock_movement"
      (pick v ("product_id" ∷ "branch_id" ∷ "qty_delta" ∷ "reason" ∷ "ref_id" ∷ [])))

accepted : stock_sold ctx v ≡ ok p
unfolding stock_sold check_sale_movement own_sale sale need require_permission can is_active
    permissions_for granted role_permissions builtin_role_permissions guard_insert guard_update
    active product customer require_complete_lines violates after_close is_given str_at int_at
    str_or int_or str_get int_get value_get lookup ◌+ℤ◌ ◌-ℤ◌ negate
accepted = refl

stock_sold-backed_example :
    (id : String) × (s : SaleRef) × (product_id : String) × (qty : ℤ) × (str_get "ref_id" v
      ≡ ok (some id))
    × (str_at "product_id" v ≡ ok product_id)
    × (int_at "qty_delta" v ≡ ok qty)
    × OwnSale ctx id s
    × (str_at "branch_id" v ≡ ok s.branch_id)
    × (qty <ℤ pos 0)
    × (ctx.reader.sale_stock_out_qty s.id product_id -ℤ qty
        ≤ℤ ctx.reader.sale_line_qty s.id product_id)
    × (ctx.existing ≡ none)
stock_sold-backed_example = stock_sold-backed ctx v p accepted

abbrev back : Fields
back =
    ("product_id", Value.str p1)
    ∷ ("branch_id", Value.str b1)
    ∷ ("qty_delta", Value.int (pos 4))
    ∷ ("reason", Value.str "returned")
    ∷ ("ref_type", Value.str "void")
    ∷ ("ref_id", Value.str w1)
    ∷ []

abbrev back_ctx : Ctx
back_ctx = context_of reader (operation "stock_movements" "insert" row_id back)

abbrev back_plan : ApplyPlan
back_plan = plan back b1 (some b1) (
    audit "stock.returned" "stock_movement" (
      pick back ("product_id" ∷ "branch_id" ∷ "qty_delta" ∷ "reason" ∷ "ref_type" ∷ "ref_id" ∷ [])))

back_accepted : stock_returned back_ctx back ≡ ok back_plan
unfolding stock_returned return_ref took_by took_by_void own_sale sale need require_permission can
    is_active permissions_for granted role_permissions builtin_role_permissions guard_insert
    guard_update active product customer require_complete_lines violates after_close is_given str_at
    int_at str_or int_or str_get int_get value_get lookup ◌+ℤ◌ ◌-ℤ◌ negate
back_accepted = refl

stock_returned-within_taken_example :
    (ref_type : String) × (ref_id : String) × (s : SaleRef) × (product_id : String) × (qty : ℤ)
    × (took : ℤ) × (return_ref back ≡ ok (ref_type, ref_id))
    × (back_ctx.reader.sale ref_id ≡ some s)
    × (str_at "product_id" back ≡ ok product_id)
    × (int_at "qty_delta" back ≡ ok qty)
    × (str_at "branch_id" back ≡ ok s.branch_id)
    × (can back_ctx.actor sale_void s.branch_id ≡ true)
    × (pos 0 <ℤ qty)
    × Took back_ctx ref_type s product_id took
    × (back_ctx.reader.returned_stock_qty ref_type s.id product_id +ℤ qty ≤ℤ took)
    × (back_ctx.existing ≡ none)
stock_returned-within_taken_example =
    stock_returned-within_taken back_ctx back back_plan back_accepted
