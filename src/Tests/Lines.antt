-- ===== src/Tests/Lines.antt =====
-- Lines of the sale and of the return.
use dukan_pro.Prelude.{ℕ, String, true, none, some, [], ◌∷◌, ◌≡◌, ◌≢◌, refl}
use dukan_pro.Prelude.Int.{pos, negsuc, ◌+ℤ◌, ◌-ℤ◌, ◌*ℤ◌, negate}
use dukan_pro.Prelude.Dict.{lookup, insert}
use dukan_pro.Errors.{ok}
use dukan_pro.Access.{require_permission}
use dukan_pro.Domain.Identity.{
  can, is_active, permissions_for, granted, role_permissions, builtin_role_permissions, sale_void,
}
use dukan_pro.Domain.Sales.{line_total_minor, returned_value_minor, div_round_half_up}
use dukan_pro.Sync.Values.{
  Value, Fields, str_at, int_at, str_or, int_or, str_get, int_get, pick, value_get,
}
use dukan_pro.Sync.Types.{Ctx, ProductRef, SaleRef, SaleLineRef, SyncReader, ApplyPlan, audit, plan}
use dukan_pro.Sync.Guards.{
  own_sale, sale, need, active, guard_insert, guard_update, product, customer,
  require_complete_lines, violates, after_close, is_given,
}
use dukan_pro.Sync.Guards.Passed.{OwnSale}
use dukan_pro.Tests.World.{s1, r1, p1, b1, reader, row_id, operation, context_of}
use dukan_pro.Sync.Handlers.Lines.{
  sale_lines_insert, sold_line, check_line_money, check_price, refund_line, check_refund_line,
}
use dukan_pro.Sync.Handlers.Lines.Totals.{Sold, sale_lines_insert-Sold}
use dukan_pro.Sync.Handlers.Lines.Returns.{Returned, sale_lines_insert-Returned}

abbrev empty_reader : SyncReader
empty_reader = record reader { sale_lines_total = λ id. pos 0 }

abbrev v : Fields
v =
    ("sale_id", Value.str s1)
    ∷ ("product_id", Value.str p1)
    ∷ ("name", Value.str "rice")
    ∷ ("qty_minor", Value.int (pos 10))
    ∷ ("unit_price_minor", Value.int (pos 100))
    ∷ ("line_total_minor", Value.int (pos 1000))
    ∷ []

abbrev ctx : Ctx
ctx = context_of empty_reader (operation "sale_lines" "insert" row_id v)

abbrev out : ApplyPlan
out =
    plan
      (insert "unit_cost_minor" (Value.int (pos 60))
        (insert "decimal_places" (Value.int (pos 0)) v))
      b1 (some b1)
      (audit "sale.line_added" "sale_line" (
        insert "catalog_price_minor" (Value.int (pos 100)) (
          pick v (
            "sale_id" ∷ "product_id" ∷ "qty_minor" ∷ "unit_price_minor" ∷ "line_total_minor"
            ∷ []))))

accepted : sale_lines_insert ctx v ≡ ok out
unfolding sale_lines_insert sold_line check_line_money check_price line_total_minor ◌*ℤ◌ own_sale
    sale need require_permission can is_active permissions_for granted role_permissions
    builtin_role_permissions guard_insert guard_update active product customer
    require_complete_lines violates after_close is_given str_at int_at str_or int_or str_get int_get
    value_get lookup ◌+ℤ◌ ◌-ℤ◌ negate
accepted = refl

sale_lines_insert-Sold_example :
    (sale_id : String) × (s : SaleRef) × (str_at "sale_id" v ≡ ok sale_id)
    × OwnSale ctx sale_id s
    × (s.refund_of ≡ none
        → (id : String) × (p : ProductRef) × (places : ℕ) × (str_at "product_id" v ≡ ok id)
          × (ctx.reader.product id ≡ some p)
          × Sold ctx v s p places
          × (ctx.existing ≡ none)
          × (lookup "decimal_places" out.values ≡ some (Value.int (pos places))))
sale_lines_insert-Sold_example = sale_lines_insert-Sold ctx v out accepted

abbrev back : Fields
back =
    ("sale_id", Value.str r1)
    ∷ ("product_id", Value.str p1)
    ∷ ("name", Value.str "rice")
    ∷ ("qty_minor", Value.int (negsuc 4))
    ∷ ("unit_price_minor", Value.int (pos 100))
    ∷ ("line_total_minor", Value.int (negsuc 499))
    ∷ []

abbrev back_ctx : Ctx
back_ctx = context_of empty_reader (operation "sale_lines" "insert" row_id back)

abbrev back_plan : ApplyPlan
back_plan =
    plan
      (insert "unit_cost_minor" (Value.int (pos 60))
        (insert "decimal_places" (Value.int (pos 0)) back))
      b1 (some b1)
      (audit "sale.line_returned" "sale_line"
        (pick back ("sale_id" ∷ "product_id" ∷ "qty_minor" ∷ "line_total_minor" ∷ [])))

back_accepted : sale_lines_insert back_ctx back ≡ ok back_plan
unfolding sale_lines_insert refund_line check_refund_line returned_value_minor div_round_half_up
    ◌*ℤ◌ own_sale sale need require_permission can is_active permissions_for granted
    role_permissions builtin_role_permissions guard_insert guard_update active product customer
    require_complete_lines violates after_close is_given str_at int_at str_or int_or str_get int_get
    value_get lookup ◌+ℤ◌ ◌-ℤ◌ negate
back_accepted = refl

sale_lines_insert-Returned_example :
    (sale_id : String) × (s : SaleRef) × (str_at "sale_id" back ≡ ok sale_id)
    × OwnSale back_ctx sale_id s
    × (s.refund_of ≢ none
        → (can back_ctx.actor sale_void s.branch_id ≡ true)
          × (back_ctx.existing ≡ none)
          × ((original_id : String) × (product_id : String) × (sold : SaleLineRef) × (s.refund_of
                ≡ some original_id)
              × (str_at "product_id" back ≡ ok product_id)
              × (back_ctx.reader.sale_line_ref original_id product_id ≡ some sold)
              × Returned back_ctx back s original_id product_id sold))
sale_lines_insert-Returned_example =
    sale_lines_insert-Returned back_ctx back back_plan back_accepted
