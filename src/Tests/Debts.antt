-- ===== src/Tests/Debts.antt =====
-- The debt of the shop's sale, charged and taken back.
use dukan_pro.Prelude.{String, true, false, none, some, [], ◌∷◌, ◌≡◌, refl}
use dukan_pro.Prelude.Int.{pos, negsuc, ◌+ℤ◌, ◌-ℤ◌, negate, ◌≤ℤ◌}
use dukan_pro.Prelude.Dict.{lookup, insert}
use dukan_pro.Errors.{ok}
use dukan_pro.Access.{require_permission}
use dukan_pro.Domain.Identity.{
  can, is_active, permissions_for, granted, role_permissions, builtin_role_permissions,
}
use dukan_pro.Domain.Customers.{assert_within_credit_limit}
use dukan_pro.Sync.Values.{
  Value, Fields, str_at, int_at, str_or, int_or, str_get, int_get, pick, value_get,
}
use dukan_pro.Sync.Types.{Ctx, CustomerRef, SaleRef, SyncReader, ApplyPlan, audit, plan}
use dukan_pro.Sync.Guards.{
  own_sale, sale, need, active, guard_insert, guard_update, product, customer,
  require_complete_lines, violates, after_close, is_given,
}
use dukan_pro.Sync.Guards.Passed.{OwnSale}
use dukan_pro.Tests.World.{s1, r1, c1, b1, reader, row_id, operation, context_of}
use dukan_pro.Sync.Handlers.Debts.{
  charge_insert, check_charge, debt_reversal, adjustment_insert, reversed_sale, returned_sale,
}
use dukan_pro.Sync.Handlers.Debts.Bounds.{
  charge_insert-within_unpaid, adjustment_insert-within_charges, Reversed,
}

abbrev v : Fields
v =
    ("customer_id", Value.str c1)
    ∷ ("type", Value.str "charge")
    ∷ ("amount_minor", Value.int (pos 400))
    ∷ ("ref_type", Value.str "sale")
    ∷ ("ref_id", Value.str s1)
    ∷ []

abbrev ctx : Ctx
ctx = context_of reader (operation "customer_ledger" "insert" row_id v)

abbrev p : ApplyPlan
p = plan v b1 (some b1) (
    audit "debt.charge_posted" "customer_ledger" (
      insert "over_credit_limit" (Value.bool false)
        (pick v ("customer_id" ∷ "amount_minor" ∷ "currency" ∷ "ref_id" ∷ []))))

accepted : charge_insert ctx v (pos 400) "AFN" ≡ ok p
unfolding charge_insert check_charge assert_within_credit_limit own_sale sale need
    require_permission can is_active permissions_for granted role_permissions
    builtin_role_permissions guard_insert guard_update active product customer
    require_complete_lines violates after_close is_given str_at int_at str_or int_or str_get int_get
    value_get lookup ◌+ℤ◌ ◌-ℤ◌ negate
accepted = refl

charge_insert-within_unpaid_example :
    (id : String) × (s : SaleRef) × (c : CustomerRef) × (str_get "ref_id" v ≡ ok (some id))
    × OwnSale ctx id s
    × (s.customer_id ≡ some c.id)
    × (c.deleted ≡ false)
    × (ctx.reader.sale_lines_total s.id ≡ s.subtotal_minor)
    × (ctx.reader.sale_charges_total s.id +ℤ pos 400 ≤ℤ s.total_minor -ℤ s.paid_minor)
    × (ctx.existing ≡ none)
    × (p.row_branch_id ≡ some s.branch_id)
charge_insert-within_unpaid_example = charge_insert-within_unpaid ctx v (pos 400) "AFN" p accepted

abbrev charged : SyncReader
charged = record reader { sale_charges_total = λ id. pos 400 }

abbrev back : Fields
back =
    ("customer_id", Value.str c1)
    ∷ ("type", Value.str "adjustment")
    ∷ ("amount_minor", Value.int (negsuc 399))
    ∷ ("ref_type", Value.str "refund")
    ∷ ("ref_id", Value.str r1)
    ∷ []

abbrev back_ctx : Ctx
back_ctx = context_of charged (operation "customer_ledger" "insert" row_id back)

abbrev back_plan : ApplyPlan
back_plan = plan back b1 none (
    audit "debt.charge_reversed" "customer_ledger" (
      insert "exceeds_balance" (Value.bool true) (
        insert "amount" (Value.int (pos 400))
          (pick back ("customer_id" ∷ "currency" ∷ "ref_type" ∷ "ref_id" ∷ [])))))

for_return : str_get "ref_type" back ≡ ok (some "refund")
unfolding str_get lookup
for_return = refl

back_accepted : adjustment_insert back_ctx back (negsuc 399) "AFN" ≡ ok back_plan
unfolding adjustment_insert debt_reversal reversed_sale returned_sale own_sale sale need
    require_permission can is_active permissions_for granted role_permissions
    builtin_role_permissions guard_insert guard_update active product customer
    require_complete_lines violates after_close is_given str_at int_at str_or int_or str_get int_get
    value_get lookup ◌+ℤ◌ ◌-ℤ◌ negate
back_accepted = refl

adjustment_insert-within_charges_example : Reversed back_ctx back "refund" (negsuc 399)
adjustment_insert-within_charges_example =
    adjustment_insert-within_charges back_ctx back "refund" (negsuc 399) "AFN" back_plan for_return
      refl back_accepted
