-- ===== src/Tests/Payments.antt =====
-- Payments on the shop's sale.
use dukan_pro.Prelude.{arith, String, none, some, [], ◌∷◌, ◌≡◌, ◌≢◌, ◌⊎◌, refl}
use dukan_pro.Prelude.Int.{ℤ, pos, ◌+ℤ◌, ◌-ℤ◌, negate, ◌≤ℤ◌}
use dukan_pro.Prelude.Dict.{lookup}
use dukan_pro.Errors.{ok}
use dukan_pro.Access.{require_permission}
use dukan_pro.Domain.Identity.{
  can, is_active, permissions_for, granted, role_permissions, builtin_role_permissions,
}
use dukan_pro.Domain.Sales.{assert_payment_valid, is_tender, bad_tendered}
use dukan_pro.Sync.Values.{
  Value, Fields, str_at, int_at, str_or, int_or, str_get, int_get, pick, value_get,
}
use dukan_pro.Sync.Types.{Ctx, SaleRef, ApplyPlan, audit, plan}
use dukan_pro.Sync.Guards.{
  own_sale, sale, need, active, guard_insert, guard_update, product, customer,
  require_complete_lines, violates, after_close, is_given,
}
use dukan_pro.Sync.Guards.Passed.{OwnSale}
use dukan_pro.Tests.World.{s1, b1, sold, reader, row_id, operation, context_of}
use dukan_pro.Sync.Handlers.Payments.{payments_insert, sale_payment}
use dukan_pro.Sync.Handlers.Payments.Bounds.{Kept, Taken, HandedBack, payments_insert-bounds}
use dukan_pro.Sync.Handlers.Payments.History.{History, start, pay, history-within}

abbrev v : Fields
v =
    ("sale_id", Value.str s1)
    ∷ ("method", Value.str "cash")
    ∷ ("amount_minor", Value.int (pos 400))
    ∷ []

abbrev ctx : Ctx
ctx = context_of reader (operation "payments" "insert" row_id v)

abbrev p : ApplyPlan
p = plan v b1 (some b1) (
    audit "payment.recorded" "payment"
      (pick v ("sale_id" ∷ "method" ∷ "amount_minor" ∷ "currency" ∷ [])))

accepted : payments_insert ctx v ≡ ok p
unfolding payments_insert sale_payment assert_payment_valid is_tender bad_tendered own_sale sale
    need require_permission can is_active permissions_for granted role_permissions
    builtin_role_permissions guard_insert guard_update active product customer
    require_complete_lines violates after_close is_given str_at int_at str_or int_or str_get int_get
    value_get lookup ◌+ℤ◌ ◌-ℤ◌ negate
accepted = refl

names_sale : str_at "sale_id" v ≡ ok s1
unfolding str_at lookup
names_sale = refl

has_amount : int_at "amount_minor" v ≡ ok (pos 400)
unfolding int_at lookup
has_amount = refl

payments_insert-bounds_example :
    (id : String) × (s : SaleRef) × (amount : ℤ) × (str_at "sale_id" v ≡ ok id)
    × (int_at "amount_minor" v ≡ ok amount)
    × OwnSale ctx id s
    × Kept ctx v s p
    × (((s.refund_of ≡ none) × Taken ctx s amount)
        ⊎ ((s.refund_of ≢ none) × HandedBack ctx s amount))
payments_insert-bounds_example = payments_insert-bounds ctx v p accepted

abbrev one_payment : History sold (pos 0 +ℤ pos 400)
one_payment = pay ctx v p s1 (pos 400) start accepted names_sale has_amount refl refl

history-within_example :
    (pos 0 ≤ℤ (pos 0 +ℤ pos 400))
    × ((pos 0 +ℤ pos 400) ≤ℤ sold.paid_minor)
    × ((pos 0 +ℤ pos 400) ≤ℤ sold.total_minor)
history-within_example =
    history-within sold (pos 0 +ℤ pos 400) refl (omega arith) (omega arith) one_payment
