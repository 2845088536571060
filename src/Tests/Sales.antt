-- ===== src/Tests/Sales.antt =====
-- A sale, a return and a void.
use dukan_pro.Prelude.{String, true, false, none, some, [], ◌∷◌, ◌≡◌, ◌≢◌, ◌⊎◌, refl}
use dukan_pro.Prelude.Int.{pos, negsuc, ◌+ℤ◌, ◌-ℤ◌, negate}
use dukan_pro.Prelude.Text.{strip, strip_start, strip_end, is_space}
use dukan_pro.Prelude.Dict.{lookup, insert, erase}
use dukan_pro.Errors.{ok, err, crash}
use dukan_pro.Access.{require_permission}
use dukan_pro.Domain.Identity.{
  can, is_active, permissions_for, granted, role_permissions, builtin_role_permissions, sale_create,
  sale_void,
}
use dukan_pro.Domain.Sales.{assert_discount_valid, assert_sale_not_overpaid}
use dukan_pro.Sync.Values.{
  Value, Fields, str_at, int_at, str_or, int_or, str_get, int_get, pick, value_get,
}
use dukan_pro.Sync.Types.{Ctx, SaleRef, ApplyPlan, audit, plan}
use dukan_pro.Sync.Guards.{
  own_sale, sale, need, active, guard_insert, guard_update, product, customer,
  require_complete_lines, violates, after_close, is_given,
}
use dukan_pro.Tests.World.{s1, c1, b1, owner, sold, reader, row_id, operation, context_of}
use dukan_pro.Sync.Handlers.Sales.{
  sales_insert, settled_insert, refund_insert, check_not_negative, check_sale_amounts,
  check_refund_of, check_refund_amounts, refund_reason, is_non_zero, sales_update, void_settled,
}
use dukan_pro.Sync.Handlers.Sales.Amounts.{Settled, sales_insert-Settled}
use dukan_pro.Sync.Handlers.Sales.Refunds.{Original, RefundAmounts, refund_insert-RefundAmounts}
use dukan_pro.Sync.Handlers.Sales.Voids.{Voidable, sales_update-void, sales_update-no_reason}

abbrev v : Fields
v =
    ("number", Value.str "7")
    ∷ ("branch_id", Value.str b1)
    ∷ ("customer_id", Value.str c1)
    ∷ ("discount_minor", Value.int (pos 100))
    ∷ ("subtotal_minor", Value.int (pos 1000))
    ∷ ("total_minor", Value.int (pos 900))
    ∷ ("paid_minor", Value.int (pos 500))
    ∷ []

abbrev ctx : Ctx
ctx = context_of reader (operation "sales" "insert" row_id v)

abbrev p : ApplyPlan
p = plan v b1 (some b1) (
    audit "sale.settled" "sale" (
      pick v (
        "number" ∷ "branch_id" ∷ "customer_id" ∷ "currency" ∷ "discount_minor" ∷ "total_minor"
        ∷ "paid_minor" ∷ [])))

no_return : is_given "refund_of" v ≡ false
unfolding is_given value_get lookup
no_return = refl

accepted : sales_insert ctx v ≡ ok p
unfolding sales_insert settled_insert check_not_negative check_sale_amounts assert_discount_valid
    assert_sale_not_overpaid erase own_sale sale need require_permission can is_active
    permissions_for granted role_permissions builtin_role_permissions guard_insert guard_update
    active product customer require_complete_lines violates after_close is_given str_at int_at
    str_or int_or str_get int_get value_get lookup ◌+ℤ◌ ◌-ℤ◌ negate
accepted = refl

sales_insert-Settled_example :
    (branch : String) × (p.auth_branch_id ≡ branch)
    × (p.row_branch_id ≡ some branch)
    × (can ctx.actor sale_create branch ≡ true)
    × (ctx.existing ≡ none)
    × (p.values ≡ erase "refund_reason" v)
    × Settled ctx p.values branch
sales_insert-Settled_example = sales_insert-Settled ctx v p no_return accepted

abbrev back : Fields
back =
    ("number", Value.str "8")
    ∷ ("branch_id", Value.str b1)
    ∷ ("customer_id", Value.str c1)
    ∷ ("subtotal_minor", Value.int (negsuc 499))
    ∷ ("total_minor", Value.int (negsuc 499))
    ∷ ("paid_minor", Value.int (negsuc 99))
    ∷ ("refund_of", Value.str s1)
    ∷ ("refund_reason", Value.str "bad")
    ∷ []

abbrev back_ctx : Ctx
back_ctx = context_of reader (operation "sales" "insert" row_id back)

abbrev back_plan : ApplyPlan
back_plan = plan (erase "refund_reason" back) b1 (some b1) (
    audit "sale.refunded" "sale" (
      insert "reason" (Value.str "bad") (
        pick back (
          "number" ∷ "customer_id" ∷ "currency" ∷ "total_minor" ∷ "paid_minor" ∷ "refund_of"
          ∷ []))))

is_return : is_given "refund_of" back ≡ true
unfolding is_given value_get lookup
is_return = refl

back_accepted : sales_insert back_ctx back ≡ ok back_plan
unfolding sales_insert refund_insert check_refund_of check_refund_amounts refund_reason is_non_zero
    strip strip_start strip_end is_space erase own_sale sale need require_permission can is_active
    permissions_for granted role_permissions builtin_role_permissions guard_insert guard_update
    active product customer require_complete_lines violates after_close is_given str_at int_at
    str_or int_or str_get int_get value_get lookup ◌+ℤ◌ ◌-ℤ◌ negate
back_accepted = refl

refund_insert-RefundAmounts_example :
    (id : String) × (original : SaleRef) × (str_at "refund_of" back ≡ ok id)
    × (back_ctx.reader.sale id ≡ some original)
    × Original back_ctx back original
    × RefundAmounts back_ctx back original
    × (back_ctx.existing ≡ none)
    × (back_plan.values ≡ erase "refund_reason" back)
    × (refund_reason back ≢ ok "")
refund_insert-RefundAmounts_example =
    refund_insert-RefundAmounts back_ctx back back_plan is_return back_accepted

abbrev void_fields : Fields
void_fields = ("status", Value.str "voided") ∷ ("void_reason", Value.str "wrong") ∷ []

abbrev void_ctx : Ctx
void_ctx = context_of reader (operation "sales" "update" s1 void_fields)

abbrev void_plan : ApplyPlan
void_plan =
    record (plan (("status", Value.str "voided") ∷ []) b1 (some b1)
      (record (audit "sale.voided" "sale"
        (("status", Value.str "voided") ∷ ("reason", Value.str "wrong") ∷ [])) {
          before = some (("status", Value.str "settled") ∷ []);
        })) { compare_version = false }

void_accepted : sales_update void_ctx void_fields ≡ ok void_plan
unfolding sales_update void_settled strip strip_start strip_end is_space own_sale sale need
    require_permission can is_active permissions_for granted role_permissions
    builtin_role_permissions guard_insert guard_update active product customer
    require_complete_lines violates after_close is_given str_at int_at str_or int_or str_get int_get
    value_get lookup ◌+ℤ◌ ◌-ℤ◌ negate
void_accepted = refl

sales_update-void_example :
    (s : SaleRef) × (void_ctx.reader.sale void_ctx.op.row_id ≡ some s)
    × (can void_ctx.actor sale_void s.branch_id ≡ true)
    × (void_plan.auth_branch_id ≡ s.branch_id)
    × (((s.status ≡ "voided") × (void_plan.noop ≡ true) × (void_plan.values ≡ []))
        ⊎ (Voidable void_ctx s
            × (void_plan.noop ≡ false)
            × (void_plan.values ≡ ("status", Value.str "voided") ∷ [])))
sales_update-void_example = sales_update-void void_ctx void_fields void_plan void_accepted

sold-Voidable : Voidable void_ctx sold
sold-Voidable = record { settled = refl; no_return = refl; kept = refl }

owner-can : can owner sale_void b1 ≡ true
unfolding own_sale sale need require_permission can is_active permissions_for granted
    role_permissions builtin_role_permissions guard_insert guard_update active product customer
    require_complete_lines violates after_close is_given str_at int_at str_or int_or str_get int_get
    value_get lookup ◌+ℤ◌ ◌-ℤ◌ negate
owner-can = refl

no_reason : lookup {V = Value} "void_reason" (("status", Value.str "voided") ∷ []) ≡ none
unfolding lookup
no_reason = refl

sales_update-no_reason_example :
    sales_update void_ctx (("status", Value.str "voided") ∷ []) ≡ err crash
sales_update-no_reason_example =
    sales_update-no_reason void_ctx (("status", Value.str "voided") ∷ []) sold refl owner-can
      sold-Voidable no_reason
