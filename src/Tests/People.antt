-- ===== src/Tests/People.antt =====
-- A shift that its cashier closes, and customers whom a cashier enters.
use dukan_pro.Prelude.{String, false, none, some, [], ◌∷◌, ◌≡◌, refl}
use dukan_pro.Prelude.Int.{ℤ, pos, ◌+ℤ◌, ◌-ℤ◌, negate, ◌≤ℤ◌}
use dukan_pro.Prelude.Dict.{lookup, insert}
use dukan_pro.Errors.{ok}
use dukan_pro.Access.{require_permission}
use dukan_pro.Domain.Identity.{
  can, is_active, permissions_for, granted, role_permissions, builtin_role_permissions, cashier,
}
use dukan_pro.Domain.Sales.{assert_shift_cash_valid}
use dukan_pro.Sync.Values.{
  Value, Fields, value_eq, str_at, int_at, str_or, int_or, str_get, int_get, pick, value_get,
}
use dukan_pro.Sync.Types.{Ctx, RowSnapshot, ApplyPlan, audit, plan}
use dukan_pro.Sync.Guards.{
  own_sale, sale, need, active, guard_insert, guard_update, product, customer,
  require_complete_lines, violates, after_close, is_given,
}
use dukan_pro.Tests.World.{b1, u1, iso, cashier_user, reader, row_id, operation, context_of}
use dukan_pro.Sync.Handlers.Shifts.{shifts_update, closing}
use dukan_pro.Sync.Handlers.Shifts.Closing.{MayClose, shifts_update-close}
use dukan_pro.Sync.Handlers.Parties.{customers_insert, granting}

abbrev shift_row : RowSnapshot
shift_row = record {
  version = pos 1;
  deleted = false;
  values =
      ("branch_id", Value.str b1) ∷ ("user_id", Value.str u1) ∷ ("status", Value.str "open") ∷ [];
}

abbrev close : Fields
close = ("status", Value.str "closed") ∷ ("counted_cash_minor", Value.int (pos 480)) ∷ []

abbrev close_ctx : Ctx
close_ctx = record (context_of reader (operation "shifts" "update" row_id close)) {
  existing = some shift_row;
}

abbrev close_plan : ApplyPlan
close_plan = plan (closing iso close_ctx (pos 480) (pos 500)) b1 (some b1) (
    audit "shift.closed" "shift" (
      ("counted", Value.int (pos 480))
      ∷ ("expected", Value.int (pos 500))
      ∷ ("variance", Value.int (pos 480 -ℤ pos 500))
      ∷ []))

close_accepted : shifts_update iso close_ctx close ≡ ok close_plan
unfolding shifts_update assert_shift_cash_valid own_sale sale need require_permission can is_active
    permissions_for granted role_permissions builtin_role_permissions guard_insert guard_update
    active product customer require_complete_lines violates after_close is_given str_at int_at
    str_or int_or str_get int_get value_get lookup ◌+ℤ◌ ◌-ℤ◌ negate
close_accepted = refl

shifts_update-close_example :
    (row : RowSnapshot) × (user_id : String) × (counted : ℤ) × (close_ctx.existing ≡ some row)
    × (row.deleted ≡ false)
    × (close_ctx.op.base_version ≡ some row.version)
    × (str_at "status" row.values ≡ ok "open")
    × (str_at "branch_id" row.values ≡ ok close_plan.auth_branch_id)
    × (str_at "user_id" row.values ≡ ok user_id)
    × MayClose close_ctx user_id close_plan.auth_branch_id
    × (int_at "counted_cash_minor" close ≡ ok counted)
    × (pos 0 ≤ℤ counted)
    × (close_plan.values
        ≡ closing iso close_ctx counted (close_ctx.reader.shift_expected_cash close_ctx.op.row_id))
    × (int_at "variance_minor" close_plan.values
        ≡ ok (counted -ℤ close_ctx.reader.shift_expected_cash close_ctx.op.row_id))
shifts_update-close_example = shifts_update-close iso close_ctx close close_plan close_accepted

abbrev v : Fields
v = ("name", Value.str "Reza") ∷ ("credit_limit_minor", Value.int (pos 500)) ∷ []

abbrev ctx : Ctx
ctx = record (context_of reader (operation "customers" "insert" row_id v)) { actor = cashier_user }

abbrev p : ApplyPlan
p = plan (("name", Value.str "Reza") ∷ ("credit_limit_minor", Value.int (pos 0)) ∷ []) b1 none (
    audit "customer.created" "customer" (
      ("name", Value.str "Reza")
      ∷ ("credit_limit_minor", Value.int (pos 0))
      ∷ ("credit_limit_requested", Value.int (pos 500))
      ∷ []))

accepted : customers_insert ctx v ≡ ok p
unfolding customers_insert granting value_eq pick insert cashier own_sale sale need
    require_permission can is_active permissions_for granted role_permissions
    builtin_role_permissions guard_insert guard_update active product customer
    require_complete_lines violates after_close is_given str_at int_at str_or int_or str_get int_get
    value_get lookup ◌+ℤ◌ ◌-ℤ◌ negate
accepted = refl

abbrev stored : RowSnapshot
stored = record { version = pos 1; deleted = false; values = ("name", Value.str "Reza") ∷ [] }

abbrev renamed : Fields
renamed = ("name", Value.str "Reza Karimi") ∷ []

abbrev rename_ctx : Ctx
rename_ctx = record (context_of reader (operation "customers" "update" row_id renamed)) {
  actor = cashier_user;
  existing = some stored;
}

abbrev rename_plan : ApplyPlan
rename_plan =
    plan renamed b1 none
      (record (audit "customer.updated" "customer" renamed) { before = some stored.values })
