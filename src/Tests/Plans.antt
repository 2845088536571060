-- ===== src/Tests/Plans.antt =====
-- Operations as a whole, through `plan_op`.
use dukan_pro.Prelude.{true, false, none, some, [], ◌∷◌, ◌≡◌, refl, ◌↔◌}
use dukan_pro.Prelude.Int.{pos, ◌+ℤ◌, ◌-ℤ◌, negate}
use dukan_pro.Prelude.Text.{is_blank, is_space}
use dukan_pro.Prelude.Dict.{lookup, insert}
use dukan_pro.Errors.{ok}
use dukan_pro.Access.{require_permission}
use dukan_pro.Domain.Identity.{
  can, is_active, permissions_for, granted, role_permissions, builtin_role_permissions,
}
use dukan_pro.Domain.Sales.{assert_payment_valid, is_tender, bad_tendered}
use dukan_pro.Domain.Branches.{assert_branch_active}
use dukan_pro.Sync.Values.{
  Value, Fields, value_eq, str_at, int_at, str_or, int_or, str_get, int_get, pick, value_get,
}
use dukan_pro.Sync.Types.{OpInput, RowSnapshot, ApplyPlan, audit, plan}
use dukan_pro.Sync.Changes.{changed_of, before_of}
use dukan_pro.Sync.EventTime.{event_time, recorded_instant, parse_recorded_at}
use dukan_pro.Sync.Guards.{
  own_sale, sale, need, active, guard_insert, guard_update, product, customer,
  require_complete_lines, violates, after_close, is_given,
}
use dukan_pro.Tests.World.{s1, p1, c1, b1, iso, owner, reader, row_id, operation}
use dukan_pro.Sync.Plans.{Inserted, Updated}
use dukan_pro.Sync.Fields.{
  clean_fields, spec_of, known_keys, collect, collect_one, check, check_by, check_text, check_kind,
  is_uuid, uuid_from, is_hex,
}
use dukan_pro.Sync.Fields.Specs.{insert_spec, update_spec}
use dukan_pro.Sync.Handlers.Payments.{payments_insert, sale_payment}
use dukan_pro.Sync.Handlers.Parties.{customers_update}
use dukan_pro.Sync.Handlers.Stock.{
  stock_insert, stock_by_reason, stock_moved, check_own_movement, check_own_qty,
}
use dukan_pro.Domain.Inventory.{stock_reason, adjust_stock}
use dukan_pro.Sync.Dispatch.{
  plan_op, handler, insert_handlers, update_handlers, context, check_envelope,
}
use dukan_pro.Sync.Dispatch.Planned.{plan_op-insert, plan_op-update}
use dukan_pro.Sync.Dispatch.Envelope.{WellFormed, check_envelope_iff}

abbrev v : Fields
v =
    ("sale_id", Value.str s1)
    ∷ ("method", Value.str "cash")
    ∷ ("amount_minor", Value.int (pos 400))
    ∷ []

abbrev pub pay_op : OpInput
pay_op = operation "payments" "insert" row_id v

abbrev paid : ApplyPlan
paid = plan v b1 (some b1) (
    audit "payment.recorded" "payment"
      (pick v ("sale_id" ∷ "method" ∷ "amount_minor" ∷ "currency" ∷ [])))

planned : plan_op iso pay_op owner (some b1) none reader (pos 5000000) ≡ ok paid
unfolding plan_op handler insert_handlers assert_branch_active payments_insert sale_payment
    assert_payment_valid is_tender bad_tendered clean_fields spec_of known_keys collect collect_one
    check check_by check_text check_kind is_uuid uuid_from is_hex insert_spec update_spec is_blank
    is_space own_sale sale need require_permission can is_active permissions_for granted
    role_permissions builtin_role_permissions guard_insert guard_update active product customer
    require_complete_lines violates after_close is_given str_at int_at str_or int_or str_get int_get
    value_get lookup ◌+ℤ◌ ◌-ℤ◌ negate
planned = refl

plan_op-insert_example :
    (reader.branch_active paid.auth_branch_id ≡ true)
    × Inserted (context iso pay_op owner (some b1) none reader (pos 5000000)) paid
plan_op-insert_example =
    plan_op-insert iso pay_op owner (some b1) none reader (pos 5000000) paid refl planned

abbrev stored : RowSnapshot
stored = record { version = pos 1; deleted = false; values = ("name", Value.str "Zahra") ∷ [] }

abbrev renamed : Fields
renamed = ("name", Value.str "Zahra Ahmadi") ∷ []

abbrev pub rename_op : OpInput
rename_op = operation "customers" "update" c1 renamed

abbrev rename_plan : ApplyPlan
rename_plan =
    plan renamed b1 none
      (record (audit "customer.updated" "customer" renamed) { before = some stored.values })

rename_planned :
    plan_op iso rename_op owner (some b1) (some stored) reader (pos 5000000) ≡ ok rename_plan
unfolding plan_op handler update_handlers assert_branch_active customers_update changed_of before_of
    value_eq clean_fields spec_of known_keys collect collect_one check check_by check_text
    check_kind is_uuid uuid_from is_hex insert_spec update_spec is_blank is_space own_sale sale need
    require_permission can is_active permissions_for granted role_permissions
    builtin_role_permissions guard_insert guard_update active product customer
    require_complete_lines violates after_close is_given str_at int_at str_or int_or str_get int_get
    value_get lookup ◌+ℤ◌ ◌-ℤ◌ negate
rename_planned = refl

plan_op-update_example :
    (reader.branch_active rename_plan.auth_branch_id ≡ true)
    × Updated (context iso rename_op owner (some b1) (some stored) reader (pos 5000000)) rename_plan
plan_op-update_example =
    plan_op-update iso rename_op owner (some b1) (some stored) reader (pos 5000000) rename_plan refl
      rename_planned

abbrev counted : Fields
counted =
    ("product_id", Value.str p1)
    ∷ ("branch_id", Value.str b1)
    ∷ ("qty_delta", Value.int (pos 3))
    ∷ ("reason", Value.str "adjustment")
    ∷ []

abbrev count_op : OpInput
count_op = record (operation "stock_movements" "insert" row_id counted) {
  created_at = some "1970-01-01T00:00:01+00:00";
}

abbrev count_plan : ApplyPlan
count_plan = plan (insert "occurred_at" (Value.time (pos 1000000)) counted) b1 (some b1) (
    audit "stock.adjusted" "stock_movement"
      (pick counted ("product_id" ∷ "branch_id" ∷ "qty_delta" ∷ "reason" ∷ "ref_id" ∷ [])))

count_planned : plan_op iso count_op owner (some b1) none reader (pos 5000000) ≡ ok count_plan
unfolding plan_op handler insert_handlers assert_branch_active stock_insert stock_by_reason
    stock_moved check_own_movement check_own_qty stock_reason adjust_stock event_time
    recorded_instant parse_recorded_at clean_fields spec_of known_keys collect collect_one check
    check_by check_text check_kind is_uuid uuid_from is_hex insert_spec update_spec is_blank
    is_space own_sale sale need require_permission can is_active permissions_for granted
    role_permissions builtin_role_permissions guard_insert guard_update active product customer
    require_complete_lines violates after_close is_given str_at int_at str_or int_or str_get int_get
    value_get lookup ◌+ℤ◌ ◌-ℤ◌ negate
count_planned = refl

check_envelope_iff_example : (check_envelope iso pay_op owner ≡ ok tt) ↔ WellFormed iso pay_op owner
check_envelope_iff_example = check_envelope_iff iso pay_op owner
