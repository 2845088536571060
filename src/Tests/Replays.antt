-- ===== src/Tests/Replays.antt =====
-- A customer is renamed, and the operation is sent again; payments are pushed together.
use dukan_pro.Prelude.{◌≡◌, ◌⊎◌, refl, true, false, none, some, List, [], ◌∷◌, map}
use dukan_pro.Prelude.Int.{pos, ◌+ℤ◌, ◌-ℤ◌, negate}
use dukan_pro.Prelude.Text.{is_blank, is_space}
use dukan_pro.Prelude.Dict.{lookup}
use dukan_pro.Access.{require_permission}
use dukan_pro.Domain.Identity.{
  can, is_active, permissions_for, granted, role_permissions, builtin_role_permissions,
}
use dukan_pro.Domain.Branches.{assert_branch_active}
use dukan_pro.Sync.Values.{
  Value, value_eq, str_at, int_at, str_or, int_or, str_get, int_get, value_get,
}
use dukan_pro.Sync.Types.{OpInput}
use dukan_pro.Sync.Changes.{changed_of, before_of}
use dukan_pro.Sync.Guards.{
  own_sale, sale, need, active, guard_insert, guard_update, product, customer,
  require_complete_lines, violates, after_close, is_given,
}
use dukan_pro.Sync.Fields.{
  clean_fields, spec_of, known_keys, collect, collect_one, check, check_by, check_text, check_kind,
  is_uuid, uuid_from, is_hex,
}
use dukan_pro.Sync.Fields.Specs.{insert_spec, update_spec}
use dukan_pro.Sync.Handlers.Parties.{customers_update}
use dukan_pro.Sync.Dispatch.{
  is_sync_table, check_base_version, plan_op, handler, update_handlers, check_envelope,
}
use dukan_pro.SyncService.Applying.{Database, Tables, ProcessedOp, applied, merged, apply, write}
use dukan_pro.SyncService.Settling.{prior_of, is_applied}
use dukan_pro.SyncService.Deciding.{decide, push_known, push_one}
use dukan_pro.SyncService.{push}
use dukan_pro.SyncService.Transacting.{push_together}
use dukan_pro.SyncService.Groups.{push-keeps_applied}
use dukan_pro.SyncService.Named.{op_id_of, answered_id}
use dukan_pro.SyncService.Answers.{push-answers_all}
use dukan_pro.SyncService.Replays.{push_one-once}
use dukan_pro.SyncService.AllOrNone.{Untouched, Whole, push_together-all_or_none}
use dukan_pro.Tests.World.{c1, b1, u1, iso, owner, cashier_user, reader}
use dukan_pro.Tests.Plans.{rename_op, pay_op}

abbrev db : Database
db = record { iso = iso; reader = λ s. reader; clashes = λ s r. false; next_seq = λ s. 7 }

abbrev before : Tables
before = record {
  rows =
      record {
        table = "customers";
        id = c1;
        version = pos 1;
        deleted = false;
        values = ("name", Value.str "Zahra") ∷ [];
      }
      ∷ [];
  feed = [];
  audit = [];
  processed = [];
}

-- The record of a payment that the owner sent earlier.
abbrev paid_before : ProcessedOp
paid_before = record {
  op_id = "0b000000-0000-4000-8000-000000000001";
  result = applied;
  server_seq = some 4;
  code = none;
  version = none;
  actor_id = some u1;
  device_id = "till";
}

abbrev recorded_before : Tables
recorded_before = record before { processed = paid_before ∷ [] }

push-keeps_applied_example :
    prior_of
      (push db
        (pos 5000000)
        cashier_user
        "phone"
        (some b1)
        recorded_before
        (pay_op ∷ rename_op ∷ [])).after
      paid_before.op_id
    ≡ some paid_before
push-keeps_applied_example =
    push-keeps_applied db (pos 5000000) cashier_user "phone" (some b1) recorded_before
      (pay_op ∷ rename_op ∷ []) paid_before.op_id paid_before refl refl

renamed_once :
    is_applied (push_one db (pos 5000000) owner "till" (some b1) before rename_op).answer.outcome
    ≡ true
unfolding push_one push_known decide apply write merged check_envelope is_sync_table plan_op handler
    update_handlers assert_branch_active customers_update changed_of before_of value_eq clean_fields
    spec_of known_keys collect collect_one check check_by check_text check_kind check_base_version
    is_uuid uuid_from is_hex insert_spec update_spec is_blank is_space own_sale sale need
    require_permission can is_active permissions_for granted role_permissions
    builtin_role_permissions guard_insert guard_update active product customer
    require_complete_lines violates after_close is_given str_at int_at str_or int_or str_get int_get
    value_get lookup ◌+ℤ◌ ◌-ℤ◌ negate
renamed_once = refl

push_one-once_example :
    let p = push_one db (pos 5000000) owner "till" (some b1) before rename_op in
    let t = (push db (pos 6000000) cashier_user "phone" none p.after (pay_op ∷ [])).after in
    push_one db (pos 7000000) owner "laptop" none t rename_op
    ≡ record { after = t; answer = p.answer }
push_one-once_example =
    push_one-once db (pos 5000000) "till" (some b1) db (pos 6000000) cashier_user "phone" none
      (pos 7000000) "laptop" none before owner rename_op (pay_op ∷ []) renamed_once

-- Two payments of the sale, each with an id of its own.
abbrev together : List OpInput
together = pay_op ∷ record pay_op { op_id = "0b000000-0000-4000-8000-000000000002" } ∷ []

push_together-all_or_none_example :
    let p = push_together db (pos 5000000) owner "till" (some b1) before together in
    Untouched db (pos 5000000) owner "till" (some b1) before p
    ⊎ Whole db (pos 5000000) owner "till" (some b1) before together p
push_together-all_or_none_example =
    push_together-all_or_none db (pos 5000000) owner "till" (some b1) before together refl

push-answers_all_example :
    map answered_id
      (push db
        (pos 5000000)
        cashier_user
        "phone"
        (some b1)
        recorded_before
        (rename_op ∷ together)).answer
    ≡ map op_id_of (rename_op ∷ together)
push-answers_all_example =
    push-answers_all db (pos 5000000) cashier_user "phone" (some b1) recorded_before
      (rename_op ∷ together)
