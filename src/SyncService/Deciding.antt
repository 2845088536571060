-- ===== src/SyncService/Deciding.antt =====
-- server/dukan/infrastructure/sync_service.py: `_push_one` and `_push_single`, an operation by itself.
use dukan_pro.Prelude.{
  String, Bool, false, not, ◌&&◌, Option, none, some, is_some, List, ◌∷◌, if◌then◌else◌,
}
use dukan_pro.Prelude.Int.{ℤ}
use dukan_pro.Prelude.Text.{str_eq}
use dukan_pro.Errors.{ok, err}
use dukan_pro.Domain.Identity.{User}
use dukan_pro.Store.Queries.{first}
use dukan_pro.Sync.Types.{OpInput}
use dukan_pro.Sync.Fields.{is_uuid}
use dukan_pro.Sync.Pull.{is_cacheable, ends_with}
use dukan_pro.SyncService.Applying.{
  Outcome, OpResult, ProcessedOp, Tables, Database, apply, applied, conflicted, rejected,
}
use dukan_pro.SyncService.Settling.{
  prior_of, plain, refusal, is_applied, replay, Pushed, with_op, settle, applied_op, verdict_of,
  shown_conflict, decide_error, is_foreign, forget,
}

-- The rows whose chain an earlier operation broke, with its answer.
abbrev pub Failed : Type 0
Failed = List ((String × String) × OpResult)

abbrev pub failed_row : OpInput → (String × String) × OpResult → Bool
failed_row op e = str_eq e.0.0 op.table && str_eq e.0.1 op.row_id

abbrev pub ends_as_conflict : Option String → Bool
ends_as_conflict none = false
ends_as_conflict (some code) = ends_with code "_VERSION_CONFLICT"

abbrev pub breaks_chain : OpInput → OpResult → Bool
breaks_chain op r = elim r.outcome [
  | conflicted ↦ str_eq op.op "update" && ends_as_conflict r.code
  | rejected ↦ str_eq op.op "insert"
  | applied ↦ false
]

abbrev pub is_final : Option String → Bool
is_final none = false
is_final (some code) = is_cacheable code

-- `failed[row] = result`: the latest entry of a row stands first.
abbrev pub noted : Failed → OpInput → OpResult → Failed
noted failed op r =
    if is_final r.code && breaks_chain op r then ((op.table, op.row_id), r) ∷ failed else failed

module _ (db : Database) (now : ℤ) (actor : User) (device_id : String)
    (branch_id : Option String) where
  -- The loop of `_push_one`, where no other push db now actor device_id branch_id runs.
  unfoldable pub decide : Tables → OpInput → Pushed OpResult
  unfolding apply decide_error
  decide s op = elim (apply db now s actor branch_id op) [
    | ok a ↦ record {
      after = with_op a.after (applied_op op actor device_id a);
      answer = plain op.op_id applied a.seq none a.version;
    }
    | err e ↦ decide_error s actor device_id op (verdict_of e)
  ]

  unfoldable pub push_known : Tables → OpInput → Option ProcessedOp → Pushed OpResult
  unfolding decide replay
  push_known s op none = decide s op
  push_known s op (some prior) =
      if not (is_foreign prior actor)
      then record { after = s; answer = replay s prior actor op }
      else if is_applied prior.result
      then record { after = s; answer = refusal op.op_id "SYNC_OP_ID_TAKEN" }
      else decide (forget s op.op_id) op

  unfoldable pub push_one : Tables → OpInput → Pushed OpResult
  unfolding push_known
  push_one s op =
      if is_uuid op.op_id
      then push_known s op (prior_of s op.op_id)
      else record { after = s; answer = refusal op.op_id "SYNC_OP_INVALID" }

  abbrev pub settle_as : Tables → OpInput → Outcome → Option String → Pushed OpResult
  settle_as s op outcome none = record { after = s; answer = plain op.op_id outcome none none none }
  settle_as s op outcome (some code) = settle s actor device_id op outcome code

  -- A later operation on a broken row takes the verdict of the earlier one.
  unfoldable pub push_after :
      Tables → OpInput → Option ((String × String) × OpResult) → Pushed OpResult
  unfolding push_one settle
  push_after s op none = push_one s op
  push_after s op (some e) =
      if is_some e.1.code && is_uuid op.op_id && not (is_some (prior_of s op.op_id))
      then shown_conflict actor op (settle_as s op e.1.outcome e.1.code)
      else push_one s op

  unfoldable pub push_single : Tables → Failed → OpInput → Pushed (OpResult × Failed)
  unfolding push_after
  push_single s failed op =
      let p = push_after s op (first (failed_row op) failed) in
      record { after = p.after; answer = (p.answer, noted failed op p.answer) }
