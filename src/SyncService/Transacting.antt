-- ===== src/SyncService/Transacting.antt =====
-- server/dukan/infrastructure/sync_service.py: `_push_together`, the ledger rows of one device
-- transaction.
use dukan_pro.Prelude.{
  ℕ, suc, ◌-◌, zero, String, Bool, false, not, ◌||◌, Option, none, some, is_some, List, [], ◌∷◌,
  ◌++◌, map, any, length, if◌then◌else◌,
}
use dukan_pro.Prelude.Int.{ℤ}
use dukan_pro.Prelude.Text.{str_eq}
use dukan_pro.Errors.{ok, err}
use dukan_pro.Domain.Identity.{User}
use dukan_pro.Sync.Types.{OpInput}
use dukan_pro.Sync.Fields.{is_uuid}
use dukan_pro.Sync.Pull.{is_cacheable}
use dukan_pro.SyncService.Applying.{
  Outcome, OpResult, ProcessedOp, Tables, Database, Applied, apply, rejected,
}
use dukan_pro.SyncService.Settling.{
  prior_of, plain, refusal, Pushed, settle, applied_op, verdict_of, shown_conflict,
}
use dukan_pro.SyncService.Deciding.{push_one}

-- What one database transaction makes of the operations: all, or the position that failed.
pub data Together : Type 0 where
  all_applied : Tables → List Applied → Together
  failed_at : ℕ → Option (Outcome × String) → Together

abbrev pub and_before : Applied → Together → Together
and_before a (all_applied s answers) = all_applied s (a ∷ answers)
and_before a (failed_at i verdict) = failed_at (suc i) verdict

abbrev pub answer_of : ProcessedOp → OpResult
answer_of x = plain x.op_id x.result x.server_seq x.code x.version

abbrev pub verdict_or_invalid : Option (Outcome × String) → Outcome × String
verdict_or_invalid none = (rejected, "ROW_INVALID")
verdict_or_invalid (some v) = v

abbrev pub sibling_code : String → String
sibling_code code = if is_cacheable code then "SYNC_TX_ABORTED" else code

abbrev pub one_less : Option ℕ → Option ℕ
one_less (some (suc i)) = some i
one_less _ = none

-- Two operations with one id: the commit's IntegrityError.
abbrev pub has_twin : List OpInput → Bool
has_twin [] = false
has_twin (op ∷ ops) = any (λ (o : OpInput). str_eq o.op_id op.op_id) ops || has_twin ops

module _ (db : Database) (now : ℤ) (actor : User) (device_id : String)
    (branch_id : Option String) where
  -- `[self._push_one(…, o) for o in ops]`
  unfoldable pub push_each : Tables → List OpInput → Pushed (List OpResult)
  unfolding push_one
  push_each s [] = record { after = s; answer = [] }
  push_each s (op ∷ ops) =
      let p = push_one db now actor device_id branch_id s op in
      let rest = push_each p.after ops in
      record { after = rest.after; answer = p.answer ∷ rest.answer }

  unfoldable pub apply_all : Tables → List OpInput → Together
  unfolding apply
  apply_all s [] = all_applied s []
  apply_all s (op ∷ ops) = elim (apply db now s actor branch_id op) [
    | ok a ↦ and_before a (apply_all a.after ops)
    | err e ↦ failed_at 0 (verdict_of e)
  ]

  abbrev pub zip_applied : List OpInput → List Applied → List ProcessedOp
  zip_applied [] answers = []
  zip_applied (op ∷ ops) [] = []
  zip_applied (op ∷ ops) (a ∷ answers) = applied_op op actor device_id a ∷ zip_applied ops answers

  -- The answer of the operation that failed, at 0 from here, or of a sibling.
  unfoldable pub abort_one : Tables → Option ℕ → Outcome × String → OpInput → Pushed OpResult
  unfolding settle
  abort_one s (some zero) verdict op =
      shown_conflict actor op (settle s actor device_id op verdict.0 verdict.1)
  abort_one s _ verdict op = settle s actor device_id op rejected (sibling_code verdict.1)

  unfoldable pub abort :
      Tables → Option ℕ → Outcome × String → List OpInput → Pushed (List OpResult)
  unfolding abort_one
  abort s i verdict [] = record { after = s; answer = [] }
  abort s i verdict (op ∷ ops) =
      let p = abort_one s i verdict op in
      let rest = abort p.after (one_less i) verdict ops in
      record { after = rest.after; answer = p.answer ∷ rest.answer }

  -- Ids that cannot be recorded take the whole transaction with them.
  abbrev pub invalid_one : Tables → OpInput → Pushed OpResult
  invalid_one s op =
      if is_uuid op.op_id
      then settle s actor device_id op rejected "SYNC_TX_ABORTED"
      else record { after = s; answer = refusal op.op_id "SYNC_OP_INVALID" }

  unfoldable pub abort_invalid : Tables → List OpInput → Pushed (List OpResult)
  unfolding settle
  abort_invalid s [] = record { after = s; answer = [] }
  abort_invalid s (op ∷ ops) =
      let p = invalid_one s op in
      let rest = abort_invalid p.after ops in
      record { after = rest.after; answer = p.answer ∷ rest.answer }

  unfoldable pub finish_together : Tables → List OpInput → Together → Pushed (List OpResult)
  unfolding abort
  finish_together s ops (failed_at i verdict) = abort s (some i) (verdict_or_invalid verdict) ops
  finish_together s ops (all_applied after answers) =
      let entries = zip_applied ops answers in
      if has_twin ops
      then abort s (some (length ops - 1)) (verdict_or_invalid none) ops
      else record {
        after = record after { processed = after.processed ++ entries };
        answer = map answer_of entries;
      }

  unfoldable pub push_together : Tables → List OpInput → Pushed (List OpResult)
  unfolding push_each abort_invalid apply_all finish_together
  push_together s ops =
      if any (λ (o : OpInput). not (is_uuid o.op_id)) ops
      then abort_invalid s ops
      else if any (λ (o : OpInput). is_some (prior_of s o.op_id)) ops
      then push_each s ops
      else finish_together s ops (apply_all s ops)
