-- ===== src/SyncService/Settling.antt =====
-- server/dukan/infrastructure/sync_service.py: `_settle`, `_replay` and `_current`, the verdict of an
-- operation that failed and the answer of a recorded one.
use dukan_pro.Prelude.{
  ℕ, String, Bool, true, false, not, ◌&&◌, Option, none, some, is_some, [], ◌∷◌, ◌++◌,
  if◌then◌else◌,
}
use dukan_pro.Prelude.Int.{ℤ}
use dukan_pro.Prelude.Text.{str_eq, str_mem, is_text}
use dukan_pro.Prelude.Dict.{insert}
use dukan_pro.Errors.{
  AppError, Result, ok, err, crash, validation, not_found, conflict, permission_denied,
  sync_conflict, infrastructure, auth, rate_limited,
}
use dukan_pro.Domain.Identity.{User}
use dukan_pro.Store.Queries.{select, first}
use dukan_pro.Sync.Values.{Fields, Value}
use dukan_pro.Sync.Types.{OpInput}
use dukan_pro.Sync.Guards.{master_tables}
use dukan_pro.Sync.Pull.{is_cacheable, for_actor, view}
use dukan_pro.SyncService.Codes.{code_text}
use dukan_pro.SyncService.Applying.{
  Outcome, OpResult, Row, ProcessedOp, Tables, row_at, Applied, applied, conflicted, rejected,
}

abbrev pub op_with : String → ProcessedOp → Bool
op_with op_id x = str_eq x.op_id op_id

-- `self._s.get(ProcessedOpModel, op_id)`
abbrev pub prior_of : Tables → String → Option ProcessedOp
prior_of s op_id = first (op_with op_id) s.processed

abbrev pub plain : String → Outcome → Option ℕ → Option String → Option ℤ → OpResult
plain op_id outcome server_seq code version = record {
  op_id = op_id;
  outcome = outcome;
  server_seq = server_seq;
  code = code;
  version = version;
  current = none;
}

abbrev pub refusal : String → String → OpResult
refusal op_id code = plain op_id rejected none (some code) none

abbrev readable : Result (Option Fields) → Option Fields
readable (ok fields) = fields
readable (err e) = none

abbrev current_view : User → String → Option Row → Option Fields
current_view actor table none = none
current_view actor table (some r) =
    if r.deleted
    then none
    else readable
        (view (for_actor actor) table none (insert "version" (Value.int r.version) r.values))

-- `_current`
unfoldable pub current_row : Tables → User → OpInput → Option Fields
current_row s actor op =
    if str_mem op.table master_tables
    then current_view actor op.table (first (row_at op.table op.row_id) s.rows)
    else none

abbrev pub with_current : Tables → User → OpInput → OpResult → OpResult
with_current s actor op r = record r { current = current_row s actor op }

abbrev pub is_conflict : Outcome → Bool
is_conflict conflicted = true
is_conflict _ = false

abbrev pub is_applied : Outcome → Bool
is_applied applied = true
is_applied _ = false

unfoldable pub replay : Tables → ProcessedOp → User → OpInput → OpResult
replay s prior actor op =
    let r = plain prior.op_id prior.result prior.server_seq prior.code prior.version in
    if is_conflict prior.result then with_current s actor op r else r

-- The tables after a push, and the answers.
pub record Pushed {ℓ} (V : Type ℓ) : Type ℓ where
  pub after : Tables
  pub answer : V

abbrev pub with_op : Tables → ProcessedOp → Tables
with_op s x = record s { processed = s.processed ++ (x ∷ []) }

abbrev pub settled_op : OpInput → User → String → Outcome → String → ProcessedOp
settled_op op actor device_id outcome code = record {
  op_id = op.op_id;
  result = outcome;
  server_seq = none;
  code = some code;
  version = none;
  actor_id = some actor.id;
  device_id = device_id;
}

-- `_settle`: a record that is there already answers in place of the new one.
unfoldable pub settle : Tables → User → String → OpInput → Outcome → String → Pushed OpResult
settle s actor device_id op outcome code =
    if is_cacheable code
    then elim (prior_of s op.op_id) [
      | some prior ↦ record { after = s; answer = replay s prior actor op }
      | none ↦ record {
        after = with_op s (settled_op op actor device_id outcome code);
        answer = plain op.op_id outcome none (some code) none;
      }
    ]
    else record { after = s; answer = plain op.op_id outcome none (some code) none }

abbrev pub applied_op : OpInput → User → String → Applied → ProcessedOp
applied_op op actor device_id a = record {
  op_id = op.op_id;
  result = applied;
  server_seq = a.seq;
  code = none;
  version = a.version;
  actor_id = some actor.id;
  device_id = device_id;
}

-- The verdict of an error; `none` is an exception that is no AppError.
abbrev pub verdict_of : AppError → Option (Outcome × String)
verdict_of (sync_conflict code) = some (conflicted, code_text code)
verdict_of (validation code) = some (rejected, code_text code)
verdict_of (not_found code) = some (rejected, code_text code)
verdict_of (conflict code) = some (rejected, code_text code)
verdict_of (permission_denied code) = some (rejected, code_text code)
verdict_of (infrastructure code) = some (rejected, code_text code)
verdict_of (auth code) = some (rejected, code_text code)
verdict_of (rate_limited code) = some (rejected, code_text code)
verdict_of crash = none

-- `result = replace(result, current=…)` of a conflict
abbrev pub shown_conflict : User → OpInput → Pushed OpResult → Pushed OpResult
shown_conflict actor op p =
    if is_conflict p.answer.outcome
    then record { after = p.after; answer = with_current p.after actor op p.answer }
    else p

unfoldable pub decide_error :
    Tables → User → String → OpInput → Option (Outcome × String) → Pushed OpResult
unfolding settle
decide_error s actor device_id op none = record {
  after = s;
  answer = refusal op.op_id "ROW_INVALID";
}
decide_error s actor device_id op (some (outcome, code)) =
    let settled = settle s actor device_id op outcome code in
    if is_conflict outcome
    then record {
      after = settled.after;
      answer = with_current settled.after actor op settled.answer;
    }
    else settled

-- Another user's record of the id, that the operation does not answer with.
abbrev pub is_foreign : ProcessedOp → User → Bool
is_foreign prior actor = is_some prior.actor_id && not (is_text prior.actor_id actor.id)

abbrev pub forget : Tables → String → Tables
forget s op_id = record s {
  processed = select (λ (x : ProcessedOp). not (op_with op_id x)) s.processed;
}
