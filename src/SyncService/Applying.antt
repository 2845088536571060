-- ===== src/SyncService/Applying.antt =====
-- server/dukan/infrastructure/sync_service.py: `_apply`, over the rows of the synced tables, the
-- feed, the audit trail and the records of operations. `reader` is what _SqlSyncReader reads of the
-- tables, `clashes` the unique indexes and `next_seq` the sequence of change_log, whose rows are kept
-- without their post-image.
use dukan_pro.Prelude.{
  ℕ, String, Bool, true, false, not, ◌&&◌, ◌||◌, Option, none, some, List, [], ◌∷◌, ◌++◌,
  if◌then◌else◌,
}
use dukan_pro.Prelude.Int.{ℤ, pos, ◌+ℤ◌, eqb_ℤ}
use dukan_pro.Prelude.Text.{str_eq, str_mem}
use dukan_pro.Prelude.Dict.{insert, lookup}
use dukan_pro.Errors.{Result, ok, err, ◌>>=◌, ◌>>◌, crash, sync_conflict, Code}
use dukan_pro.Domain.Identity.{User}
use dukan_pro.Store.{Logged, logged}
use dukan_pro.Store.Queries.{first}
use dukan_pro.Accounts.Updates.{update_first}
use dukan_pro.Sync.Values.{Fields, Value}
use dukan_pro.Sync.EventTime.{Clock}
use dukan_pro.Sync.Types.{OpInput, SyncReader, RowSnapshot, ApplyPlan}
use dukan_pro.Sync.Guards.{master_tables}
use dukan_pro.Sync.Dispatch.{check_envelope, plan_op}

pub data Outcome : Type 0 where
  applied conflicted rejected : Outcome

pub record OpResult : Type 0 where
  pub op_id : String
  pub outcome : Outcome
  pub server_seq : Option ℕ
  pub code : Option String
  pub version : Option ℤ
  pub current : Option Fields

-- A row of a synced table: its columns that the feed reads, and the server's own.
pub record Row : Type 0 where
  pub table : String
  pub id : String
  pub version : ℤ
  pub deleted : Bool
  pub values : Fields

pub record ProcessedOp : Type 0 where
  pub op_id : String
  pub result : Outcome
  pub server_seq : Option ℕ
  pub code : Option String
  pub version : Option ℤ
  pub actor_id : Option String
  pub device_id : String

-- `audit` holds the actions with the rows that they are of.
pub record Tables : Type 0 where
  pub rows : List Row
  pub feed : List Logged
  pub audit : List (String × String)
  pub processed : List ProcessedOp

pub record Database : Type 0 where
  pub iso : Clock
  pub reader : Tables → SyncReader
  pub clashes : Tables → Row → Bool
  pub next_seq : Tables → ℕ

abbrev pub row_at : String → String → Row → Bool
row_at table row_id r = str_eq r.table table && str_eq r.id row_id

abbrev pub snapshot : Option Row → Option RowSnapshot
snapshot none = none
snapshot (some r) = some (record { version = r.version; deleted = r.deleted; values = r.values })

abbrev pub version_of : Option Row → Option ℤ
version_of none = none
version_of (some r) = some r.version

-- `{**values, **new}`
unfoldable pub merged : Fields → Fields → Fields
merged values [] = values
merged values ((k, v) ∷ new) = merged (insert k v values) new

-- What an operation that was applied answers.
pub record Applied : Type 0 where
  pub after : Tables
  pub seq : Option ℕ
  pub version : Option ℤ

abbrev pub master_version : String → ℤ → Option ℤ
master_version table version = if str_mem table master_tables then some version else none

-- `record_change` and the audit entry of a row that was written.
abbrev pub recorded : Tables → ℕ → OpInput → ApplyPlan → List Row → ℤ → Applied
recorded s seq op p rows version = record {
  after = record s {
    rows = rows;
    feed = s.feed ++ (logged op.table op.op p.row_branch_id op.row_id ∷ []);
    audit = s.audit ++ ((p.audit.action, op.row_id) ∷ []);
  };
  seq = some seq;
  version = master_version op.table version;
}

abbrev pub inserted_row : OpInput → ApplyPlan → Row
inserted_row op p = record {
  table = op.table;
  id = op.row_id;
  version = pos 1;
  deleted = false;
  values = p.values;
}

abbrev is_version : Option ℤ → ℤ → Bool
is_version none version = false
is_version (some base) version = eqb_ℤ base version

-- The rows that the compare-and-set changes.
abbrev pub to_update : OpInput → ApplyPlan → Row → Bool
to_update op p r =
    row_at op.table op.row_id r
    && not r.deleted
    && (not p.compare_version || is_version op.base_version r.version)

-- Whether deleted_at is set after a write that gives it a value, or none.
abbrev pub deleted_after : Bool → Option Value → Bool
deleted_after before none = before
deleted_after before (some Value.null) = false
deleted_after before (some _) = true

abbrev pub updated_row : ApplyPlan → Row → Row
updated_row p r = record r {
  values = merged r.values p.values;
  deleted = deleted_after r.deleted (lookup "deleted_at" p.values);
  version = r.version +ℤ pos 1;
}

module _ (db : Database) (now : ℤ) where
  -- The write of a plan. An IntegrityError is a crash.
  unfoldable pub write : Tables → OpInput → ApplyPlan → Result Applied
  unfolding merged
  write s op p =
      if p.noop
      then ok (record {
        after = s;
        seq = none;
        version = version_of (first (row_at op.table op.row_id) s.rows);
      })
      else if str_eq op.op "insert"
      then (if db.clashes s (inserted_row op p)
          then err crash
          else ok (recorded s (db.next_seq s) op p (s.rows ++ (inserted_row op p ∷ [])) (pos 1)))
      else elim (first (to_update op p) s.rows) [
        | none ↦ err (sync_conflict (Code.version_conflict op.table))
        | some r ↦ ok (
            recorded s (db.next_seq s) op p (update_first (to_update op p) (updated_row p) s.rows)
              (r.version +ℤ pos 1))
      ]

  unfoldable pub apply : Tables → User → Option String → OpInput → Result Applied
  unfolding write
  apply s actor branch_id op = do
    check_envelope db.iso op actor
    p ←
        plan_op db.iso op actor branch_id (snapshot (first (row_at op.table op.row_id) s.rows))
          (db.reader s) now
    write s op p
