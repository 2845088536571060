-- ===== src/Sync/Dispatch.antt =====
-- `_HANDLERS`, `check_envelope` and `plan_op` of server/dukan/application/sync_policy.py.
pub mod Envelope
pub mod Planned
use dukan_pro.Prelude.{
  String, Bool, true, false, not, ◌||◌, ◌&&◌, Option, none, some, List, [], ◌∷◌, if◌then◌else◌,
  is_some,
}
use dukan_pro.Prelude.Int.{ℤ, pos, leb_ℤ}
use dukan_pro.Prelude.Text.{str_eq, str_mem}
use dukan_pro.Prelude.Dict.{Dict, lookup, insert}
use dukan_pro.Errors.{
  or_raise, Result, Checked, ok, err, crash, ◌>>=◌, ◌>>◌, raise_if, validation, permission_denied,
  Code,
}
use dukan_pro.Domain.Limits.{int32_max}
use dukan_pro.Domain.Branches.{assert_branch_active}
use dukan_pro.Domain.Identity.{User}
use dukan_pro.Sync.Values.{Value, Fields}
use dukan_pro.Sync.Types.{OpInput, Ctx, SyncReader, RowSnapshot, ApplyPlan}
use dukan_pro.Sync.Fields.{clean_fields, is_uuid}
use dukan_pro.Sync.EventTime.{Clock, event_time, parse_recorded_at}
use dukan_pro.Sync.Guards.{master_tables}
use dukan_pro.Sync.Handlers.Catalog.{
  products_insert, products_update, barcodes_insert, barcodes_update, units_insert,
}
use dukan_pro.Sync.Handlers.Parties.{customers_insert, customers_update, suppliers_insert}
use dukan_pro.Sync.Handlers.Stock.{stock_insert}
use dukan_pro.Sync.Handlers.Sales.{sales_insert, sales_update}
use dukan_pro.Sync.Handlers.Lines.{sale_lines_insert}
use dukan_pro.Sync.Handlers.Payments.{payments_insert}
use dukan_pro.Sync.Handlers.Shifts.{shifts_insert, shifts_update}
use dukan_pro.Sync.Handlers.Debts.{customer_ledger_insert}
use dukan_pro.Sync.Handlers.Suppliers.{supplier_ledger_insert}

abbrev pub ledger_tables : List String
ledger_tables =
    "stock_movements" ∷ "sales" ∷ "sale_lines" ∷ "payments" ∷ "customer_ledger" ∷ "supplier_ledger"
    ∷ []

-- `table in SYNC_TABLES`
unfoldable pub is_sync_table : String → Bool
is_sync_table table = str_mem table master_tables || str_mem table ledger_tables

abbrev pub dated_tables : List String
dated_tables = "sales" ∷ "stock_movements" ∷ "customer_ledger" ∷ "supplier_ledger" ∷ []

abbrev pub Handler : Type 0
Handler = Ctx → Fields → Result ApplyPlan

module _ (fromisoformat : Clock) where
  -- The rows of `_HANDLERS` for "insert", and those for "update".
  unfoldable pub insert_handlers : Dict Handler
  insert_handlers =
      ("products", products_insert)
      ∷ ("barcodes", barcodes_insert)
      ∷ ("units", units_insert)
      ∷ ("customers", customers_insert)
      ∷ ("suppliers", suppliers_insert)
      ∷ ("stock_movements", stock_insert)
      ∷ ("sales", sales_insert)
      ∷ ("sale_lines", sale_lines_insert)
      ∷ ("payments", payments_insert)
      ∷ ("shifts", shifts_insert fromisoformat)
      ∷ ("customer_ledger", customer_ledger_insert)
      ∷ ("supplier_ledger", supplier_ledger_insert)
      ∷ []

  unfoldable pub update_handlers : Dict Handler
  update_handlers =
      ("products", products_update)
      ∷ ("barcodes", barcodes_update)
      ∷ ("customers", customers_update)
      ∷ ("sales", sales_update)
      ∷ ("shifts", shifts_update fromisoformat)
      ∷ []

  -- `_HANDLERS.get((table, op))`
  unfoldable pub handler : String → String → Option Handler
  handler table op =
      if str_eq op "insert"
      then lookup table insert_handlers
      else if str_eq op "update"
      then lookup table update_handlers
      else none

  abbrev pub bad_base_version : ℤ → Checked
  bad_base_version base =
      raise_if (not (leb_ℤ (pos 0) base && leb_ℤ base int32_max)) (validation Code.sync_op_invalid)

  -- The base version of an update.
  unfoldable pub check_base_version : Option ℤ → Checked
  check_base_version none = err (validation Code.sync_base_version_required)
  check_base_version (some base) = bad_base_version base

  abbrev pub another_actor : Option String → User → Bool
  another_actor none actor = false
  another_actor (some id) actor = not (str_eq id actor.id)

  abbrev pub unreadable : Option String → Bool
  unreadable none = false
  unreadable (some t) = not (is_some (parse_recorded_at fromisoformat t))

  unfoldable pub check_envelope : OpInput → User → Checked
  check_envelope op actor = do
    raise_if (not (is_uuid op.row_id)) (validation Code.sync_op_invalid)
    raise_if (not (is_sync_table op.table)) (validation Code.unknown_table)
    raise_if (not (str_mem op.op ("insert" ∷ "update" ∷ []))) (validation Code.sync_op_invalid)
    raise_if (not (is_some (handler op.table op.op))) (validation Code.sync_op_unsupported)
    if str_eq op.op "update" then check_base_version op.base_version else ok tt
    raise_if (another_actor op.actor_id actor) (permission_denied Code.sync_actor_mismatch)
    raise_if (unreadable op.created_at) (validation Code.sync_op_invalid)

  abbrev pub context : OpInput → User → Option String → Option RowSnapshot → SyncReader → ℤ → Ctx
  context op actor active_branch existing reader now = record {
    op = op;
    actor = actor;
    active_branch = active_branch;
    existing = existing;
    reader = reader;
    now = now;
  }

  abbrev dated : OpInput → ℤ → ApplyPlan → ApplyPlan
  dated op now p =
      if str_eq op.op "insert" && str_mem op.table dated_tables
      then record p {
        values =
            insert "occurred_at" (Value.time (event_time fromisoformat op.created_at now)) p.values;
      }
      else p

  unfoldable pub plan_op :
      OpInput → User → Option String → Option RowSnapshot → SyncReader → ℤ → Result ApplyPlan
  plan_op op actor active_branch existing reader now = do
    values ← clean_fields op.table op.op op.fields
    h ← or_raise (handler op.table op.op) crash
    p ← h (context op actor active_branch existing reader now) values
    assert_branch_active (reader.branch_active p.auth_branch_id)
    ok (dated op now p)
