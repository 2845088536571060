-- ===== src/Sync/Types.antt =====
-- The records of server/dukan/application/sync.py and sync_policy.py, and the `SyncReader` port.
-- Instants are integers, microseconds of UTC.
use dukan_pro.Prelude.{ℕ, String, Bool, Option, none, List}
use dukan_pro.Prelude.Int.{ℤ}
use dukan_pro.Domain.Identity.{User}
use dukan_pro.Sync.Values.{Fields}

pub record OpInput : Type 0 where
  pub op_id : String
  pub table : String
  pub row_id : String
  pub op : String
  pub fields : Fields  -- `data`
  pub base_version : Option ℤ
  pub actor_id : Option String
  pub created_at : Option String
  pub tx_id : Option String

pub record ProductRef : Type 0 where
  pub id : String
  pub deleted : Bool
  pub track_stock : Bool
  pub sell_price_minor : ℤ
  pub cost_minor : Option ℤ
  pub decimal_places : Option ℕ

pub record CustomerRef : Type 0 where
  pub id : String
  pub deleted : Bool
  pub currency : String
  pub credit_limit_minor : Option ℤ
  pub is_active : Bool

pub record SupplierRef : Type 0 where
  pub id : String
  pub deleted : Bool
  pub currency : String

pub record SaleRef : Type 0 where
  pub id : String
  pub branch_id : String
  pub created_by : Option String
  pub customer_id : Option String
  pub currency : String
  pub subtotal_minor : ℤ
  pub total_minor : ℤ
  pub paid_minor : ℤ
  pub occurred_at : ℤ
  pub status : String
  pub refund_of : Option String
  pub shift_id : Option String

pub record SaleLineRef : Type 0 where
  pub qty_minor : ℤ
  pub value_minor : ℤ
  pub unit_price_minor : ℤ
  pub unit_cost_minor : ℤ
  pub decimal_places : ℕ

pub record ShiftRef : Type 0 where
  pub id : String
  pub branch_id : String
  pub user_id : String
  pub status : String

-- The lookups that the policy makes, over the state of the database when an operation is planned.
-- A set is a list.
pub record SyncReader : Type 0 where
  pub product : String → Option ProductRef
  pub unit_exists : String → Bool
  pub shop_currencies : List String
  pub shift : String → Option ShiftRef
  pub open_shifts : String → String → List String
  pub shift_expected_cash : String → ℤ
  pub barcode_taken : String → Bool
  pub sku_taken : String → Bool
  pub supplier_balance : String → ℤ
  pub customer : String → Option CustomerRef
  pub customer_balance : String → ℤ
  pub supplier : String → Option SupplierRef
  pub sale : String → Option SaleRef
  pub sale_lines_total : String → ℤ
  pub sale_line_qty : String → String → ℤ
  pub sale_stock_out_qty : String → String → ℤ
  pub sale_payments_total : String → ℤ
  pub sale_charges_total : String → ℤ
  pub sale_has_refunds : String → Bool
  pub sale_refunds_total : String → ℤ
  pub sale_line_ref : String → String → Option SaleLineRef
  pub refunded_qty : String → String → ℤ
  pub returned_stock_qty : String → String → String → ℤ
  pub sale_reversed_debt : String → ℤ
  pub sale_cash_taken : String → ℤ
  pub branch_active : String → Bool
  pub sale_number_taken : String → String → Bool
  pub recent_sell_prices : String → ℤ → List ℤ

pub record RowSnapshot : Type 0 where
  pub version : ℤ
  pub deleted : Bool
  pub values : Fields

pub record AuditIntent : Type 0 where
  pub action : String
  pub entity_type : String
  pub after : Fields
  pub before : Option Fields

pub record ApplyPlan : Type 0 where
  pub values : Fields
  pub auth_branch_id : String
  pub row_branch_id : Option String
  pub audit : AuditIntent
  pub noop : Bool
  pub compare_version : Bool

-- `_Ctx`
pub record Ctx : Type 0 where
  pub op : OpInput
  pub actor : User
  pub active_branch : Option String
  pub existing : Option RowSnapshot
  pub reader : SyncReader
  pub now : ℤ

-- `AuditIntent(action, entity_type, after)`
abbrev pub audit : String → String → Fields → AuditIntent
audit action entity_type after = record {
  action = action;
  entity_type = entity_type;
  after = after;
  before = none;
}

-- `ApplyPlan(values, auth_branch_id, row_branch_id, audit)`
abbrev pub plan : Fields → String → Option String → AuditIntent → ApplyPlan
plan values auth_branch_id row_branch_id intent = record {
  values = values;
  auth_branch_id = auth_branch_id;
  row_branch_id = row_branch_id;
  audit = intent;
  noop = Bool.false;
  compare_version = Bool.true;
}
