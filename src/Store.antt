-- ===== src/Store.antt =====
-- server/dukan/infrastructure/db/models.py: the tables that the services read and write, each a list
-- of rows in the order of insertion. Of a row stands here what the services read: times, authors
-- and the JSON of the audit decide nothing. `deleted` says that deleted_at is set.
pub mod Queries
pub mod Sums
use dukan_pro.Prelude.{ℕ, String, Bool, Option, List}
use dukan_pro.Prelude.Int.{ℤ}
use dukan_pro.Domain.Customers.{LedgerEntryType}

pub record Branch : Type 0 where
  pub id : String
  pub is_active : Bool
  pub deleted : Bool

pub record Product : Type 0 where
  pub id : String
  pub name : String
  pub unit_id : String
  pub sell_price_minor : ℤ
  pub sell_currency : String
  pub cost_minor : Option ℤ
  pub track_stock : Bool
  pub deleted : Bool

pub record UnitRow : Type 0 where
  pub id : String
  pub decimal_places : ℕ
  pub deleted : Bool

pub record Customer : Type 0 where
  pub id : String
  pub is_active : Bool
  pub currency : String
  pub credit_limit_minor : Option ℤ
  pub deleted : Bool

pub record StockRow : Type 0 where
  pub id : String
  pub product_id : String
  pub branch_id : String
  pub qty_delta : ℤ
  pub reason : String
  pub ref_type : Option String
  pub ref_id : Option String
  pub deleted : Bool

pub record Shift : Type 0 where
  pub id : String
  pub branch_id : String
  pub user_id : String
  pub opening_float_minor : ℤ
  pub counted_cash_minor : Option ℤ
  pub expected_cash_minor : Option ℤ
  pub variance_minor : Option ℤ
  pub status : String
  pub version : ℕ
  pub deleted : Bool

pub record Sale : Type 0 where
  pub id : String
  pub number : String
  pub branch_id : String
  pub shift_id : Option String
  pub customer_id : Option String
  pub status : String
  pub currency : String
  pub discount_minor : ℤ
  pub subtotal_minor : ℤ
  pub tax_minor : ℤ
  pub total_minor : ℤ
  pub paid_minor : ℤ
  pub change_minor : ℤ
  pub refund_of : Option String
  pub deleted : Bool

pub record LineRow : Type 0 where
  pub id : String
  pub sale_id : String
  pub product_id : String
  pub name : String
  pub qty_minor : ℤ
  pub decimal_places : ℕ
  pub unit_price_minor : ℤ
  pub unit_cost_minor : ℤ
  pub line_total_minor : ℤ
  pub currency : String
  pub deleted : Bool

pub record Payment : Type 0 where
  pub id : String
  pub sale_id : String
  pub method : String
  pub amount_minor : ℤ
  pub currency : String
  pub tendered_minor : Option ℤ
  pub change_minor : Option ℤ
  pub deleted : Bool

-- customer_ledger; `type` holds one of the texts of LedgerEntryType.
pub record LedgerRow : Type 0 where
  pub id : String
  pub customer_id : String
  pub shift_id : Option String
  pub method : Option String
  pub type : LedgerEntryType
  pub amount_minor : ℤ
  pub currency : String
  pub ref_type : Option String
  pub ref_id : Option String
  pub deleted : Bool

pub record SupplierRow : Type 0 where
  pub supplier_id : String
  pub shift_id : Option String
  pub method : Option String
  pub type : String
  pub amount_minor : ℤ
  pub deleted : Bool

pub record AuditEntry : Type 0 where
  pub action : String
  pub actor_id : String
  pub entity_id : String

-- A row of change_log, by the row that it is the image of.
pub record Logged : Type 0 where
  pub table : String
  pub row_id : String
  pub op : String
  pub branch_id : Option String

-- `record_change`: an image of the row.
abbrev pub logged : String → String → Option String → String → Logged
logged table op branch_id row_id = record {
  table = table;
  row_id = row_id;
  op = op;
  branch_id = branch_id;
}

-- `next` counts the ids that were taken.
pub record Store : Type 0 where
  pub branches : List Branch
  pub products : List Product
  pub units : List UnitRow
  pub customers : List Customer
  pub sales : List Sale
  pub lines : List LineRow
  pub moves : List StockRow
  pub payments : List Payment
  pub ledger : List LedgerRow
  pub supplier_ledger : List SupplierRow
  pub shifts : List Shift
  pub audit : List AuditEntry
  pub feed : List Logged
  pub next : ℕ
