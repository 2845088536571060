-- ===== src/Sync/Fields/Specs.antt =====
-- The allow-lists of server/dukan/application/sync_policy.py: which fields an insert and an update
-- of each table may carry, and of what kind.
use dukan_pro.Prelude.{
  ℕ, String, Bool, true, false, Option, none, some, List, [], ◌∷◌, if◌then◌else◌,
}
use dukan_pro.Prelude.Int.{ℤ, pos}
use dukan_pro.Prelude.Text.{str_eq}
use dukan_pro.Prelude.Dict.{Dict}
use dukan_pro.Domain.Limits.{int32_min, int32_max, money_max, money_min}

pub data Kind : Type 0 where
  str int bool uuid currency enum null : Kind

-- `_Field`
pub record Field : Type 0 where
  pub kind : Kind
  pub required : Bool
  pub nullable : Bool
  pub max_len : ℕ
  pub lo : ℤ
  pub hi : ℤ
  pub choices : List String

-- `_Field(kind)`, and the marks that the constructors below add to it.
abbrev pub field : Kind → Field
field kind = record {
  kind = kind;
  required = false;
  nullable = false;
  max_len = 0;
  lo = int32_min;
  hi = int32_max;
  choices = [];
}

abbrev pub required : Field → Field
required f = record f { required = true }

abbrev pub nullable : Field → Field
nullable f = record f { nullable = true }

abbrev pub text : ℕ → Field
text max_len = record (field Kind.str) { max_len = max_len }

abbrev pub integer : ℤ → ℤ → Field
integer lo hi = record (field Kind.int) { lo = lo; hi = hi }

-- `_int(lo=0, hi=MONEY_MAX)` and `_int(lo=-MONEY_MAX, hi=MONEY_MAX)`
abbrev pub amount : Field
amount = integer (pos 0) money_max

abbrev pub signed : Field
signed = integer money_min money_max

abbrev pub one_of : List String → Field
one_of choices = record (field Kind.enum) { choices = choices }

abbrev pub flag : Field
flag = field Kind.bool

abbrev pub currency_code : Field
currency_code = field Kind.currency

abbrev pub uuid_text : Field
uuid_text = field Kind.uuid

abbrev pub must_be_null : Field
must_be_null = field Kind.null

abbrev money_methods : Field
money_methods = nullable (one_of ("cash" ∷ "card" ∷ "transfer" ∷ []))

abbrev products_insert : Dict Field
products_insert =
    ("sku", required (text 64))
    ∷ ("name", required (text 200))
    ∷ ("unit_id", required uuid_text)
    ∷ ("category_id", must_be_null)
    ∷ ("sell_price_minor", amount)
    ∷ ("sell_currency", currency_code)
    ∷ ("cost_minor", must_be_null)
    ∷ ("cost_currency", must_be_null)
    ∷ ("track_stock", flag)
    ∷ ("is_active", flag)
    ∷ []

abbrev barcodes_insert : Dict Field
barcodes_insert =
    ("product_id", required uuid_text) ∷ ("code", required (text 64)) ∷ ("symbology", text 16) ∷ []

abbrev units_insert : Dict Field
units_insert =
    ("name", required (text 48)) ∷ ("decimal_places", required (integer (pos 0) (pos 6))) ∷ []

abbrev customers_insert : Dict Field
customers_insert =
    ("name", required (text 128))
    ∷ ("phone", nullable (text 32))
    ∷ ("credit_limit_minor", nullable amount)
    ∷ ("currency", currency_code)
    ∷ ("is_active", flag)
    ∷ []

abbrev suppliers_insert : Dict Field
suppliers_insert =
    ("name", required (text 128))
    ∷ ("phone", nullable (text 32))
    ∷ ("currency", currency_code)
    ∷ ("is_active", flag)
    ∷ []

abbrev stock_reasons : List String
stock_reasons =
    "sale" ∷ "purchase" ∷ "adjustment" ∷ "transfer_in" ∷ "transfer_out" ∷ "count" ∷ "returned" ∷ []

abbrev stock_movements_insert : Dict Field
stock_movements_insert =
    ("product_id", required uuid_text)
    ∷ ("branch_id", required uuid_text)
    ∷ ("qty_delta", required signed)
    ∷ ("reason", required (one_of stock_reasons))
    ∷ ("ref_type", nullable (one_of ("sale" ∷ "void" ∷ "refund" ∷ [])))
    ∷ ("ref_id", nullable uuid_text)
    ∷ []

abbrev sales_insert : Dict Field
sales_insert =
    ("number", required (text 32))
    ∷ ("branch_id", required uuid_text)
    ∷ ("shift_id", nullable uuid_text)
    ∷ ("customer_id", nullable uuid_text)
    ∷ ("status", one_of ("settled" ∷ []))
    ∷ ("currency", currency_code)
    ∷ ("discount_minor", signed)
    ∷ ("subtotal_minor", required signed)
    ∷ ("tax_minor", amount)
    ∷ ("total_minor", required signed)
    ∷ ("paid_minor", required signed)
    ∷ ("change_minor", amount)
    ∷ ("refund_of", nullable uuid_text)
    ∷ ("refund_reason", nullable (text 200))
    ∷ []

abbrev sale_lines_insert : Dict Field
sale_lines_insert =
    ("sale_id", required uuid_text)
    ∷ ("product_id", required uuid_text)
    ∷ ("name", required (text 200))
    ∷ ("qty_minor", required signed)
    ∷ ("decimal_places", integer (pos 0) (pos 6))
    ∷ ("unit_price_minor", required amount)
    ∷ ("unit_cost_minor", signed)
    ∷ ("line_total_minor", required signed)
    ∷ ("currency", currency_code)
    ∷ []

abbrev payments_insert : Dict Field
payments_insert =
    ("sale_id", required uuid_text)
    ∷ ("method", required (one_of ("cash" ∷ "card" ∷ "transfer" ∷ "credit" ∷ [])))
    ∷ ("amount_minor", required signed)
    ∷ ("currency", currency_code)
    ∷ ("tendered_minor", nullable amount)
    ∷ ("change_minor", nullable amount)
    ∷ []

abbrev customer_ledger_insert : Dict Field
customer_ledger_insert =
    ("customer_id", required uuid_text)
    ∷ ("type", required (one_of ("opening" ∷ "charge" ∷ "payment" ∷ "adjustment" ∷ [])))
    ∷ ("amount_minor", required signed)
    ∷ ("currency", currency_code)
    ∷ ("ref_type", nullable (one_of ("sale" ∷ "manual" ∷ "write_off" ∷ "void" ∷ "refund" ∷ [])))
    ∷ ("ref_id", nullable uuid_text)
    ∷ ("shift_id", nullable uuid_text)
    ∷ ("method", money_methods)
    ∷ []

abbrev supplier_ledger_insert : Dict Field
supplier_ledger_insert =
    ("supplier_id", required uuid_text)
    ∷ ("type", required (one_of ("bill" ∷ "payment" ∷ "adjustment" ∷ [])))
    ∷ ("amount_minor", required (integer (pos 1) money_max))
    ∷ ("currency", currency_code)
    ∷ ("ref_type", must_be_null)
    ∷ ("ref_id", must_be_null)
    ∷ ("shift_id", nullable uuid_text)
    ∷ ("method", money_methods)
    ∷ []

abbrev shifts_insert : Dict Field
shifts_insert =
    ("branch_id", required uuid_text)
    ∷ ("user_id", required uuid_text)
    ∷ ("opening_float_minor", amount)
    ∷ ("status", one_of ("open" ∷ []))
    ∷ []

-- `_INSERT.get(table)`
unfoldable pub insert_spec : String → Option (Dict Field)
insert_spec table =
    if str_eq table "products"
    then some products_insert
    else if str_eq table "barcodes"
    then some barcodes_insert
    else if str_eq table "units"
    then some units_insert
    else if str_eq table "customers"
    then some customers_insert
    else if str_eq table "suppliers"
    then some suppliers_insert
    else if str_eq table "stock_movements"
    then some stock_movements_insert
    else if str_eq table "sales"
    then some sales_insert
    else if str_eq table "sale_lines"
    then some sale_lines_insert
    else if str_eq table "payments"
    then some payments_insert
    else if str_eq table "customer_ledger"
    then some customer_ledger_insert
    else if str_eq table "supplier_ledger"
    then some supplier_ledger_insert
    else if str_eq table "shifts"
    then some shifts_insert
    else none

abbrev products_update : Dict Field
products_update =
    ("sku", text 64)
    ∷ ("name", text 200)
    ∷ ("sell_price_minor", amount)
    ∷ ("sell_currency", currency_code)
    ∷ ("is_active", flag)
    ∷ ("cost_minor", amount)
    ∷ ("track_stock", flag)
    ∷ []

abbrev customers_update : Dict Field
customers_update =
    ("name", text 128)
    ∷ ("phone", nullable (text 32))
    ∷ ("credit_limit_minor", nullable amount)
    ∷ ("is_active", flag)
    ∷ []

abbrev shifts_update : Dict Field
shifts_update = ("status", one_of ("closed" ∷ [])) ∷ ("counted_cash_minor", amount) ∷ []

abbrev sales_update : Dict Field
sales_update =
    ("status", required (one_of ("voided" ∷ []))) ∷ ("void_reason", required (text 200)) ∷ []

-- `_UPDATE.get(table)`
unfoldable pub update_spec : String → Option (Dict Field)
update_spec table =
    if str_eq table "products"
    then some products_update
    else if str_eq table "customers"
    then some customers_update
    else if str_eq table "shifts"
    then some shifts_update
    else if str_eq table "barcodes"
    then some (("deleted", flag) ∷ [])
    else if str_eq table "sales"
    then some sales_update
    else none
