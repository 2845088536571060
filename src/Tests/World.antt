-- ===== src/Tests/World.antt =====
-- A small shop: one branch, its owner and a cashier, a product, a customer, a sale, a voided sale
-- and a return.
use dukan_pro.Prelude.{String, true, false, Option, none, some, [], ◌∷◌, if◌then◌else◌}
use dukan_pro.Prelude.Int.{pos, negsuc}
use dukan_pro.Prelude.Text.{str_eq}
use dukan_pro.Domain.Identity.{User, active}
use dukan_pro.Sync.Values.{Fields}
use dukan_pro.Sync.EventTime.{Clock}
use dukan_pro.Sync.Types.{OpInput, Ctx, SyncReader, ProductRef, CustomerRef, SaleRef, SaleLineRef}

-- The ids of the sale, the return, the voided sale, the product, the customer, the branch and the
-- user.
abbrev pub s1 : String
s1 = "00000000-0000-4000-8000-00000000000a"

abbrev pub r1 : String
r1 = "00000000-0000-4000-8000-00000000000b"

abbrev pub w1 : String
w1 = "00000000-0000-4000-8000-00000000000c"

abbrev pub p1 : String
p1 = "00000000-0000-4000-8000-00000000000d"

abbrev pub c1 : String
c1 = "00000000-0000-4000-8000-00000000000e"

abbrev pub b1 : String
b1 = "00000000-0000-4000-8000-00000000000f"

abbrev pub u1 : String
u1 = "00000000-0000-4000-8000-000000000009"

abbrev user : String → User
user role = record {
  id = u1;
  username = "ali";
  display_name = "Ali";
  status = active;
  assignments = record { branch_id = b1; role_name = role } ∷ [];
  default_branch_id = some b1;
  version = 1;
}

abbrev pub owner : User
owner = user "owner"

abbrev pub cashier_user : User
cashier_user = user "cashier"

-- A reader of times that knows one, a second after the epoch.
abbrev pub iso : Clock
iso text =
    if str_eq text "1970-01-01T00:00:01+00:00"
    then some (record { aware = true; at = pos 1000000 })
    else none

abbrev pub sold : SaleRef
sold = record {
  id = s1;
  branch_id = b1;
  created_by = some u1;
  customer_id = some c1;
  currency = "AFN";
  subtotal_minor = pos 1000;
  total_minor = pos 1000;
  paid_minor = pos 600;
  occurred_at = pos 0;
  status = "settled";
  refund_of = none;
  shift_id = none;
}

abbrev pub voided : SaleRef
voided = record sold { id = w1; status = "voided" }

-- A return of half of the sale.
abbrev pub refund : SaleRef
refund = record sold {
  id = r1;
  subtotal_minor = negsuc 499;
  total_minor = negsuc 499;
  paid_minor = negsuc 99;
  refund_of = some s1;
}

abbrev pub rice : ProductRef
rice = record {
  id = p1;
  deleted = false;
  track_stock = true;
  sell_price_minor = pos 100;
  cost_minor = some (pos 60);
  decimal_places = some 0;
}

abbrev pub zahra : CustomerRef
zahra = record {
  id = c1;
  deleted = false;
  currency = "AFN";
  credit_limit_minor = none;
  is_active = true;
}

abbrev pub rice_line : SaleLineRef
rice_line = record {
  qty_minor = pos 10;
  value_minor = pos 1000;
  unit_price_minor = pos 100;
  unit_cost_minor = pos 60;
  decimal_places = 0;
}

abbrev sales : String → Option SaleRef
sales id =
    if str_eq id s1
    then some sold
    else if str_eq id r1
    then some refund
    else if str_eq id w1
    then some voided
    else none

-- The lines of the sale and of the return are all there; nothing was paid, charged or moved yet, but
-- for four pieces that the sale took from stock.
abbrev pub reader : SyncReader
reader = record {
  product = λ id. if str_eq id p1 then some rice else none;
  unit_exists = λ id. true;
  shop_currencies = "AFN" ∷ [];
  shift = λ id. none;
  open_shifts = λ user branch. [];
  shift_expected_cash = λ id. pos 500;
  barcode_taken = λ code. false;
  sku_taken = λ sku. false;
  supplier_balance = λ id. pos 0;
  customer = λ id. if str_eq id c1 then some zahra else none;
  customer_balance = λ id. pos 0;
  supplier = λ id. none;
  sale = sales;
  sale_lines_total = λ id. if str_eq id r1 then negsuc 499 else pos 1000;
  sale_line_qty = λ id product. if str_eq id r1 then negsuc 4 else pos 10;
  sale_stock_out_qty = λ id product. pos 4;
  sale_payments_total = λ id. pos 0;
  sale_charges_total = λ id. pos 0;
  sale_has_refunds = λ id. false;
  sale_refunds_total = λ id. pos 0;
  sale_line_ref = λ id product. some rice_line;
  refunded_qty = λ id product. pos 0;
  returned_stock_qty = λ kind id product. pos 0;
  sale_reversed_debt = λ id. pos 0;
  sale_cash_taken = λ id. pos 0;
  branch_active = λ id. true;
  sale_number_taken = λ branch number. false;
  recent_sell_prices = λ id since. [];
}

abbrev pub row_id : String
row_id = "0a000000-0000-4000-8000-000000000001"

-- An operation on a table, pushed without an actor or a time.
abbrev pub operation : String → String → String → Fields → OpInput
operation table op id fields = record {
  op_id = "0b000000-0000-4000-8000-000000000001";
  table = table;
  row_id = id;
  op = op;
  fields = fields;
  base_version = some (pos 1);
  actor_id = none;
  created_at = none;
  tx_id = none;
}

abbrev pub context_of : SyncReader → OpInput → Ctx
context_of r op = record {
  op = op;
  actor = owner;
  active_branch = some b1;
  existing = none;
  reader = r;
  now = pos 5000000;
}
