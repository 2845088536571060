-- ===== src/SalesService/Settle/Checking.antt =====
-- What `SqlSalesService.settle_sale` checks and works out before it writes.
use dukan_pro.Prelude.{
  ℕ, suc, String, Bool, true, false, not, ◌&&◌, Option, none, some, is_some, List, [], ◌∷◌, map,
  length, ◌==◌, if◌then◌else◌,
}
use dukan_pro.Prelude.Int.{ℤ, pos, ◌+ℤ◌, ◌-ℤ◌, ltb_ℤ, eqb_ℤ}
use dukan_pro.Prelude.Text.{str_eq}
use dukan_pro.Prelude.Dict.{Dict, lookup, insert}
use dukan_pro.Errors.{
  Result, Checked, ok, ◌>>=◌, ◌>>◌, or_raise, raise_if, validation, not_found, Code,
}
use dukan_pro.Access.{require_permission}
use dukan_pro.Domain.Identity.{User, sale_create, sale_discount}
use dukan_pro.Domain.Inventory.{StockMovement, sell_from_stock}
use dukan_pro.Domain.Customers.{assert_customer_can_buy_on_credit, assert_within_credit_limit}
use dukan_pro.Domain.Sales.{
  SaleLine, SaleTotals, assert_sale_lines_valid, compute_totals, assert_discount_valid,
  assert_settleable, assert_payment_valid, assert_sale_not_overpaid,
}
use dukan_pro.Store.{Store, Product, UnitRow, Customer}
use dukan_pro.Store.Queries.{
  first, on_hand, customer_balance, require_active_branch, require_open_shift,
}

pub record SaleLineInput : Type 0 where
  pub product_id : String
  pub qty_minor : ℤ

pub record PaymentInput : Type 0 where
  pub method : String
  pub amount_minor : ℤ
  pub tendered_minor : Option ℤ

-- A line with the product that `products` holds under its id.
pub record Priced : Type 0 where
  pub line : SaleLine
  pub product : Product

abbrev pub product_with : String → Product → Bool
product_with product_id p = str_eq p.id product_id && not p.deleted

abbrev pub unit_with : String → UnitRow → Bool
unit_with unit_id u = str_eq u.id unit_id

abbrev pub customer_with : String → Customer → Bool
customer_with customer_id c = str_eq c.id customer_id && not c.deleted

unfoldable pub decimal_places : Store → String → Result ℕ
decimal_places s unit_id = do
  u ← or_raise (first (unit_with unit_id) s.units) (validation Code.unit_not_found)
  raise_if u.deleted (validation Code.unit_not_found)
  ok u.decimal_places

abbrev pub or_zero : Option ℤ → ℤ
or_zero none = pos 0
or_zero (some n) = n

unfoldable pub priced : Store → SaleLineInput → Result Priced
priced s item = do
  product ←
      or_raise (first (product_with item.product_id) s.products) (not_found Code.product_not_found)
  places ← decimal_places s product.unit_id
  ok (record {
    line = record {
      product_id = product.id;
      name = product.name;
      qty_minor = item.qty_minor;
      decimal_places = places;
      unit_price_minor = product.sell_price_minor;
      unit_cost_minor = or_zero product.cost_minor;
      currency = product.sell_currency;
      track_stock = true;
    };
    product = product;
  })

-- The loop over the lines.
unfoldable pub price_lines : Store → List SaleLineInput → Result (List Priced)
price_lines s [] = ok []
price_lines s (item ∷ items) = do p ← priced s item; ps ← price_lines s items; ok (p ∷ ps)

-- `currency` after the loop: the last line's.
abbrev pub currency_after : String → List Priced → String
currency_after currency [] = currency
currency_after currency (p ∷ ps) = currency_after p.product.sell_currency ps

abbrev pub domain_lines : List Priced → List SaleLine
domain_lines = map (λ (p : Priced). p.line)

unfoldable pub paid_sum : List PaymentInput → ℤ
paid_sum [] = pos 0
paid_sum (p ∷ ps) = p.amount_minor +ℤ paid_sum ps

-- `p.tendered_minor or p.amount_minor`
abbrev pub tendered_or : Option ℤ → ℤ → ℤ
tendered_or none amount = amount
tendered_or (some t) amount = if eqb_ℤ t (pos 0) then amount else t

unfoldable pub change_sum : List PaymentInput → ℤ
change_sum [] = pos 0
change_sum (p ∷ ps) = tendered_or p.tendered_minor p.amount_minor -ℤ p.amount_minor +ℤ change_sum ps

unfoldable pub check_payments : List PaymentInput → Checked
check_payments [] = ok tt
check_payments (p ∷ ps) =
    assert_payment_valid p.method p.amount_minor p.tendered_minor >> check_payments ps

-- `left.get(product_id)`, or what the branch has
abbrev pub available_of : Option ℤ → ℤ → ℤ
available_of none stored = stored
available_of (some left) stored = left

-- The loop that takes the goods, with what is `left` of each product.
unfoldable pub take_stock :
    (ℕ → String) → Store → String → ℤ → ℕ → Dict ℤ → List Priced → Result (List StockMovement)
take_stock new_id s branch_id now n left [] = ok []
take_stock new_id s branch_id now n left (p ∷ ps) =
    let available =
      available_of (lookup p.line.product_id left) (on_hand s p.line.product_id branch_id) in
    elim p.product.track_stock [
      | false ↦ take_stock new_id s branch_id now n left ps
      | true ↦ (do
        m ← sell_from_stock (new_id n) p.line.product_id branch_id p.line.qty_minor available now
        ms ←
            take_stock new_id s branch_id now (suc n)
              (insert p.line.product_id (available -ℤ p.line.qty_minor) left) ps
        ok (m ∷ ms))
    ]

-- What a customer owes for the sale: the part that is not paid, and the checks on it.
unfoldable pub credit_of : Store → Option String → ℤ → ℤ → String → Result ℤ
credit_of s none paid total currency = ok (pos 0)
credit_of s (some customer_id) paid total currency =
    if ltb_ℤ paid total
    then (do
      customer ←
          or_raise (first (customer_with customer_id) s.customers)
            (not_found Code.customer_not_found)
      assert_customer_can_buy_on_credit customer.is_active customer.currency currency
      assert_within_credit_limit (customer_balance s customer_id) (total -ℤ paid)
          customer.credit_limit_minor
      ok (total -ℤ paid))
    else ok (pos 0)

-- What the sale writes, once every check has passed.
pub record Settled : Type 0 where
  pub branch_id : String
  pub actor_id : String
  pub shift_id : Option String
  pub customer_id : Option String
  pub currency : String
  pub discount_minor : ℤ
  pub totals : SaleTotals
  pub paid : ℤ
  pub change : ℤ
  pub credit : ℤ
  pub lines : List Priced
  pub moves : List StockMovement
  pub payments : List PaymentInput

abbrev pub settled_of :
    User
    → String
    → ℤ
    → List PaymentInput
    → Option String
    → Option String
    → List Priced
    → List StockMovement
    → ℤ
    → Settled
settled_of actor branch_id discount payments shift_id customer_id lines moves credit = record {
  branch_id = branch_id;
  actor_id = actor.id;
  shift_id = shift_id;
  customer_id = customer_id;
  currency = currency_after "AFN" lines;
  discount_minor = discount;
  totals = compute_totals (domain_lines lines) discount;
  paid = paid_sum payments;
  change = change_sum payments;
  credit = credit;
  lines = lines;
  moves = moves;
  payments = payments;
}

unfoldable pub check_shift : Store → Option String → String → String → Checked
check_shift s none user_id branch_id = ok tt
check_shift s (some shift_id) user_id branch_id =
    require_open_shift s shift_id user_id branch_id >>= λ _. ok tt

-- The checks, in the order of the code, and the amounts that they compute.
unfoldable pub check_sale :
    (ℕ → String)
    → Store
    → User
    → String
    → List SaleLineInput
    → ℤ
    → List PaymentInput
    → Option String
    → Option String
    → ℤ
    → Result Settled
check_sale new_id s actor branch_id items discount payments shift_id customer_id now = do
  require_permission actor sale_create branch_id
  require_active_branch s branch_id
  raise_if (length items == 0) (validation Code.sale_empty)
  check_shift s shift_id actor.id branch_id
  lines ← price_lines s items
  let currency = currency_after "AFN" lines
  assert_sale_lines_valid (domain_lines lines) currency
  let totals = compute_totals (domain_lines lines) discount
  assert_discount_valid discount totals.subtotal_minor
  if ltb_ℤ (pos 0) discount then require_permission actor sale_discount branch_id else ok tt
  let paid = paid_sum payments
  assert_settleable (domain_lines lines) totals.total_minor paid currency (is_some customer_id)
  check_payments payments
  assert_sale_not_overpaid paid totals.total_minor
  moves ← take_stock new_id s branch_id now s.next [] lines
  credit ← credit_of s customer_id paid totals.total_minor currency
  ok (settled_of actor branch_id discount payments shift_id customer_id lines moves credit)
