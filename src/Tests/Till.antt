-- ===== src/Tests/Till.antt =====
-- A sale of rice on credit and its void, over a shop's tables.
use dukan_pro.Prelude.{
  ℕ, zero, suc, String, ◌≡◌, refl, true, false, Option, none, some, List, [], ◌∷◌, All, any,
}
use dukan_pro.Prelude.Int.{pos, negsuc, ◌+ℤ◌, ◌-ℤ◌, ◌*ℤ◌, ◌≤ℤ◌, ◌<ℤ◌, negate, min_ℤ, max_ℤ}
use dukan_pro.Prelude.Text.{is_blank, is_space}
use dukan_pro.Prelude.Dict.{lookup}
use dukan_pro.Errors.{ok}
use dukan_pro.Access.{require_permission}
use dukan_pro.Domain.Identity.{
  can, is_active, permissions_for, granted, role_permissions, builtin_role_permissions, cashier,
}
use dukan_pro.Domain.Branches.{assert_branch_active}
use dukan_pro.Domain.Inventory.{sell_from_stock}
use dukan_pro.Domain.Customers.{
  LedgerEntryType, assert_customer_can_buy_on_credit, assert_within_credit_limit, ledger_balance,
}
use dukan_pro.Domain.Sales.{
  compute_totals, lines_sum, line_total, line_total_minor, line_total_fits, assert_discount_valid,
  assert_settleable, assert_sale_lines_valid, assert_lines_from, assert_line_valid, is_tender,
  bad_tendered, assert_payment_valid, assert_sale_not_overpaid,
}
use dukan_pro.Store.{Store, Sale, StockRow, LedgerRow}
use dukan_pro.Store.Queries.{select, sum_where, customer_balance, on_hand, require_active_branch}
use dukan_pro.SalesService.Settle.{settle_sale}
use dukan_pro.SalesService.Settle.Checking.{
  SaleLineInput, PaymentInput, decimal_places, priced, price_lines, paid_sum, check_payments,
  take_stock, credit_of, check_shift, check_sale,
}
use dukan_pro.SalesService.Settle.Goods.{takes, taken_qty, settle_sale-on_hand}
use dukan_pro.SalesService.Settle.Credit.{MayOwe, Booked, settle_sale-balance}
use dukan_pro.SalesService.Voids.{charge_of, check_void, void_sale}
use dukan_pro.SalesService.Voids.Debt.{NotNegative, charged_to}
use dukan_pro.SalesService.Voids.Undone.{taken_at, Voidable, void_sale-undone}
use dukan_pro.Tests.World.{cashier_user, owner, b1}

abbrev pub ids : ℕ → String
ids zero = "id0"
ids (suc zero) = "id1"
ids (suc (suc zero)) = "id2"
ids (suc (suc (suc zero))) = "id3"
ids n = "id4"

abbrev buyer : Option String
buyer = some "c1"

abbrev pub number : ℕ → String
number n = "INV"

abbrev delivered : StockRow
delivered = record {
  id = "m0";
  product_id = "rice";
  branch_id = b1;
  qty_delta = pos 10;
  reason = "purchase";
  ref_type = none;
  ref_id = none;
  deleted = false;
}

abbrev pub shop : Store
shop = record {
  branches = record { id = b1; is_active = true; deleted = false } ∷ [];
  products =
      record {
        id = "rice";
        name = "rice";
        unit_id = "kg";
        sell_price_minor = pos 500;
        sell_currency = "AFN";
        cost_minor = some (pos 300);
        track_stock = true;
        deleted = false;
      }
      ∷ [];
  units = record { id = "kg"; decimal_places = 0; deleted = false } ∷ [];
  customers =
      record {
        id = "c1";
        is_active = true;
        currency = "AFN";
        credit_limit_minor = some (pos 1000);
        deleted = false;
      }
      ∷ [];
  sales = [];
  lines = [];
  moves = delivered ∷ [];
  payments = [];
  ledger = [];
  supplier_ledger = [];
  shifts = [];
  audit = [];
  feed = [];
  next = 0;
}

abbrev two_rice : List SaleLineInput
two_rice = record { product_id = "rice"; qty_minor = pos 2 } ∷ []

abbrev in_part : List PaymentInput
in_part = record { method = "cash"; amount_minor = pos 600; tendered_minor = none } ∷ []

-- Two bags for 1000, of which 600 are paid.
two_on_credit :
    (after : Store) × (settle_sale ids number shop cashier_user b1 two_rice
        (pos 0)
        in_part
        none
        buyer
        (pos 0)
      ≡ ok after)
unfolding settle_sale check_sale require_permission can is_active permissions_for granted
    role_permissions builtin_role_permissions cashier require_active_branch assert_branch_active
    check_shift price_lines priced decimal_places assert_sale_lines_valid assert_lines_from
    assert_line_valid line_total_fits compute_totals lines_sum line_total line_total_minor
    assert_discount_valid assert_settleable paid_sum check_payments assert_payment_valid is_tender
    bad_tendered assert_sale_not_overpaid take_stock sell_from_stock on_hand credit_of
    assert_customer_can_buy_on_credit assert_within_credit_limit customer_balance ledger_balance
    lookup ◌+ℤ◌ ◌-ℤ◌ ◌*ℤ◌ negate
two_on_credit = (_, refl)

settle_sale-on_hand_example :
    (on_hand two_on_credit.0 "rice" b1 ≡ on_hand shop "rice" b1 -ℤ taken_qty shop "rice" two_rice)
    × (any (takes shop "rice") two_rice ≡ true → pos 0 ≤ℤ on_hand two_on_credit.0 "rice" b1)
settle_sale-on_hand_example =
    settle_sale-on_hand ids number shop cashier_user b1 two_rice (pos 0) in_part none buyer (pos 0)
      two_on_credit.0 "rice" b1 two_on_credit.1

settle_sale-balance_example :
    (sale : Sale) × Booked shop two_on_credit.0 buyer sale
    × (customer_balance two_on_credit.0 "c1"
        ≡ customer_balance shop "c1" +ℤ (sale.total_minor -ℤ sale.paid_minor))
    × (buyer ≡ none → sale.paid_minor ≡ sale.total_minor)
    × (buyer ≡ some "c1"
        → sale.paid_minor <ℤ sale.total_minor
        → MayOwe shop "c1" (customer_balance two_on_credit.0 "c1"))
settle_sale-balance_example =
    settle_sale-balance ids number shop cashier_user b1 two_rice (pos 0) in_part none buyer (pos 0)
      two_on_credit.0 "c1" two_on_credit.1

abbrev pub sold : Sale
sold = record {
  id = "s1";
  number = "INV";
  branch_id = b1;
  shift_id = none;
  customer_id = some "c1";
  status = "settled";
  currency = "AFN";
  discount_minor = pos 0;
  subtotal_minor = pos 1000;
  tax_minor = pos 0;
  total_minor = pos 1000;
  paid_minor = pos 600;
  change_minor = pos 0;
  refund_of = none;
  deleted = false;
}

abbrev charge : LedgerRow
charge = record {
  id = "l1";
  customer_id = "c1";
  shift_id = none;
  method = none;
  type = LedgerEntryType.charge;
  amount_minor = pos 400;
  currency = "AFN";
  ref_type = some "sale";
  ref_id = some "s1";
  deleted = false;
}

-- What the customer paid of it since.
abbrev paid_back : LedgerRow
paid_back = record charge {
  id = "l2";
  type = LedgerEntryType.payment;
  amount_minor = pos 100;
  ref_type = none;
  ref_id = none;
}

abbrev pub after_sale : Store
after_sale = record shop {
  sales = sold ∷ [];
  moves =
      delivered
      ∷ record {
        id = "m1";
        product_id = "rice";
        branch_id = b1;
        qty_delta = negsuc 1;
        reason = "sale";
        ref_type = some "sale";
        ref_id = some "s1";
        deleted = false;
      }
      ∷ [];
  ledger = charge ∷ paid_back ∷ [];
}

mistake : (after : Store) × (void_sale ids after_sale owner "s1" "a mistake" ≡ ok after)
unfolding void_sale check_void require_permission can is_active permissions_for granted
    role_permissions builtin_role_permissions require_active_branch assert_branch_active is_blank
    is_space
mistake = (_, refl)

void_sale-undone_example :
    (sale : Sale) × Voidable after_sale "s1" sale
    × (All NotNegative (select (charge_of sale.id) after_sale.ledger)
        → (k : String)
        → customer_balance mistake.0 k
          ≡ customer_balance after_sale k
            -ℤ min_ℤ
                (charged_to k (select (charge_of sale.id) after_sale.ledger))
                (max_ℤ (customer_balance after_sale k) (pos 0)))
    × ((product_id branch_id : String)
        → on_hand mistake.0 product_id branch_id
          ≡ on_hand after_sale product_id branch_id
            -ℤ sum_where
                (taken_at sale.id product_id branch_id)
                (λ (m : StockRow). m.qty_delta)
                after_sale.moves)
void_sale-undone_example =
    void_sale-undone ids after_sale mistake.0 owner "s1" "a mistake" mistake.1
