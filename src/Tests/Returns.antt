-- ===== src/Tests/Returns.antt =====
-- A return of half of the sale on credit.
use dukan_pro.Prelude.{String, ◌≡◌, refl, true, false, none, some, List, [], ◌∷◌, if◌then◌else◌}
use dukan_pro.Prelude.Int.{pos, ◌+ℤ◌, ◌-ℤ◌, ◌*ℤ◌, ◌≤ℤ◌, negate}
use dukan_pro.Prelude.Text.{is_text, is_blank, is_space}
use dukan_pro.Prelude.Dict.{lookup, insert}
use dukan_pro.Errors.{ok}
use dukan_pro.Access.{require_permission}
use dukan_pro.Domain.Identity.{
  can, is_active, permissions_for, granted, role_permissions, builtin_role_permissions,
}
use dukan_pro.Domain.Branches.{assert_branch_active}
use dukan_pro.Domain.Customers.{signed_amount, signed, ledger_balance}
use dukan_pro.Domain.Sales.{
  assert_refund_valid, assert_wanted, returned_value_minor, refund_total_minor, div_round_half_up,
}
use dukan_pro.Store.{Store, Sale}
use dukan_pro.Store.Queries.{first, sale_with, customer_balance, on_hand, require_active_branch}
use dukan_pro.SalesService.Refunds.{
  RefundLineInput, tally, tally_wanted, less_returned, values_of, values_sum, sum_totals,
  debt_back_of, total_of, check_refund, refund_lines, refund_moves, post_refund, refund_sale,
}
use dukan_pro.SalesService.Refunds.Money.{net, wants_rest, Returned, refund_sale-net}
use dukan_pro.SalesService.Refunds.Goods.{wanted_qty, took_in, refund_sale-on_hand}
use dukan_pro.Tests.World.{owner}
use dukan_pro.Tests.Till.{ids, number, after_sale}

abbrev sold_rice : Store
sold_rice = record after_sale {
  lines =
      record {
        id = "n1";
        sale_id = "s1";
        product_id = "rice";
        name = "rice";
        qty_minor = pos 2;
        decimal_places = 0;
        unit_price_minor = pos 500;
        unit_cost_minor = pos 300;
        line_total_minor = pos 1000;
        currency = "AFN";
        deleted = false;
      }
      ∷ [];
}

abbrev one_rice : List RefundLineInput
one_rice = record { product_id = "rice"; qty_minor = pos 1 } ∷ []

-- Of its 500, 300 are still owed and come off the debt.
half_back :
    (after : Store) × (refund_sale ids number sold_rice owner "s1" one_rice "torn" "card" none
      ≡ ok after)
unfolding refund_sale check_refund require_permission can is_active permissions_for granted
    role_permissions builtin_role_permissions require_active_branch assert_branch_active tally
    tally_wanted less_returned values_of values_sum sum_totals debt_back_of total_of
    assert_refund_valid assert_wanted returned_value_minor refund_total_minor div_round_half_up
    refund_lines post_refund refund_moves is_blank is_space customer_balance ledger_balance signed
    signed_amount lookup insert ◌+ℤ◌ ◌-ℤ◌ ◌*ℤ◌ negate
half_back = (_, refl)

refund_sale-net_example :
    (sale refund : Sale) × Returned sold_rice half_back.0 "s1" sale refund
    × (pos 0 ≤ℤ net half_back.0 sale)
    × (wants_rest sold_rice sale one_rice ≡ true → net half_back.0 sale ≡ pos 0)
    × ((k : String)
        → (customer_balance half_back.0 k
            ≡ customer_balance sold_rice k
              -ℤ (if is_text sale.customer_id k
                  then refund.paid_minor -ℤ refund.total_minor
                  else pos 0))
          × (pos 0 ≤ℤ customer_balance sold_rice k → pos 0 ≤ℤ customer_balance half_back.0 k))
refund_sale-net_example =
    refund_sale-net ids number sold_rice half_back.0 owner "s1" one_rice "torn" "card" none
      half_back.1

refund_sale-on_hand_example :
    (sale : Sale) × (first (sale_with "s1") sold_rice.sales ≡ some sale)
    × ((product_id branch_id : String)
        → on_hand half_back.0 product_id branch_id
          ≡ on_hand sold_rice product_id branch_id
            +ℤ (if took_in sold_rice sale product_id branch_id
                then wanted_qty product_id one_rice
                else pos 0))
refund_sale-on_hand_example =
    refund_sale-on_hand ids number sold_rice half_back.0 owner "s1" one_rice "torn" "card" none
      half_back.1
