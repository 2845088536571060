-- ===== src/Domain/Inventory.antt =====
-- server/dukan/domain/inventory.py: the stock ledger. Instants are integers, microseconds of UTC.
use dukan_pro.Prelude.{String, Option, none, some, List, [], ◌∷◌, if◌then◌else◌}
use dukan_pro.Prelude.Int.{ℤ, pos, ◌+ℤ◌, negate, ltb_ℤ, leb_ℤ, eqb_ℤ}
use dukan_pro.Prelude.Text.{str_eq}
use dukan_pro.Errors.{Result, ok, ◌>>◌, raise_if, validation, conflict, Code}

pub data StockReason : Type 0 where
  sale purchase adjustment transfer_in transfer_out count returned : StockReason

-- `StockReason(text)`; `none` is its `ValueError`.
unfoldable pub stock_reason : String → Option StockReason
stock_reason s =
    if str_eq s "sale"
    then some sale
    else if str_eq s "purchase"
    then some purchase
    else if str_eq s "adjustment"
    then some adjustment
    else if str_eq s "transfer_in"
    then some transfer_in
    else if str_eq s "transfer_out"
    then some transfer_out
    else if str_eq s "count"
    then some count
    else if str_eq s "returned"
    then some returned
    else none

pub record StockMovement : Type 0 where
  pub id : String
  pub product_id : String
  pub branch_id : String
  pub qty_delta : ℤ
  pub reason : StockReason
  pub occurred_at : ℤ

unfoldable pub on_hand : List StockMovement → ℤ
on_hand [] = pos 0
on_hand (m ∷ ms) = m.qty_delta +ℤ on_hand ms

unfoldable pub sell_from_stock : String → String → String → ℤ → ℤ → ℤ → Result StockMovement
sell_from_stock id product_id branch_id qty available at = do
  raise_if (leb_ℤ qty (pos 0)) (validation Code.stock_invalid_qty)
  raise_if (ltb_ℤ available qty) (conflict Code.stock_insufficient)
  ok (record {
    id = id;
    product_id = product_id;
    branch_id = branch_id;
    qty_delta = negate qty;
    reason = sale;
    occurred_at = at;
  })

unfoldable pub adjust_stock : String → String → String → ℤ → ℤ → Result StockMovement
adjust_stock id product_id branch_id qty_delta at = do
  raise_if (eqb_ℤ qty_delta (pos 0)) (validation Code.stock_invalid_qty)
  ok (record {
    id = id;
    product_id = product_id;
    branch_id = branch_id;
    qty_delta = qty_delta;
    reason = adjustment;
    occurred_at = at;
  })
