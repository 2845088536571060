-- ===== src/Domain/Purchasing.antt =====
-- server/dukan/domain/purchasing.py: what a receipt costs and what the shop owes its suppliers.
pub mod Receipts
use dukan_pro.Prelude.{ℕ, String, not, ◌||◌, Option, none, some, List, [], ◌∷◌, if◌then◌else◌}
use dukan_pro.Prelude.Int.{ℤ, pos, ◌+ℤ◌, negate, ltb_ℤ, leb_ℤ}
use dukan_pro.Prelude.Text.{str_eq}
use dukan_pro.Errors.{Result, Checked, ok, ◌>>◌, raise_if, validation, conflict, Code}
use dukan_pro.Domain.Limits.{money_max}
use dukan_pro.Domain.Sales.{line_total_minor, line_total_fits}

pub data SupplierEntryType : Type 0 where
  bill payment adjustment : SupplierEntryType

-- `SupplierEntryType(text)`; `none` is its `ValueError`.
unfoldable pub supplier_entry_type : String → Option SupplierEntryType
supplier_entry_type s =
    if str_eq s "bill"
    then some bill
    else if str_eq s "payment"
    then some payment
    else if str_eq s "adjustment"
    then some adjustment
    else none

pub record SupplierLedgerEntry : Type 0 where
  pub id : String
  pub supplier_id : String
  pub type : SupplierEntryType
  pub amount_minor : ℤ
  pub currency : String
  pub occurred_at : ℤ

abbrev signed_amount : SupplierEntryType → ℤ → ℤ
signed_amount payment amount_minor = negate amount_minor
signed_amount _ amount_minor = amount_minor

unfoldable pub signed : SupplierLedgerEntry → ℤ
signed e = signed_amount e.type e.amount_minor

unfoldable pub supplier_balance : List SupplierLedgerEntry → ℤ
supplier_balance [] = pos 0
supplier_balance (e ∷ es) = signed e +ℤ supplier_balance es

pub record ReceiptLine : Type 0 where
  pub product_id : String
  pub qty_minor : ℤ
  pub unit_cost_minor : ℤ
  pub decimal_places : ℕ

unfoldable pub line_cost : ReceiptLine → ℤ
line_cost l = line_total_minor l.unit_cost_minor l.qty_minor l.decimal_places

unfoldable pub assert_receivable : ReceiptLine → Checked
assert_receivable line = do
  raise_if (leb_ℤ line.qty_minor (pos 0) || ltb_ℤ line.unit_cost_minor (pos 0))
      (validation Code.grn_line_invalid)
  raise_if (not (line_total_fits line.unit_cost_minor line.qty_minor line.decimal_places))
      (validation Code.grn_total_too_large)

unfoldable pub costs_sum : List ReceiptLine → ℤ
costs_sum [] = pos 0
costs_sum (l ∷ ls) = line_cost l +ℤ costs_sum ls

unfoldable pub receipt_total : List ReceiptLine → Result ℤ
receipt_total lines =
    let total = costs_sum lines in
    raise_if (ltb_ℤ money_max total) (validation Code.grn_total_too_large) >> ok total

unfoldable pub assert_supplier_payment_valid : ℤ → ℤ → Checked
assert_supplier_payment_valid amount_minor balance_minor = do
  raise_if (leb_ℤ amount_minor (pos 0)) (validation Code.supplier_payment_invalid)
  raise_if (ltb_ℤ balance_minor amount_minor) (conflict Code.supplier_overpayment)
