-- ===== src/Domain/Customers.antt =====
-- server/dukan/domain/customers.py: a customer's debt and its rules.
use dukan_pro.Prelude.{String, Bool, false, not, Option, none, some, List, [], ◌∷◌, if◌then◌else◌}
use dukan_pro.Prelude.Int.{ℤ, pos, ◌+ℤ◌, negate, ltb_ℤ, leb_ℤ}
use dukan_pro.Prelude.Text.{str_eq}
use dukan_pro.Errors.{Checked, ◌>>◌, raise_if, validation, conflict, Code}

pub data LedgerEntryType : Type 0 where
  opening charge payment adjustment : LedgerEntryType

-- `LedgerEntryType(text)`; `none` is its `ValueError`.
unfoldable pub ledger_entry_type : String → Option LedgerEntryType
ledger_entry_type s =
    if str_eq s "opening"
    then some opening
    else if str_eq s "charge"
    then some charge
    else if str_eq s "payment"
    then some payment
    else if str_eq s "adjustment"
    then some adjustment
    else none

pub record CustomerLedgerEntry : Type 0 where
  pub id : String
  pub customer_id : String
  pub type : LedgerEntryType
  pub amount_minor : ℤ
  pub currency : String
  pub occurred_at : ℤ
  pub ref_type : Option String
  pub ref_id : Option String

unfoldable pub signed_amount : LedgerEntryType → ℤ → ℤ
signed_amount payment amount_minor = negate amount_minor
signed_amount _ amount_minor = amount_minor

unfoldable pub signed : CustomerLedgerEntry → ℤ
unfolding signed_amount
signed e = signed_amount e.type e.amount_minor

unfoldable pub ledger_balance : List CustomerLedgerEntry → ℤ
ledger_balance [] = pos 0
ledger_balance (e ∷ es) = signed e +ℤ ledger_balance es

abbrev pub over_limit : ℤ → Option ℤ → Bool
over_limit owed none = false
over_limit owed (some limit) = ltb_ℤ limit owed

unfoldable pub assert_within_credit_limit : ℤ → ℤ → Option ℤ → Checked
assert_within_credit_limit balance_minor charge_minor credit_limit_minor =
    raise_if (over_limit (balance_minor +ℤ charge_minor) credit_limit_minor)
      (conflict Code.sale_over_credit_limit)

unfoldable pub assert_not_overpaid : ℤ → ℤ → Checked
assert_not_overpaid balance_minor payment_minor =
    raise_if (ltb_ℤ balance_minor payment_minor) (conflict Code.debt_overpayment)

unfoldable pub assert_debt_payment_valid : ℤ → Checked
assert_debt_payment_valid amount_minor =
    raise_if (leb_ℤ amount_minor (pos 0)) (validation Code.debt_payment_invalid)

unfoldable pub assert_write_off_valid : ℤ → ℤ → Checked
assert_write_off_valid amount_minor balance_minor = do
  raise_if (leb_ℤ amount_minor (pos 0)) (validation Code.debt_write_off_invalid)
  raise_if (ltb_ℤ balance_minor amount_minor) (conflict Code.debt_write_off_exceeds_balance)

unfoldable pub assert_customer_can_buy_on_credit : Bool → String → String → Checked
assert_customer_can_buy_on_credit is_active customer_currency sale_currency = do
  raise_if (not is_active) (conflict Code.customer_inactive)
  raise_if (not (str_eq sale_currency customer_currency)) (conflict Code.debt_currency_mismatch)

abbrev negative_limit : Option ℤ → Bool
negative_limit none = false
negative_limit (some limit) = ltb_ℤ limit (pos 0)

unfoldable pub assert_credit_limit_valid : Option ℤ → Checked
assert_credit_limit_valid credit_limit_minor =
    raise_if (negative_limit credit_limit_minor) (validation Code.customer_credit_limit_invalid)
