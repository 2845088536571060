-- ===== src/Sync/Handlers/Debts.antt =====
-- The handlers of the customers' ledger: `_customer_ledger_insert`, `_write_off` and
-- `_debt_reversal`.
pub mod Bounds
use dukan_pro.Prelude.{
  ℕ, String, Bool, true, false, not, ◌||◌, ◌&&◌, Option, none, some, List, [], ◌∷◌, any,
  if◌then◌else◌, is_some,
}
use dukan_pro.Prelude.Int.{ℤ, pos, ◌+ℤ◌, ◌-ℤ◌, negate, ltb_ℤ, leb_ℤ, eqb_ℤ, min_ℤ}
use dukan_pro.Prelude.Text.{str_eq, str_mem, is_text, opt_eq, is_blank, strip}
use dukan_pro.Prelude.Dict.{Dict, lookup, insert, erase, contains}
use dukan_pro.Errors.{
  or_raise, AppError, Result, Checked, ok, err, crash, ◌>>=◌, ◌>>◌, raise_if, validation, not_found,
  conflict, permission_denied, Code,
}
use dukan_pro.Domain.Identity.{
  Permission, sale_create, price_change, stock_adjust, product_manage, sale_void, sale_discount,
  customer_credit, purchase_cost, debt_write_off, all_permissions, permissions_for, is_active, can,
}
use dukan_pro.Sync.Values.{
  Value, Fields, value_eq, str_at, int_at, str_or, int_or, str_get, int_get, is_bool, pick,
  value_get, opt_str,
}
use dukan_pro.Sync.Types.{
  Ctx, RowSnapshot, ProductRef, CustomerRef, SupplierRef, SaleRef, SaleLineRef, ShiftRef,
  AuditIntent, ApplyPlan, audit, plan,
}
use dukan_pro.Sync.Guards.{
  need, active, guard_insert, guard_update, product, customer, sale, own_sale,
  require_complete_lines, violates, own_shift, after_close, is_given, flag, default_currency,
}
use dukan_pro.Domain.Customers.{
  LedgerEntryType, opening, charge, payment, adjustment, ledger_entry_type, assert_not_overpaid,
  assert_within_credit_limit,
}

abbrev exceeds : ℤ → ℤ → (String × Value)
exceeds amount balance = ("exceeds_balance", Value.bool (ltb_ℤ balance (negate amount)))

-- `_write_off`
unfoldable pub write_off : Ctx → Fields → ℤ → String → Result ApplyPlan
write_off ctx v amount currency = do
  ref_type ← str_get "ref_type" v
  raise_if (not (is_text ref_type "write_off") || is_given "ref_id" v)
      (validation Code.sync_field_invalid)
  raise_if (leb_ℤ (pos 0) amount) (validation Code.sync_field_invalid)
  branch ← active ctx
  need ctx debt_write_off branch
  guard_insert ctx
  customer_id ← str_at "customer_id" v
  c ← customer ctx customer_id
  raise_if (not (str_eq currency c.currency)) (conflict Code.debt_currency_mismatch)
  let (k, x) = exceeds amount (ctx.reader.customer_balance c.id)
  ok (
      plan v branch none (
        audit "debt.written_off" "customer_ledger" (
          insert k x (
            insert "amount" (Value.int (negate amount))
              (pick v ("customer_id" ∷ "currency" ∷ []))))))

-- The sale whose debt a return takes back: the one that it returns goods of.
unfoldable pub returned_sale : Ctx → SaleRef → ℤ → Result SaleRef
returned_sale ctx source amount = do
  original_id ← or_raise source.refund_of (validation Code.sync_ref_mismatch)
  raise_if (ltb_ℤ (negate source.total_minor) (negate amount)) (validation Code.sync_ref_mismatch)
  sale ctx original_id

-- The sale whose debt comes off: the voided one itself, or the one that a return names.
unfoldable pub reversed_sale : Ctx → String → SaleRef → ℤ → Result SaleRef
reversed_sale ctx ref_type source amount =
    let of_return = returned_sale ctx source amount in
    if str_eq ref_type "void"
    then (raise_if (not (str_eq source.status "voided")) (validation Code.sync_ref_mismatch)
        >> ok source)
    else of_return

-- `_debt_reversal`; `ref_type` is "void" or "refund".
unfoldable pub debt_reversal : Ctx → Fields → String → ℤ → String → Result ApplyPlan
debt_reversal ctx v ref_type amount currency = do
  ref_id ← str_get "ref_id" v
  id ← or_raise ref_id (validation Code.sync_field_required)
  raise_if (leb_ℤ (pos 0) amount) (validation Code.sync_field_invalid)
  source ← sale ctx id
  need ctx sale_void source.branch_id
  guard_insert ctx
  s ← reversed_sale ctx ref_type source amount
  customer_id ← str_at "customer_id" v
  c ← customer ctx customer_id
  raise_if (not (is_text s.customer_id c.id)) (validation Code.sync_ref_mismatch)
  raise_if (not (str_eq currency c.currency)) (conflict Code.debt_currency_mismatch)
  raise_if
      (ltb_ℤ (ctx.reader.sale_charges_total s.id) (ctx.reader.sale_reversed_debt s.id -ℤ amount))
      (validation Code.sync_ref_mismatch)
  let (k, x) = exceeds amount (ctx.reader.customer_balance c.id)
  ok (
      plan v source.branch_id none (
        audit "debt.charge_reversed" "customer_ledger" (
          insert k x (
            insert "amount" (Value.int (negate amount))
              (pick v ("customer_id" ∷ "currency" ∷ "ref_type" ∷ "ref_id" ∷ []))))))

-- The sale that a charge names, with its customer and currency right and its lines complete.
unfoldable pub check_charge : Ctx → Fields → SaleRef → CustomerRef → ℤ → String → Checked
check_charge ctx v s c amount currency = do
  raise_if (not (is_text s.customer_id c.id)) (validation Code.sync_ref_mismatch)
  raise_if (not (str_eq currency s.currency)) (conflict Code.sale_currency_mismatch)
  raise_if (not (str_eq c.currency s.currency)) (conflict Code.debt_currency_mismatch)
  require_complete_lines ctx s
  raise_if (ltb_ℤ (s.total_minor -ℤ s.paid_minor) (ctx.reader.sale_charges_total s.id +ℤ amount))
      (validation Code.sync_ref_mismatch)

-- The branch of `_customer_ledger_insert` for a charge.
unfoldable pub charge_insert : Ctx → Fields → ℤ → String → Result ApplyPlan
charge_insert ctx v amount currency = do
  ref_type ← str_get "ref_type" v
  raise_if (not (is_text ref_type "sale")) (validation Code.sync_field_required)
  ref_id ← str_get "ref_id" v
  id ← or_raise ref_id (validation Code.sync_field_required)
  s ← own_sale ctx id
  guard_insert ctx
  customer_id ← str_at "customer_id" v
  c ← customer ctx customer_id
  check_charge ctx v s c amount currency
  over_limit ←
      violates
        (assert_within_credit_limit (ctx.reader.customer_balance c.id) amount c.credit_limit_minor)
  ok (
      plan v s.branch_id (some s.branch_id) (
        audit "debt.charge_posted" "customer_ledger" (
          flag (not c.is_active) "customer_inactive" (
            insert "over_credit_limit" (Value.bool over_limit)
              (pick v ("customer_id" ∷ "amount_minor" ∷ "currency" ∷ "ref_id" ∷ []))))))

-- `v.get("ref_type") not in (None, "manual")`
abbrev pub foreign : Option String → Bool
foreign none = false
foreign (some t) = not (str_eq t "manual")

-- The rest of `_customer_ledger_insert`: a payment.
unfoldable pub payment_insert : Ctx → Fields → ℤ → String → Result ApplyPlan
payment_insert ctx v amount currency = do
  ref_type ← str_get "ref_type" v
  raise_if (foreign ref_type || is_given "ref_id" v) (validation Code.sync_field_not_allowed)
  branch ← active ctx
  need ctx sale_create branch
  guard_insert ctx
  customer_id ← str_at "customer_id" v
  c ← customer ctx customer_id
  raise_if (not (str_eq currency c.currency)) (conflict Code.debt_currency_mismatch)
  shift_id ← str_get "shift_id" v
  late ← after_close ctx shift_id branch
  overpaid ← violates (assert_not_overpaid (ctx.reader.customer_balance c.id) amount)
  ok (
      plan v branch none (
        audit "debt.payment_recorded" "customer_ledger" (
          flag late "after_shift_close" (
            insert "overpaid" (Value.bool overpaid) (
              pick v ("customer_id" ∷ "amount_minor" ∷ "currency" ∷ "method" ∷ "shift_id" ∷ []))))))

-- An adjustment: a reversal where `ref_type` is "void" or "refund", a write-off otherwise.
unfoldable pub adjustment_insert : Ctx → Fields → ℤ → String → Result ApplyPlan
adjustment_insert ctx v amount currency = do
  ref_type ← str_get "ref_type" v
  if is_text ref_type "void"
      then debt_reversal ctx v "void" amount currency
      else if is_text ref_type "refund"
      then debt_reversal ctx v "refund" amount currency
      else write_off ctx v amount currency

abbrev pub not_a_payment : LedgerEntryType → Bool
not_a_payment payment = false
not_a_payment _ = true

-- The rest of `_customer_ledger_insert`, by the entry's type.
unfoldable pub entry_insert : Ctx → Fields → LedgerEntryType → ℤ → String → Result ApplyPlan
entry_insert ctx v adjustment amount currency = adjustment_insert ctx v amount currency
entry_insert ctx v opening amount currency = err (validation Code.sync_op_unsupported)
entry_insert ctx v charge amount currency =
    raise_if (leb_ℤ amount (pos 0)) (validation Code.sync_field_invalid)
    >> charge_insert ctx v amount currency
entry_insert ctx v payment amount currency =
    raise_if (leb_ℤ amount (pos 0)) (validation Code.sync_field_invalid)
    >> payment_insert ctx v amount currency

-- `_customer_ledger_insert`
unfoldable pub customer_ledger_insert : Ctx → Fields → Result ApplyPlan
customer_ledger_insert ctx v = do
  text ← str_at "type" v
  entry ← or_raise (ledger_entry_type text) crash
  amount ← int_at "amount_minor" v
  currency ← str_or "currency" v default_currency
  raise_if (not_a_payment entry && (is_given "shift_id" v || is_given "method" v))
      (validation Code.sync_field_not_allowed)
  entry_insert ctx v entry amount currency
