-- ===== src/Sync/Handlers/Suppliers.antt =====
-- The handler of the suppliers' ledger.
use dukan_pro.Prelude.{
  String, Bool, true, false, not, ◌||◌, Option, none, some, [], ◌∷◌, if◌then◌else◌,
}
use dukan_pro.Prelude.Text.{str_eq}
use dukan_pro.Prelude.Dict.{insert}
use dukan_pro.Errors.{
  or_raise, Result, ok, err, crash, ◌>>=◌, ◌>>◌, raise_if, validation, not_found, conflict, Code,
}
use dukan_pro.Domain.Identity.{purchase_cost}
use dukan_pro.Sync.Values.{Value, Fields, str_at, int_at, str_or, str_get, pick}
use dukan_pro.Sync.Types.{Ctx, SupplierRef, ApplyPlan, audit, plan}
use dukan_pro.Sync.Guards.{
  need, active, guard_insert, violates, after_close, is_given, flag, default_currency,
}
use dukan_pro.Domain.Purchasing.{
  SupplierEntryType, supplier_entry_type, assert_supplier_payment_valid,
}

abbrev pub supplier_of : Option SupplierRef → Result SupplierRef
supplier_of none = err (not_found Code.supplier_not_found)
supplier_of (some s) = if s.deleted then err (not_found Code.supplier_not_found) else ok s

-- The branch for a bill.
unfoldable pub bill_insert : Fields → String → Result ApplyPlan
bill_insert v branch = do
  raise_if (is_given "shift_id" v || is_given "method" v) (validation Code.sync_field_not_allowed)
  ok (
      plan v branch none (
        audit "supplier.bill_posted" "supplier_ledger"
          (pick v ("supplier_id" ∷ "amount_minor" ∷ "currency" ∷ []))))

-- The rest: a payment.
unfoldable pub paid_insert : Ctx → Fields → String → SupplierRef → Result ApplyPlan
paid_insert ctx v branch s = do
  shift_id ← str_get "shift_id" v
  late ← after_close ctx shift_id branch
  amount ← int_at "amount_minor" v
  overpaid ← violates (assert_supplier_payment_valid amount (ctx.reader.supplier_balance s.id))
  ok (
      plan v branch none (
        audit "supplier.payment_recorded" "supplier_ledger" (
          flag late "after_shift_close" (
            insert "overpaid" (Value.bool overpaid) (
              pick v ("supplier_id" ∷ "amount_minor" ∷ "currency" ∷ "method" ∷ "shift_id" ∷ []))))))

abbrev pub posted : SupplierEntryType → Bool
posted SupplierEntryType.bill = true
posted SupplierEntryType.payment = true
posted _ = false

unfoldable pub posted_insert :
    SupplierEntryType → Ctx → Fields → String → SupplierRef → Result ApplyPlan
posted_insert SupplierEntryType.bill ctx v branch s = bill_insert v branch
posted_insert _ ctx v branch s = paid_insert ctx v branch s

-- `_supplier_ledger_insert`
unfoldable pub supplier_ledger_insert : Ctx → Fields → Result ApplyPlan
supplier_ledger_insert ctx v = do
  text ← str_at "type" v
  entry ← or_raise (supplier_entry_type text) crash
  raise_if (not (posted entry)) (validation Code.sync_op_unsupported)
  branch ← active ctx
  need ctx purchase_cost branch
  guard_insert ctx
  supplier_id ← str_at "supplier_id" v
  s ← supplier_of (ctx.reader.supplier supplier_id)
  currency ← str_or "currency" v default_currency
  raise_if (not (str_eq currency s.currency)) (conflict Code.purchase_currency_mismatch)
  posted_insert entry ctx v branch s
