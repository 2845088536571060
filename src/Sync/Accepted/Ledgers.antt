-- ===== src/Sync/Accepted/Ledgers.antt =====
-- The plans for the ledgers of customers and suppliers.
use dukan_pro.Prelude.{◌≡◌, inl, inr, arith, Bool-cases, String, not, ◌||◌, ◌&&◌}
use dukan_pro.Prelude.Int.{ℤ, pos, leb_ℤ}
use dukan_pro.Prelude.Text.{str_eq, is_text}
use dukan_pro.Errors.{or_raise, ok, crash, validation, Code}
use dukan_pro.Domain.Identity.{sale_create, sale_void, purchase_cost, debt_write_off}
use dukan_pro.Sync.Values.{Fields, str_at, int_at, str_or, str_get}
use dukan_pro.Sync.Types.{Ctx, SupplierRef, ApplyPlan}
use dukan_pro.Sync.Guards.{need, active, guard_insert, sale, own_sale, is_given, default_currency}
use dukan_pro.Errors.{>>=-eq-ok, >>-eq-ok, passed}
use dukan_pro.Sync.Plans.{Inserts}
use dukan_pro.Sync.Plans.Made.{inserted, own-Inserted}
use dukan_pro.Domain.Customers.{
  LedgerEntryType, opening, charge, payment, adjustment, ledger_entry_type,
}
use dukan_pro.Domain.Purchasing.{SupplierEntryType, supplier_entry_type}
use dukan_pro.Sync.Handlers.Debts.{
  customer_ledger_insert, entry_insert, adjustment_insert, charge_insert, payment_insert,
  debt_reversal, write_off, foreign, not_a_payment,
}
use dukan_pro.Sync.Handlers.Suppliers.{
  supplier_ledger_insert, posted_insert, bill_insert, paid_insert, posted, supplier_of,
}

write_off-Inserts :
    (amount : ℤ) (currency : String) → Inserts (λ ctx v. write_off ctx v amount currency)
unfolding write_off
write_off-Inserts amount currency ctx v p h =
    let (ref_type, t, h) = >>=-eq-ok (str_get "ref_type" v) _ h in
    let (_, h) = passed (not (is_text ref_type "write_off") || is_given "ref_id" v) _ _ h in
    let (_, h) = passed (leb_ℤ (pos 0) amount) _ _ h in
    let (branch, b, h) = >>=-eq-ok (active ctx) _ h in
    let (may, h) = >>-eq-ok (need ctx debt_write_off branch) _ h in
    let (fresh, h) = >>-eq-ok (guard_insert ctx) _ h in
    inserted ctx p debt_write_off branch may fresh (ground arith)

debt_reversal-Inserts :
    (ref_type : String) (amount : ℤ) (currency : String)
    → Inserts (λ ctx v. debt_reversal ctx v ref_type amount currency)
unfolding debt_reversal
debt_reversal-Inserts ref_type amount currency ctx v p h =
    let (ref_id, r, h) = >>=-eq-ok (str_get "ref_id" v) _ h in
    let (id, i, h) = >>=-eq-ok (or_raise ref_id (validation Code.sync_field_required)) _ h in
    let (_, h) = passed (leb_ℤ (pos 0) amount) _ _ h in
    let (source, o, h) = >>=-eq-ok (sale ctx id) _ h in
    let (may, h) = >>-eq-ok (need ctx sale_void source.branch_id) _ h in
    let (fresh, h) = >>-eq-ok (guard_insert ctx) _ h in
    inserted ctx p sale_void source.branch_id may fresh (ground arith)

charge_insert-Inserts :
    (amount : ℤ) (currency : String) → Inserts (λ ctx v. charge_insert ctx v amount currency)
unfolding charge_insert
charge_insert-Inserts amount currency ctx v p h =
    let (ref_type, t, h) = >>=-eq-ok (str_get "ref_type" v) _ h in
    let (_, h) = passed (not (is_text ref_type "sale")) _ _ h in
    let (ref_id, r, h) = >>=-eq-ok (str_get "ref_id" v) _ h in
    let (id, i, h) = >>=-eq-ok (or_raise ref_id (validation Code.sync_field_required)) _ h in
    let (s, o, h) = >>=-eq-ok (own_sale ctx id) _ h in
    let (fresh, h) = >>-eq-ok (guard_insert ctx) _ h in
    own-Inserted ctx p id s o fresh (ground arith)

payment_insert-Inserts :
    (amount : ℤ) (currency : String) → Inserts (λ ctx v. payment_insert ctx v amount currency)
unfolding payment_insert
payment_insert-Inserts amount currency ctx v p h =
    let (ref_type, t, h) = >>=-eq-ok (str_get "ref_type" v) _ h in
    let (_, h) = passed (foreign ref_type || is_given "ref_id" v) _ _ h in
    let (branch, b, h) = >>=-eq-ok (active ctx) _ h in
    let (may, h) = >>-eq-ok (need ctx sale_create branch) _ h in
    let (fresh, h) = >>-eq-ok (guard_insert ctx) _ h in
    inserted ctx p sale_create branch may fresh (ground arith)

adjustment_insert-Inserts :
    (amount : ℤ) (currency : String) → Inserts (λ ctx v. adjustment_insert ctx v amount currency)
unfolding adjustment_insert
adjustment_insert-Inserts amount currency ctx v p h =
    let (ref_type, t, h) = >>=-eq-ok (str_get "ref_type" v) _ h in
    elim (Bool-cases (is_text ref_type "void")) [
      | inl void ↦ debt_reversal-Inserts "void" amount currency ctx v p (rw void at h)
      | inr other ↦ (elim (Bool-cases (is_text ref_type "refund")) [
        | inl refund ↦
            debt_reversal-Inserts "refund" amount currency ctx v p (rw (other, refund) at h)
        | inr neither ↦ write_off-Inserts amount currency ctx v p (rw (other, neither) at h)
      ])
    ]

entry_insert-Inserts :
    (entry : LedgerEntryType) (amount : ℤ) (currency : String)
    → Inserts (λ ctx v. entry_insert ctx v entry amount currency)
unfolding entry_insert
entry_insert-Inserts adjustment amount currency ctx v p h =
    adjustment_insert-Inserts amount currency ctx v p h
entry_insert-Inserts opening amount currency ctx v p h = cc
entry_insert-Inserts charge amount currency ctx v p h =
    let (_, h) = passed (leb_ℤ amount (pos 0)) _ _ h in
    charge_insert-Inserts amount currency ctx v p h
entry_insert-Inserts payment amount currency ctx v p h =
    let (_, h) = passed (leb_ℤ amount (pos 0)) _ _ h in
    payment_insert-Inserts amount currency ctx v p h

pub customer_ledger_insert-Inserts : Inserts customer_ledger_insert
unfolding customer_ledger_insert
customer_ledger_insert-Inserts ctx v p h =
    let (text, t, h) = >>=-eq-ok (str_at "type" v) _ h in
    let (entry, e, h) = >>=-eq-ok (or_raise (ledger_entry_type text) crash) _ h in
    let (amount, a, h) = >>=-eq-ok (int_at "amount_minor" v) _ h in
    let (currency, c, h) = >>=-eq-ok (str_or "currency" v default_currency) _ h in
    let (_, h) =
      passed (not_a_payment entry && (is_given "shift_id" v || is_given "method" v)) _ _ h in
    entry_insert-Inserts entry amount currency ctx v p h

bill_insert-branch :
    (v : Fields) (branch : String) (p : ApplyPlan)
    → bill_insert v branch ≡ ok p
    → branch ≡ p.auth_branch_id
unfolding bill_insert
bill_insert-branch v branch p h = ground arith

paid_insert-branch :
    (ctx : Ctx) (v : Fields) (branch : String) (s : SupplierRef) (p : ApplyPlan)
    → paid_insert ctx v branch s ≡ ok p
    → branch ≡ p.auth_branch_id
unfolding paid_insert
paid_insert-branch ctx v branch s p h = ground arith

posted_insert-branch :
    (entry : SupplierEntryType) (ctx : Ctx) (v : Fields) (branch : String) (s : SupplierRef)
    (p : ApplyPlan)
    → posted_insert entry ctx v branch s ≡ ok p
    → branch ≡ p.auth_branch_id
unfolding posted_insert
posted_insert-branch SupplierEntryType.bill ctx v branch s p h = bill_insert-branch v branch p h
posted_insert-branch _ ctx v branch s p h = paid_insert-branch ctx v branch s p h

pub supplier_ledger_insert-Inserts : Inserts supplier_ledger_insert
unfolding supplier_ledger_insert
supplier_ledger_insert-Inserts ctx v p h =
    let (text, t, h) = >>=-eq-ok (str_at "type" v) _ h in
    let (entry, e, h) = >>=-eq-ok (or_raise (supplier_entry_type text) crash) _ h in
    let (_, h) = passed (not (posted entry)) _ _ h in
    let (branch, b, h) = >>=-eq-ok (active ctx) _ h in
    let (may, h) = >>-eq-ok (need ctx purchase_cost branch) _ h in
    let (fresh, h) = >>-eq-ok (guard_insert ctx) _ h in
    let (supplier_id, i, h) = >>=-eq-ok (str_at "supplier_id" v) _ h in
    let (s, f, h) = >>=-eq-ok (supplier_of (ctx.reader.supplier supplier_id)) _ h in
    let (currency, c, h) = >>=-eq-ok (str_or "currency" v default_currency) _ h in
    let (_, h) = passed (not (str_eq currency s.currency)) _ _ h in
    inserted ctx p purchase_cost branch may fresh (posted_insert-branch entry ctx v branch s p h)
