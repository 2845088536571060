-- ===== src/SalesService/Voids.antt =====
-- `SqlSalesService.void_sale`.
pub mod Debt
pub mod Undone
use dukan_pro.Prelude.{
  ℕ, suc, ◌+◌, String, Bool, true, false, not, ◌&&◌, Option, none, some, is_some, List, [], ◌∷◌,
  ◌++◌, map, length, if◌then◌else◌,
}
use dukan_pro.Prelude.Int.{ℤ, pos, ◌-ℤ◌, negate, ltb_ℤ, eqb_ℤ, min_ℤ, max_ℤ}
use dukan_pro.Prelude.Text.{str_eq, is_blank, is_text}
use dukan_pro.Prelude.Dict.{Dict, lookup, insert}
use dukan_pro.Errors.{
  Result, ok, err, ◌>>=◌, ◌>>◌, or_raise, raise_if, validation, not_found, conflict, Code,
}
use dukan_pro.Access.{require_permission}
use dukan_pro.Domain.Identity.{User, sale_void}
use dukan_pro.Domain.Customers.{LedgerEntryType}
use dukan_pro.Store.{Store, Sale, StockRow, Payment, LedgerRow, Shift, AuditEntry, logged}
use dukan_pro.Store.Queries.{
  select, first, sum_where, update_where, sale_with, shift_with, get_or_zero, is_charge,
  customer_balance, require_active_branch,
}

-- `_has_refunds`
abbrev pub refund_with : String → Sale → Bool
refund_with sale_id x = is_text x.refund_of sale_id && not x.deleted

abbrev pub is_cash_of : String → Payment → Bool
is_cash_of sale_id p = str_eq p.sale_id sale_id && str_eq p.method "cash" && not p.deleted

unfoldable pub cash_taken : Store → String → ℤ
cash_taken s sale_id = sum_where (is_cash_of sale_id) (λ (p : Payment). p.amount_minor) s.payments

-- The charges of a sale, and the goods that it took.
abbrev pub charge_of : String → LedgerRow → Bool
charge_of sale_id r =
    is_charge r.type && is_text r.ref_type "sale" && is_text r.ref_id sale_id && not r.deleted

abbrev pub taken_by : String → StockRow → Bool
taken_by sale_id m = is_text m.ref_type "sale" && is_text m.ref_id sale_id && not m.deleted

-- The shift of the sale, where it names one that is there.
abbrev pub shift_of : Store → Option String → Option Shift
shift_of s none = none
shift_of s (some shift_id) =
    if str_eq shift_id "" then none else first (shift_with shift_id) s.shifts

abbrev pub is_closed : Option Shift → Bool
is_closed none = false
is_closed (some shift) = not (str_eq shift.status "open")

unfoldable pub check_void : Store → User → String → String → Result Sale
check_void s actor sale_id reason = do
  sale ← or_raise (first (sale_with sale_id) s.sales) (not_found Code.sale_not_found)
  require_permission actor sale_void sale.branch_id
  require_active_branch s sale.branch_id
  raise_if (is_blank reason) (validation Code.sale_void_reason_required)
  raise_if (not (str_eq sale.status "settled")) (conflict Code.sale_not_voidable)
  raise_if (is_some sale.refund_of) (conflict Code.sale_not_voidable)
  raise_if (is_some (first (refund_with sale.id) s.sales)) (conflict Code.sale_not_voidable)
  raise_if (is_closed (shift_of s sale.shift_id) && ltb_ℤ (pos 0) (cash_taken s sale.id))
      (conflict Code.sale_shift_closed)
  ok sale

-- `owed`: the balances of the customers that the sale charged.
unfoldable pub balances : Store → List LedgerRow → Dict ℤ
balances s [] = []
balances s (c ∷ cs) = insert c.customer_id (customer_balance s c.customer_id) (balances s cs)

module _ (new_id : ℕ → String) where
  unfoldable pub back_rows : ℕ → String → List StockRow → List StockRow
  back_rows n sale_id [] = []
  back_rows n sale_id (m ∷ ms) =
      record {
        id = new_id n;
        product_id = m.product_id;
        branch_id = m.branch_id;
        qty_delta = negate m.qty_delta;
        reason = "returned";
        ref_type = some "void";
        ref_id = some sale_id;
        deleted = false;
      }
      ∷ back_rows (suc n) sale_id ms

  abbrev pub undo_row : ℕ → String → LedgerRow → ℤ → LedgerRow
  undo_row n sale_id c back = record {
    id = new_id n;
    customer_id = c.customer_id;
    shift_id = none;
    method = none;
    type = LedgerEntryType.adjustment;
    amount_minor = negate back;
    currency = c.currency;
    ref_type = some "void";
    ref_id = some sale_id;
    deleted = false;
  }

  -- `min(c.amount_minor, max(owed[c.customer_id], 0))`
  abbrev pub back_of : Dict ℤ → LedgerRow → ℤ
  back_of owed c = min_ℤ c.amount_minor (max_ℤ (get_or_zero c.customer_id owed) (pos 0))

  -- The loop over the charges.
  unfoldable pub undo_rows : ℕ → String → Dict ℤ → List LedgerRow → List LedgerRow
  undo_rows n sale_id owed [] = []
  undo_rows n sale_id owed (c ∷ cs) =
      let back = back_of owed c in
      let left = insert c.customer_id (get_or_zero c.customer_id owed -ℤ back) owed in
      let skip = undo_rows n sale_id left cs in
      let kept = undo_row n sale_id c back ∷ undo_rows (suc n) sale_id left cs in
      if eqb_ℤ back (pos 0) then skip else kept

  abbrev pub voided : Sale → Sale
  voided x = record x { status = "voided" }

  unfoldable pub post_void : Store → User → Sale → Store
  unfolding balances back_rows undo_rows
  post_void s actor sale =
      let charges = select (charge_of sale.id) s.ledger in
      let back = back_rows s.next sale.id (select (taken_by sale.id) s.moves) in
      let undo = undo_rows (s.next + length back) sale.id (balances s charges) charges in
      record s {
        sales = update_where (sale_with sale.id) voided s.sales;
        moves = s.moves ++ back;
        ledger = s.ledger ++ undo;
        audit =
            s.audit
            ++ (record { action = "sale.voided"; actor_id = actor.id; entity_id = sale.id } ∷ []);
        feed =
            s.feed
            ++ ((logged "sales" "update" (some sale.branch_id) sale.id ∷ [])
                ++ (map
                      (λ (m : StockRow). logged "stock_movements" "insert" (some m.branch_id) m.id)
                      back
                    ++ map (λ (r : LedgerRow). logged "customer_ledger" "insert" none r.id) undo));
        next = s.next + length back + length undo;
      }

  unfoldable pub void_sale : Store → User → String → String → Result Store
  unfolding post_void check_void
  void_sale s actor sale_id reason = do
    sale ← check_void s actor sale_id reason
    ok (post_void s actor sale)
