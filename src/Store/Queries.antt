-- ===== src/Store/Queries.antt =====
-- The queries of the services over the tables: selections, sums and the rows under a key.

use dukan_pro.Prelude.{
  String, Bool, true, false, not, ◌&&◌, ◌||◌, Option, none, some, List, [], ◌∷◌, map, if◌then◌else◌,
}
use dukan_pro.Prelude.Int.{ℤ, pos, ◌+ℤ◌, ◌-ℤ◌}
use dukan_pro.Prelude.Text.{str_eq, is_text}
use dukan_pro.Prelude.Dict.{Dict, lookup}
use dukan_pro.Errors.{
  or_raise, Result, Checked, ok, ◌>>=◌, ◌>>◌, raise_if, not_found, conflict, Code,
}
use dukan_pro.Domain.Branches.{assert_branch_active}
use dukan_pro.Domain.Customers.{CustomerLedgerEntry, LedgerEntryType, ledger_balance}
use dukan_pro.Store.{Store, Branch, Sale, Payment, LedgerRow, SupplierRow, Shift, StockRow}

module _ {ℓ} {A : Type ℓ} where
  -- `select(…).where(…)`
  abbrev pub select : (A → Bool) → List A → List A
  select p [] = []
  select p (x ∷ xs) = let rest = select p xs in if p x then x ∷ rest else rest

  -- `session.scalar(select(…).where(…))`
  abbrev pub first : (A → Bool) → List A → Option A
  first p [] = none
  first p (x ∷ xs) = if p x then some x else first p xs

  -- `func.coalesce(func.sum(…), 0)` of the rows selected
  abbrev pub sum_where : (A → Bool) → (A → ℤ) → List A → ℤ
  sum_where p f [] = pos 0
  sum_where p f (x ∷ xs) = (if p x then f x else pos 0) +ℤ sum_where p f xs

  -- An update of the rows selected.
  abbrev pub update_where : (A → Bool) → (A → A) → List A → List A
  update_where p f [] = []
  update_where p f (x ∷ xs) = (if p x then f x else x) ∷ update_where p f xs

-- `row.customer_id` of an entry, in the form that the domain reads.
abbrev pub entry_of : LedgerRow → CustomerLedgerEntry
entry_of r = record {
  id = r.id;
  customer_id = r.customer_id;
  type = r.type;
  amount_minor = r.amount_minor;
  currency = r.currency;
  occurred_at = pos 0;
  ref_type = r.ref_type;
  ref_id = r.ref_id;
}

abbrev pub value_or_zero : Option ℤ → ℤ
value_or_zero none = pos 0
value_or_zero (some n) = n

-- `d.get(k, 0)`
abbrev pub get_or_zero : String → Dict ℤ → ℤ
get_or_zero k d = value_or_zero (lookup k d)

abbrev pub is_charge : LedgerEntryType → Bool
is_charge LedgerEntryType.charge = true
is_charge _ = false

abbrev pub of_customer : String → LedgerRow → Bool
of_customer customer_id r = str_eq r.customer_id customer_id && not r.deleted

unfoldable pub customer_balance : Store → String → ℤ
customer_balance s customer_id =
    ledger_balance (map entry_of (select (of_customer customer_id) s.ledger))

abbrev pub stock_at : String → String → StockRow → Bool
stock_at product_id branch_id m =
    str_eq m.product_id product_id && str_eq m.branch_id branch_id && not m.deleted

unfoldable pub on_hand : Store → String → String → ℤ
on_hand s product_id branch_id =
    sum_where (stock_at product_id branch_id) (λ (m : StockRow). m.qty_delta) s.moves

abbrev pub sale_with : String → Sale → Bool
sale_with sale_id x = str_eq x.id sale_id

abbrev pub shift_with : String → Shift → Bool
shift_with shift_id x = str_eq x.id shift_id

-- `select(BranchModel).where(id, deleted_at is None)`
abbrev pub branch_with : String → Branch → Bool
branch_with branch_id b = str_eq b.id branch_id && not b.deleted

unfoldable pub require_active_branch : Store → String → Checked
require_active_branch s branch_id = do
  b ← or_raise (first (branch_with branch_id) s.branches) (not_found Code.branch_not_found)
  assert_branch_active b.is_active

unfoldable pub require_open_shift : Store → String → String → String → Result Shift
require_open_shift s shift_id user_id branch_id = do
  shift ← or_raise (first (shift_with shift_id) s.shifts) (not_found Code.shift_not_found)
  raise_if shift.deleted (not_found Code.shift_not_found)
  raise_if
      (not (str_eq shift.status "open")
        || not (str_eq shift.branch_id branch_id)
        || not (str_eq shift.user_id user_id))
      (conflict Code.shift_not_open)
  ok shift

-- The sale that a payment joins is a settled one of the shift.
abbrev pub counts : String → Payment → Option Sale → Bool
counts shift_id p none = false
counts shift_id p (some x) =
    is_text x.shift_id shift_id
    && str_eq x.status "settled"
    && str_eq p.method "cash"
    && not p.deleted

abbrev pub taken_in : List Sale → String → Payment → Bool
taken_in sales shift_id p = counts shift_id p (first (sale_with p.sale_id) sales)

abbrev pub is_payment : LedgerEntryType → Bool
is_payment LedgerEntryType.payment = true
is_payment _ = false

abbrev pub collected_in : String → LedgerRow → Bool
collected_in shift_id r =
    is_text r.shift_id shift_id && is_payment r.type && is_text r.method "cash" && not r.deleted

abbrev pub paid_out_in : String → SupplierRow → Bool
paid_out_in shift_id r =
    is_text r.shift_id shift_id
    && str_eq r.type "payment"
    && is_text r.method "cash"
    && not r.deleted

abbrev pub float_of : Option Shift → ℤ
float_of none = pos 0
float_of (some shift) = shift.opening_float_minor

unfoldable pub expected_cash : Store → String → ℤ
expected_cash s shift_id =
    float_of (first (shift_with shift_id) s.shifts)
    +ℤ sum_where (taken_in s.sales shift_id) (λ (p : Payment). p.amount_minor) s.payments
    +ℤ sum_where (collected_in shift_id) (λ (r : LedgerRow). r.amount_minor) s.ledger
    -ℤ sum_where (paid_out_in shift_id) (λ (r : SupplierRow). r.amount_minor) s.supplier_ledger
