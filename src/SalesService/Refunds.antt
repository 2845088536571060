-- ===== src/SalesService/Refunds.antt =====
-- `SqlSalesService.refund_sale`.
pub mod Passed
pub mod Money
pub mod Goods
use dukan_pro.Prelude.{
  ℕ, suc, ◌+◌, String, Bool, false, not, ◌&&◌, ◌||◌, Option, none, some, is_some, List, [], ◌∷◌,
  ◌++◌, map, length, any, all, if◌then◌else◌,
}
use dukan_pro.Prelude.Int.{ℤ, pos, ◌+ℤ◌, ◌-ℤ◌, negate, ltb_ℤ, eqb_ℤ, min_ℤ, max_ℤ}
use dukan_pro.Prelude.Text.{str_eq, str_mem, is_text}
use dukan_pro.Prelude.Dict.{Dict, insert}
use dukan_pro.Errors.{
  Result, ok, crash, ◌>>=◌, ◌>>◌, or_raise, raise_if, validation, not_found, conflict, Code,
}
use dukan_pro.Access.{require_permission}
use dukan_pro.Domain.Identity.{User, sale_void}
use dukan_pro.Domain.Customers.{LedgerEntryType}
use dukan_pro.Domain.Sales.{assert_refund_valid, returned_value_minor, refund_total_minor}
use dukan_pro.Store.{Store, Sale, LineRow, StockRow, Payment, LedgerRow, logged}
use dukan_pro.Store.Queries.{
  select, first, sum_where, sale_with, get_or_zero, is_charge, customer_balance,
  require_active_branch, require_open_shift,
}

pub record RefundLineInput : Type 0 where
  pub product_id : String
  pub qty_minor : ℤ

-- `_REFUND_METHODS`
abbrev refund_methods : List String
refund_methods = "cash" ∷ "card" ∷ "transfer" ∷ []

-- The loops that add up by product.
unfoldable pub tally : (LineRow → ℤ) → Dict ℤ → List LineRow → Dict ℤ
tally f d [] = d
tally f d (l ∷ ls) = tally f (insert l.product_id (get_or_zero l.product_id d +ℤ f l) d) ls

unfoldable pub tally_wanted : Dict ℤ → List RefundLineInput → Dict ℤ
tally_wanted d [] = d
tally_wanted d (i ∷ items) =
    tally_wanted (insert i.product_id (get_or_zero i.product_id d +ℤ i.qty_minor) d) items

-- `{p: q - returned.get(p, 0) for p, q in sold_qty.items()}`
unfoldable pub less_returned : Dict ℤ → Dict ℤ → Dict ℤ
less_returned returned [] = []
less_returned returned ((p, q) ∷ sold) =
    (p, q -ℤ get_or_zero p returned) ∷ less_returned returned sold

-- `values`, and their sum. What is wanted was sold, so no key is missing.
unfoldable pub values_of : Dict ℤ → Dict ℤ → Dict ℤ → Dict ℤ
values_of sold_value sold_qty [] = []
values_of sold_value sold_qty ((p, q) ∷ wanted) =
    (p, returned_value_minor (get_or_zero p sold_value) (get_or_zero p sold_qty) q)
    ∷ values_of sold_value sold_qty wanted

unfoldable pub values_sum : Dict ℤ → ℤ
values_sum [] = pos 0
values_sum ((p, v) ∷ vs) = v +ℤ values_sum vs

abbrev pub line_of : String → LineRow → Bool
line_of sale_id l = str_eq l.sale_id sale_id && not l.deleted

abbrev pub refund_row : String → Sale → Bool
refund_row sale_id x = is_text x.refund_of sale_id && not x.deleted

-- `in_(earlier_ids)`
abbrev pub is_id_in : List Sale → String → Bool
is_id_in earlier id = any (λ (r : Sale). str_eq r.id id) earlier

abbrev pub line_in : List Sale → LineRow → Bool
line_in earlier l = is_id_in earlier l.sale_id && not l.deleted

unfoldable pub sum_totals : List Sale → ℤ
sum_totals [] = pos 0
sum_totals (r ∷ rs) = r.total_minor +ℤ sum_totals rs

abbrev pub charged_by : String → LedgerRow → Bool
charged_by sale_id r =
    is_charge r.type && is_text r.ref_type "sale" && is_text r.ref_id sale_id && not r.deleted

abbrev is_ref_in : List Sale → Option String → Bool
is_ref_in earlier none = false
is_ref_in earlier (some id) = is_id_in earlier id

abbrev pub taken_back_by : List Sale → LedgerRow → Bool
taken_back_by earlier r = is_text r.ref_type "refund" && is_ref_in earlier r.ref_id && not r.deleted

abbrev pub ledger_sum : (LedgerRow → Bool) → Store → ℤ
ledger_sum p s = sum_where p (λ (r : LedgerRow). r.amount_minor) s.ledger

-- What the return takes off the customer's debt.
unfoldable pub debt_back_of : Store → Sale → List Sale → ℤ → ℤ
debt_back_of s sale earlier total = elim sale.customer_id [
  | none ↦ pos 0
  | some customer_id ↦
      let charged = ledger_sum (charged_by sale.id) s in
      let taken_back = negate (ledger_sum (taken_back_by earlier) s) in
      if ltb_ℤ taken_back charged
      then max_ℤ (pos 0)
          (min_ℤ total (min_ℤ (charged -ℤ taken_back) (customer_balance s customer_id)))
      else pos 0
]

-- The amount of the return: what is left of the sale's total where nothing is left to return.
unfoldable pub total_of : Sale → List Sale → Dict ℤ → Dict ℤ → ℤ → ℤ
total_of sale earlier returnable wanted gross =
    let left = sale.total_minor +ℤ sum_totals earlier in
    if all (λ (e : String × ℤ). eqb_ℤ e.1 (get_or_zero e.0 wanted)) returnable
    then left
    else min_ℤ (refund_total_minor gross sale.subtotal_minor sale.discount_minor) left

abbrev pub own_shift : Store → Option String → String → String → Result (Option String)
own_shift s none user_id branch_id = ok none
own_shift s (some shift_id) user_id branch_id = do
  shift ← require_open_shift s shift_id user_id branch_id
  ok (some shift.id)

-- What the return writes, once every check has passed.
pub record Refund : Type 0 where
  pub sale : Sale
  pub actor_id : String
  pub shift_id : Option String
  pub method : String
  pub wanted : Dict ℤ
  pub values : Dict ℤ
  pub total : ℤ
  pub debt_back : ℤ

abbrev pub gross : Refund → ℤ
gross r = values_sum r.values

abbrev pub money_back : Refund → ℤ
money_back r = r.total -ℤ r.debt_back

unfoldable pub check_refund :
    Store → User → String → List RefundLineInput → String → String → Option String → Result Refund
check_refund s actor sale_id items reason method shift_id = do
  sale ← or_raise (first (sale_with sale_id) s.sales) (not_found Code.sale_not_found)
  raise_if sale.deleted (not_found Code.sale_not_found)
  require_permission actor sale_void sale.branch_id
  require_active_branch s sale.branch_id
  raise_if (not (str_eq sale.status "settled") || is_some sale.refund_of)
      (conflict Code.sale_not_refundable)
  raise_if (not (str_mem method refund_methods)) (validation Code.refund_method_invalid)
  let lines = select (line_of sale.id) s.lines
  let sold_qty = tally (λ (l : LineRow). l.qty_minor) [] lines
  let sold_value = tally (λ (l : LineRow). l.line_total_minor) [] lines
  let earlier = select (refund_row sale.id) s.sales
  let returned = tally (λ (l : LineRow). negate l.qty_minor) [] (select (line_in earlier) s.lines)
  let returnable = less_returned returned sold_qty
  let wanted = tally_wanted [] items
  assert_refund_valid reason wanted returnable
  let values = values_of sold_value sold_qty wanted
  let total = total_of sale earlier returnable wanted (values_sum values)
  shift ← own_shift s shift_id actor.id sale.branch_id
  let debt_back = debt_back_of s sale earlier total
  raise_if (ltb_ℤ (pos 0) (total -ℤ debt_back) && str_eq method "cash" && not (is_some shift))
      (conflict Code.shift_not_open)
  ok (record {
    sale = sale;
    actor_id = actor.id;
    shift_id = shift;
    method = method;
    wanted = wanted;
    values = values;
    total = total;
    debt_back = debt_back;
  })

abbrev pub source_of : List LineRow → String → String → LineRow → Bool
source_of lines sale_id product_id l = line_of sale_id l && str_eq l.product_id product_id

-- `moved`: the sale took the product from stock.
abbrev pub took : String → String → StockRow → Bool
took sale_id product_id m =
    is_text m.ref_type "sale"
    && is_text m.ref_id sale_id
    && not m.deleted
    && str_eq m.product_id product_id

module _ (new_id : ℕ → String) where
  abbrev pub refund_sale_row : (ℕ → String) → Store → Refund → Sale
  refund_sale_row number s r = record {
    id = new_id s.next;
    number = number (length s.sales + 1);
    branch_id = r.sale.branch_id;
    shift_id = r.shift_id;
    customer_id = r.sale.customer_id;
    status = "settled";
    currency = r.sale.currency;
    discount_minor = negate (gross r -ℤ r.total);
    subtotal_minor = negate (gross r);
    tax_minor = pos 0;
    total_minor = negate r.total;
    paid_minor = negate (money_back r);
    change_minor = pos 0;
    refund_of = some r.sale.id;
    deleted = false;
  }

  abbrev returned_line : ℕ → String → String → ℤ → ℤ → LineRow → LineRow
  returned_line n sale_id product_id qty value src = record {
    id = new_id n;
    sale_id = sale_id;
    product_id = product_id;
    name = src.name;
    qty_minor = negate qty;
    decimal_places = src.decimal_places;
    unit_price_minor = src.unit_price_minor;
    unit_cost_minor = src.unit_cost_minor;
    line_total_minor = negate value;
    currency = src.currency;
    deleted = false;
  }

  -- A line for each product wanted, after the first line that sold it: `source[product_id]`.
  unfoldable pub refund_lines : ℕ → String → Store → Refund → Dict ℤ → Result (List LineRow)
  refund_lines n sale_id s r [] = ok []
  refund_lines n sale_id s r ((p, q) ∷ wanted) = do
    src ← or_raise (first (source_of s.lines r.sale.id p) s.lines) crash
    rest ← refund_lines (suc n) sale_id s r wanted
    ok (returned_line n sale_id p q (get_or_zero p r.values) src ∷ rest)

  abbrev pub returned_move : ℕ → String → String → String → ℤ → StockRow
  returned_move n refund_id branch_id product_id qty = record {
    id = new_id n;
    product_id = product_id;
    branch_id = branch_id;
    qty_delta = qty;
    reason = "returned";
    ref_type = some "refund";
    ref_id = some refund_id;
    deleted = false;
  }

  unfoldable pub refund_moves : ℕ → String → Store → Sale → Dict ℤ → List StockRow
  refund_moves n refund_id s sale [] = []
  refund_moves n refund_id s sale ((p, q) ∷ wanted) =
      let skip = refund_moves n refund_id s sale wanted in
      let kept =
        returned_move n refund_id sale.branch_id p q
        ∷ refund_moves (suc n) refund_id s sale wanted in
      if any (took sale.id p) s.moves then kept else skip

  abbrev pub refund_undo : ℕ → String → Sale → ℤ → List LedgerRow
  refund_undo n refund_id sale debt_back = elim sale.customer_id [
    | none ↦ []
    | some customer_id ↦
        if ltb_ℤ (pos 0) debt_back
        then record {
          id = new_id n;
          customer_id = customer_id;
          shift_id = none;
          method = none;
          type = LedgerEntryType.adjustment;
          amount_minor = negate debt_back;
          currency = sale.currency;
          ref_type = some "refund";
          ref_id = some refund_id;
          deleted = false;
        }
          ∷ []
        else []
  ]

  abbrev pub refund_payment : ℕ → String → Refund → List Payment
  refund_payment n refund_id r =
      if ltb_ℤ (pos 0) (money_back r)
      then record {
        id = new_id n;
        sale_id = refund_id;
        method = r.method;
        amount_minor = negate (money_back r);
        currency = r.sale.currency;
        tendered_minor = none;
        change_minor = none;
        deleted = false;
      }
        ∷ []
      else []

  unfoldable pub post_refund : (ℕ → String) → Store → Refund → List LineRow → Store
  unfolding refund_moves
  post_refund number s r lines =
      let sale = refund_sale_row number s r in
      let n = s.next + 1 + length lines in
      let back = refund_moves n sale.id s r.sale r.wanted in
      let undo = refund_undo (n + length back) sale.id r.sale r.debt_back in
      let paid = refund_payment (n + length back + length undo) sale.id r in
      record s {
        sales = s.sales ++ (sale ∷ []);
        lines = s.lines ++ lines;
        moves = s.moves ++ back;
        payments = s.payments ++ paid;
        ledger = s.ledger ++ undo;
        audit =
            s.audit
            ++ (record { action = "sale.refunded"; actor_id = r.actor_id; entity_id = r.sale.id }
                ∷ []);
        feed =
            s.feed
            ++ ((logged "sales" "insert" (some sale.branch_id) sale.id ∷ [])
                ++ (map (λ (l : LineRow). logged "sale_lines" "insert" (some sale.branch_id) l.id)
                      lines
                    ++ (map
                          (λ (m : StockRow).
                            logged "stock_movements" "insert" (some sale.branch_id) m.id)
                          back
                        ++ (map (λ (x : LedgerRow). logged "customer_ledger" "insert" none x.id)
                              undo
                            ++ map
                                (λ (p : Payment).
                                  logged "payments" "insert" (some sale.branch_id) p.id)
                                paid))));
        next = n + length back + length undo + length paid;
      }

  unfoldable pub refund_sale :
      (ℕ → String)
      → Store
      → User
      → String
      → List RefundLineInput
      → String
      → String
      → Option String
      → Result Store
  unfolding post_refund check_refund refund_lines
  refund_sale number s actor sale_id items reason method shift_id = do
    r ← check_refund s actor sale_id items reason method shift_id
    lines ← refund_lines (suc s.next) (new_id s.next) s r r.wanted
    ok (post_refund number s r lines)
