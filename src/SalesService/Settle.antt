-- ===== src/SalesService/Settle.antt =====
-- `SqlSalesService.settle_sale`.
pub mod Checking
pub mod Credit
pub mod Goods
pub mod Passed
use dukan_pro.Prelude.{
  ℕ, suc, ◌+◌, String, false, ◌&&◌, Option, none, some, is_some, List, [], ◌∷◌, ◌++◌, map, length,
  if◌then◌else◌,
}
use dukan_pro.Prelude.Int.{ℤ, pos, ◌-ℤ◌, ltb_ℤ}
use dukan_pro.Errors.{Result, ok, ◌>>=◌, ◌>>◌}
use dukan_pro.Domain.Identity.{User}
use dukan_pro.Domain.Inventory.{StockMovement}
use dukan_pro.Domain.Customers.{LedgerEntryType}
use dukan_pro.Domain.Sales.{SaleLine, line_total}
use dukan_pro.Store.{Store, Sale, LineRow, StockRow, Payment, LedgerRow, AuditEntry, logged}
use dukan_pro.SalesService.Settle.Checking.{
  SaleLineInput, PaymentInput, decimal_places, domain_lines, Settled, check_sale,
}

module _ (new_id : ℕ → String) where
  -- The loops over the lines, the goods and the payments, from the `n`-th id on.
  unfoldable pub line_rows : ℕ → String → List SaleLine → List LineRow
  line_rows n sale_id [] = []
  line_rows n sale_id (l ∷ ls) =
      record {
        id = new_id n;
        sale_id = sale_id;
        product_id = l.product_id;
        name = l.name;
        qty_minor = l.qty_minor;
        decimal_places = l.decimal_places;
        unit_price_minor = l.unit_price_minor;
        unit_cost_minor = l.unit_cost_minor;
        line_total_minor = line_total l;
        currency = l.currency;
        deleted = false;
      }
      ∷ line_rows (suc n) sale_id ls

  abbrev pub change_of : Option ℤ → ℤ → Option ℤ
  change_of none amount = none
  change_of (some t) amount = some (t -ℤ amount)

  unfoldable pub payment_rows : ℕ → String → String → List PaymentInput → List Payment
  payment_rows n sale_id currency [] = []
  payment_rows n sale_id currency (p ∷ ps) =
      record {
        id = new_id n;
        sale_id = sale_id;
        method = p.method;
        amount_minor = p.amount_minor;
        currency = currency;
        tendered_minor = p.tendered_minor;
        change_minor = change_of p.tendered_minor p.amount_minor;
        deleted = false;
      }
      ∷ payment_rows (suc n) sale_id currency ps

  unfoldable pub charge_rows : ℕ → String → String → Option String → ℤ → List LedgerRow
  charge_rows n sale_id currency none credit = []
  charge_rows n sale_id currency (some customer_id) credit =
      if ltb_ℤ (pos 0) credit
      then record {
        id = new_id n;
        customer_id = customer_id;
        shift_id = none;
        method = none;
        type = LedgerEntryType.charge;
        amount_minor = credit;
        currency = currency;
        ref_type = some "sale";
        ref_id = some sale_id;
        deleted = false;
      }
        ∷ []
      else []

  abbrev pub move_row : String → StockMovement → StockRow
  move_row sale_id m = record {
    id = m.id;
    product_id = m.product_id;
    branch_id = m.branch_id;
    qty_delta = m.qty_delta;
    reason = "sale";
    ref_type = some "sale";
    ref_id = some sale_id;
    deleted = false;
  }

  abbrev pub sale_id_of : Store → Settled → String
  sale_id_of s c = new_id (s.next + length c.moves)

  abbrev pub sale_row : (ℕ → String) → Store → Settled → Sale
  sale_row number s c = record {
    id = sale_id_of s c;
    number = number (length s.sales + 1);
    branch_id = c.branch_id;
    shift_id = c.shift_id;
    customer_id = c.customer_id;
    status = "settled";
    currency = c.currency;
    discount_minor = c.discount_minor;
    subtotal_minor = c.totals.subtotal_minor;
    tax_minor = c.totals.tax_minor;
    total_minor = c.totals.total_minor;
    paid_minor = c.paid;
    change_minor = c.change;
    refund_of = none;
    deleted = false;
  }

  abbrev pub settle_audit : String → Settled → List AuditEntry
  settle_audit sale_id c =
      let entry = λ (action : String).
        let e : AuditEntry = record {
          action = action;
          actor_id = c.actor_id;
          entity_id = sale_id;
        } in
        e in
      (if is_some c.customer_id && ltb_ℤ (pos 0) c.credit
        then entry "debt.charge_posted" ∷ []
        else [])
      ++ ((if ltb_ℤ (pos 0) c.discount_minor then entry "discount.applied" ∷ [] else [])
          ++ (entry "sale.settled" ∷ []))

  -- The writes, and the commit.
  unfoldable pub post_sale : (ℕ → String) → Store → Settled → Store
  unfolding line_rows payment_rows charge_rows
  post_sale number s c =
      let sale = sale_row number s c in
      let lines = line_rows (s.next + length c.moves + 1) sale.id (domain_lines c.lines) in
      let moves = map (move_row sale.id) c.moves in
      let payments =
        payment_rows (s.next + length c.moves + 1 + length lines) sale.id c.currency c.payments in
      let charges =
        charge_rows (s.next + length c.moves + 1 + length lines + length payments) sale.id
          c.currency c.customer_id c.credit in
      record s {
        sales = s.sales ++ (sale ∷ []);
        lines = s.lines ++ lines;
        moves = s.moves ++ moves;
        payments = s.payments ++ payments;
        ledger = s.ledger ++ charges;
        audit = s.audit ++ settle_audit sale.id c;
        feed =
            s.feed
            ++ ((logged "sales" "insert" (some c.branch_id) sale.id ∷ [])
                ++ (map (λ (l : LineRow). logged "sale_lines" "insert" (some c.branch_id) l.id)
                      lines
                    ++ (map
                          (λ (m : StockRow).
                            logged "stock_movements" "insert" (some c.branch_id) m.id)
                          moves
                        ++ (map
                              (λ (p : Payment). logged "payments" "insert" (some c.branch_id) p.id)
                              payments
                            ++ map (λ (r : LedgerRow). logged "customer_ledger" "insert" none r.id)
                                charges))));
        next = s.next + length c.moves + 1 + length lines + length payments + length charges;
      }

  unfoldable pub settle_sale :
      (ℕ → String)
      → Store
      → User
      → String
      → List SaleLineInput
      → ℤ
      → List PaymentInput
      → Option String
      → Option String
      → ℤ
      → Result Store
  unfolding post_sale
  settle_sale number s actor branch_id items discount payments shift_id customer_id now = do
    c ← check_sale new_id s actor branch_id items discount payments shift_id customer_id now
    ok (post_sale number s c)
