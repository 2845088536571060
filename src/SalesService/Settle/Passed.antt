-- ===== src/SalesService/Settle/Passed.antt =====
-- The checks that a settled sale passed.
use dukan_pro.Prelude.{ℕ, String, ◌≡◌, refl, Option, is_some, List, [], if◌then◌else◌}
use mathlib.Core.Path.{subst}
use dukan_pro.Prelude.Int.{ℤ, pos, ltb_ℤ}
use dukan_pro.Errors.{ok, >>=-eq-ok, >>-eq-ok, ok_inj}
use dukan_pro.Access.{require_permission}
use dukan_pro.Domain.Identity.{User, sale_create, sale_discount}
use dukan_pro.Domain.Inventory.{StockMovement}
use dukan_pro.Domain.Sales.{
  assert_sale_lines_valid, assert_discount_valid, assert_settleable, assert_sale_not_overpaid,
}
use dukan_pro.Store.{Store}
use dukan_pro.SalesService.Settle.{post_sale, settle_sale}
use dukan_pro.SalesService.Settle.Checking.{
  SaleLineInput, PaymentInput, Priced, Settled, settled_of, price_lines, domain_lines,
  check_payments, check_shift, take_stock, credit_of, check_sale,
}

module _ (new_id : ℕ → String) (s : Store) (actor : User) (branch_id : String)
    (items : List SaleLineInput) (discount : ℤ) (payments : List PaymentInput)
    (shift_id customer_id : Option String) (now : ℤ) where
  pub record Passes (c : Settled) : Type 0 where
    pub permitted : require_permission actor sale_create branch_id ≡ ok tt
    pub in_shift : check_shift s shift_id actor.id branch_id ≡ ok tt
    pub lines : List Priced
    pub moves : List StockMovement
    pub credit : ℤ
    pub same :
        settled_of actor branch_id discount payments shift_id customer_id lines moves credit ≡ c
    pub found : price_lines s items ≡ ok lines
    pub valid : assert_sale_lines_valid (domain_lines lines) c.currency ≡ ok tt
    pub discounted : assert_discount_valid discount c.totals.subtotal_minor ≡ ok tt
    pub discounter :
        (if ltb_ℤ (pos 0) discount then require_permission actor sale_discount branch_id else ok tt)
        ≡ ok tt
    pub settleable :
        assert_settleable
          (domain_lines lines)
          c.totals.total_minor
          c.paid
          c.currency
          (is_some customer_id)
        ≡ ok tt
    pub tendered : check_payments payments ≡ ok tt
    pub not_overpaid : assert_sale_not_overpaid c.paid c.totals.total_minor ≡ ok tt
    pub goods : take_stock new_id s branch_id now s.next [] lines ≡ ok moves
    pub owed : credit_of s customer_id c.paid c.totals.total_minor c.currency ≡ ok credit

  pub check_sale-Passes :
      (c : Settled)
      → check_sale new_id s actor branch_id items discount payments shift_id customer_id now ≡ ok c
      → Passes c
  unfolding check_sale
  check_sale-Passes c h =
      let (permitted, h1) = >>-eq-ok _ _ h in
      let (active, h2) = >>-eq-ok _ _ h1 in
      let (some_lines, h3) = >>-eq-ok _ _ h2 in
      let (in_shift, h4) = >>-eq-ok _ _ h3 in
      let (lines, found, h5) = >>=-eq-ok (price_lines s items) _ h4 in
      let (valid, h6) = >>-eq-ok _ _ h5 in
      let (discounted, h7) = >>-eq-ok _ _ h6 in
      let (discounter, h8) = >>-eq-ok _ _ h7 in
      let (settleable, h9) = >>-eq-ok _ _ h8 in
      let (tendered, h10) = >>-eq-ok _ _ h9 in
      let (not_overpaid, h11) = >>-eq-ok _ _ h10 in
      let (moves, goods, h12) =
        >>=-eq-ok (take_stock new_id s branch_id now s.next [] lines) _ h11 in
      let (credit, owed, h13) = >>=-eq-ok (credit_of s customer_id _ _ _) _ h12 in
      let e : settled_of actor branch_id discount payments shift_id customer_id lines moves credit
          ≡ c =
        ok_inj h13 in
      subst Passes e (record {
        permitted = permitted;
        in_shift = in_shift;
        lines = lines;
        moves = moves;
        credit = credit;
        same = refl;
        found = found;
        valid = valid;
        discounted = discounted;
        discounter = discounter;
        settleable = settleable;
        tendered = tendered;
        not_overpaid = not_overpaid;
        goods = goods;
        owed = owed;
      })

  -- A settled sale passed the checks, and what it wrote is what they let through.
  pub settle_sale-Passes :
      (number : ℕ → String) (after : Store)
      → settle_sale new_id number s actor branch_id items discount payments shift_id customer_id now
        ≡ ok after
      → (c : Settled) × Passes c × (post_sale new_id number s c ≡ after)
  unfolding settle_sale
  settle_sale-Passes number after h =
      let (c, checked, posted) =
        >>=-eq-ok
          (check_sale new_id s actor branch_id items discount payments shift_id customer_id now) _
          h in
      (c, check_sale-Passes c checked, ok_inj posted)
