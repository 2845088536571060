-- ===== src/SalesService/Refunds/Passed.antt =====
-- The checks that a return passed.
use dukan_pro.Prelude.{
  ℕ, suc, String, ◌≡◌, refl, false, not, ◌&&◌, ◌||◌, Option, some, is_some, List, [],
}
use mathlib.Core.Path.{subst}
use dukan_pro.Prelude.Int.{ℤ, pos, negate, ltb_ℤ}
use dukan_pro.Prelude.Text.{str_eq, str_mem}
use dukan_pro.Prelude.Dict.{Dict}
use dukan_pro.Errors.{
  ok, >>=-eq-ok, >>-eq-ok, or_raise, or_raise-eq-ok, passed, ok_inj, not_found, conflict,
  validation, Code,
}
use dukan_pro.Domain.Identity.{User}
use dukan_pro.Domain.Sales.{assert_refund_valid}
use dukan_pro.Store.{Store, Sale, LineRow}
use dukan_pro.Store.Queries.{select, first, sale_with, require_active_branch}
use dukan_pro.SalesService.Refunds.{
  RefundLineInput, refund_methods, tally, tally_wanted, less_returned, line_of, line_in, refund_row,
  total_of, debt_back_of, own_shift, gross, money_back, Refund, check_refund, refund_lines,
  post_refund, refund_sale,
}

-- The earlier returns of a sale, what it sold of each product, and what is left of that to return.
abbrev pub earlier_of : Store → Sale → List Sale
earlier_of s sale = select (refund_row sale.id) s.sales

abbrev pub sold_of : Store → Sale → Dict ℤ
sold_of s sale = tally (λ (l : LineRow). l.qty_minor) [] (select (line_of sale.id) s.lines)

abbrev pub returnable_of : Store → Sale → Dict ℤ
returnable_of s sale =
    less_returned
      (tally (λ (l : LineRow). negate l.qty_minor) []
        (select (line_in (earlier_of s sale)) s.lines))
      (sold_of s sale)

-- What the checks let through.
pub record Returns (s : Store) (sale_id reason : String) (items : List RefundLineInput) (r : Refund)
    : Type 0 where
  pub stored : first (sale_with sale_id) s.sales ≡ some r.sale
  pub there : r.sale.deleted ≡ false
  pub settled : (not (str_eq r.sale.status "settled") || is_some r.sale.refund_of) ≡ false
  pub wants : r.wanted ≡ tally_wanted [] items
  pub valid : assert_refund_valid reason r.wanted (returnable_of s r.sale) ≡ ok tt
  pub amount :
      r.total ≡ total_of r.sale (earlier_of s r.sale) (returnable_of s r.sale) r.wanted (gross r)
  pub debt : r.debt_back ≡ debt_back_of s r.sale (earlier_of s r.sale) r.total
  pub drawer :
      (ltb_ℤ (pos 0) (money_back r) && str_eq r.method "cash" && not (is_some r.shift_id)) ≡ false

check_refund-Returns :
    (s : Store) (actor : User) (sale_id : String) (items : List RefundLineInput)
    (reason method : String) (shift_id : Option String) (r : Refund)
    → check_refund s actor sale_id items reason method shift_id ≡ ok r
    → Returns s sale_id reason items r
unfolding check_refund
check_refund-Returns s actor sale_id items reason method shift_id r h =
    let (sale, found, h1) =
      >>=-eq-ok (or_raise (first (sale_with sale_id) s.sales) (not_found Code.sale_not_found)) _
        h in
    let (there, h2) = passed sale.deleted (not_found Code.sale_not_found) _ h1 in
    let (_, h3) = >>-eq-ok _ _ h2 in
    let (_, h4) = >>-eq-ok (require_active_branch s sale.branch_id) _ h3 in
    let (settled, h5) = passed _ (conflict Code.sale_not_refundable) _ h4 in
    let (_, h6) =
      passed (not (str_mem method refund_methods)) (validation Code.refund_method_invalid) _ h5 in
    let (valid, h7) = >>-eq-ok _ _ h6 in
    let (shift, _, h8) = >>=-eq-ok (own_shift s shift_id actor.id sale.branch_id) _ h7 in
    let (drawer, h9) = passed _ (conflict Code.shift_not_open) _ h8 in
    subst (Returns s sale_id reason items) (ok_inj h9) (record {
      stored = or_raise-eq-ok _ _ found;
      there = there;
      settled = settled;
      wants = refl;
      valid = valid;
      amount = refl;
      debt = refl;
      drawer = drawer;
    })

pub refund_sale-Returns :
    (new_id : ℕ → String) (number : ℕ → String) (s after : Store) (actor : User) (sale_id : String)
    (items : List RefundLineInput) (reason method : String) (shift_id : Option String)
    → refund_sale new_id number s actor sale_id items reason method shift_id ≡ ok after
    → (r : Refund) × (lines : List LineRow) × Returns s sale_id reason items r
      × (post_refund new_id number s r lines ≡ after)
unfolding refund_sale
refund_sale-Returns new_id number s after actor sale_id items reason method shift_id h =
    let (r, checked, h1) =
      >>=-eq-ok (check_refund s actor sale_id items reason method shift_id) _ h in
    let (lines, _, posted) =
      >>=-eq-ok (refund_lines new_id (suc s.next) (new_id s.next) s r r.wanted) _ h1 in
    (
      r,
      lines,
      check_refund-Returns s actor sale_id items reason method shift_id r checked,
      ok_inj posted,
    )
