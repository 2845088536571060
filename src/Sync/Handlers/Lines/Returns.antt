-- ===== src/Sync/Handlers/Lines/Returns.antt =====
-- The lines of a return that are accepted.
use dukan_pro.Prelude.{
  ◌≡◌, ◌≢◌, inl, inr, arith, Option-cases, String, true, not, ◌||◌, Option, none, some,
}
use dukan_pro.Prelude.Int.{ℤ, pos, ◌+ℤ◌, ◌-ℤ◌, negate, ltb_ℤ, leb_ℤ, eqb_ℤ, ◌≤ℤ◌, ◌<ℤ◌}
use dukan_pro.Errors.{or_raise, ok, validation, Code}
use dukan_pro.Domain.Identity.{sale_void, can}
use dukan_pro.Sync.Values.{Fields, str_at, int_at, str_or}
use dukan_pro.Sync.Types.{Ctx, SaleRef, SaleLineRef, ApplyPlan}
use dukan_pro.Sync.Guards.{need, guard_insert, own_sale, default_currency}
use dukan_pro.Errors.{>>=-eq-ok, >>-eq-ok, passed}
use dukan_pro.Sync.Guards.Passed.{need-eq-ok, guard_insert-eq-ok, own_sale-eq-ok, OwnSale}
use dukan_pro.Domain.Sales.{returned_value_minor}
use dukan_pro.Sync.Handlers.Lines.{sale_lines_insert, sold_of, refund_line, check_refund_line}

-- A line of a return, beside what its original sold of the product: no more comes back than was
-- sold, less what came back before, at the price of the sale and for its share of the sale's money,
-- and with the lines before it within the return's subtotal.
pub record Returned (ctx : Ctx) (v : Fields) (refund : SaleRef) (original_id product_id : String)
    (sold : SaleLineRef) : Type 0 where
  pub qty : ℤ
  pub total : ℤ
  pub qty_read : int_at "qty_minor" v ≡ ok qty
  pub total_read : int_at "line_total_minor" v ≡ ok total
  pub price_read : int_at "unit_price_minor" v ≡ ok sold.unit_price_minor
  pub negative : qty <ℤ pos 0
  pub sold_some : pos 0 <ℤ sold.qty_minor
  pub within_sold : negate qty ≤ℤ sold.qty_minor -ℤ ctx.reader.refunded_qty original_id product_id
  pub share : total ≡ negate (returned_value_minor sold.value_minor sold.qty_minor (negate qty))
  pub within_subtotal : refund.subtotal_minor ≤ℤ ctx.reader.sale_lines_total refund.id +ℤ total

sold_of-eq-ok :
    (o : Option SaleLineRef) (l : SaleLineRef)
    → sold_of o ≡ ok l
    → (o ≡ some l) × (pos 0 <ℤ l.qty_minor)
sold_of-eq-ok o l h = ground arith

check_refund_line-Returned :
    (ctx : Ctx) (v : Fields) (refund : SaleRef) (original_id : String) (qty : ℤ)
    (sold : SaleLineRef)
    → int_at "qty_minor" v ≡ ok qty
    → qty <ℤ pos 0
    → check_refund_line ctx v refund original_id qty ≡ ok sold
    → (product_id : String) × (str_at "product_id" v ≡ ok product_id)
      × (ctx.reader.sale_line_ref original_id product_id ≡ some sold)
      × Returned ctx v refund original_id product_id sold
unfolding check_refund_line
check_refund_line-Returned ctx v refund original_id qty sold q lt h =
    let (product_id, i, h) = >>=-eq-ok (str_at "product_id" v) _ h in
    let (l, f, h) = >>=-eq-ok (sold_of (ctx.reader.sale_line_ref original_id product_id)) _ h in
    let (left, h) =
      passed (ltb_ℤ (l.qty_minor -ℤ ctx.reader.refunded_qty original_id product_id) (negate qty)) _
        _ h in
    let (total, t, h) = >>=-eq-ok (int_at "line_total_minor" v) _ h in
    let (price, p, h) = >>=-eq-ok (int_at "unit_price_minor" v) _ h in
    let (sums, h) =
      passed
        (not (eqb_ℤ total (negate (returned_value_minor l.value_minor l.qty_minor (negate qty))))
          || not (eqb_ℤ price l.unit_price_minor))
        _ _ h in
    let (currency, c, h) = >>=-eq-ok (str_or "currency" v default_currency) _ h in
    let same : l ≡ sold = ground arith in
    let (found, some_sold) = sold_of-eq-ok (ctx.reader.sale_line_ref original_id product_id) l f in
    let worth = returned_value_minor l.value_minor l.qty_minor (negate qty) in
    let priced : price ≡ l.unit_price_minor = ground arith in
    (
      product_id,
      i,
      rw same at found,
      rw (← same) (record {
        qty = qty;
        total = total;
        qty_read = q;
        total_read = t;
        price_read = rw priced at p;
        negative = lt;
        sold_some = some_sold;
        within_sold = ground arith;
        share = ground arith;
        within_subtotal = ground arith;
      }),
    )

refund_line-Returned :
    (ctx : Ctx) (v : Fields) (out : ApplyPlan) (s : SaleRef)
    → refund_line ctx v s ≡ ok out
    → (can ctx.actor sale_void s.branch_id ≡ true)
      × (ctx.existing ≡ none)
      × ((original_id : String) × (product_id : String) × (sold : SaleLineRef) × (s.refund_of
            ≡ some original_id)
          × (str_at "product_id" v ≡ ok product_id)
          × (ctx.reader.sale_line_ref original_id product_id ≡ some sold)
          × Returned ctx v s original_id product_id sold)
unfolding refund_line
refund_line-Returned ctx v out s h =
    let (may_void, h) = >>-eq-ok (need ctx sale_void s.branch_id) _ h in
    let (fresh, h) = >>-eq-ok (guard_insert ctx) _ h in
    let (original_id, r, h) =
      >>=-eq-ok (or_raise s.refund_of (validation Code.sync_ref_mismatch)) _ h in
    let (qty, q, h) = >>=-eq-ok (int_at "qty_minor" v) _ h in
    let (negative, h) = passed (leb_ℤ (pos 0) qty) _ _ h in
    let (sold, c, h) = >>=-eq-ok (check_refund_line ctx v s original_id qty) _ h in
    let (product_id, p, f, line) =
      check_refund_line-Returned ctx v s original_id qty sold q (ground arith) c in
    (
      need-eq-ok ctx sale_void s.branch_id may_void,
      guard_insert-eq-ok ctx fresh,
      (original_id, product_id, sold, ground arith, p, f, line),
    )

-- A line of a return that is accepted is new and of a return of the actor's own, where the actor
-- may void. The original sold the product; the quantity is negative and brings back no more than was
-- sold, less what came back before; its price is the one it sold for, its total the share of the
-- money that the original's lines of it came to, and with the lines before it the return's subtotal
-- is not passed.
pub sale_lines_insert-Returned :
    (ctx : Ctx) (v : Fields) (out : ApplyPlan)
    → sale_lines_insert ctx v ≡ ok out
    → (sale_id : String) × (s : SaleRef) × (str_at "sale_id" v ≡ ok sale_id)
      × OwnSale ctx sale_id s
      × (s.refund_of ≢ none
          → (can ctx.actor sale_void s.branch_id ≡ true)
            × (ctx.existing ≡ none)
            × ((original_id : String) × (product_id : String) × (sold : SaleLineRef) × (s.refund_of
                  ≡ some original_id)
                × (str_at "product_id" v ≡ ok product_id)
                × (ctx.reader.sale_line_ref original_id product_id ≡ some sold)
                × Returned ctx v s original_id product_id sold))
unfolding sale_lines_insert
sale_lines_insert-Returned ctx v out h =
    let (sale_id, i, h) = >>=-eq-ok (str_at "sale_id" v) _ h in
    let (s, o, h) = >>=-eq-ok (own_sale ctx sale_id) _ h in
    (
      sale_id,
      s,
      i,
      own_sale-eq-ok ctx sale_id s o,
      λ n.
          refund_line-Returned ctx v out s
            (elim (Option-cases s.refund_of) [ inl e ↦ absurd (n e) | inr (_, e) ↦ rw e at h ]),
    )
