-- ===== src/Sync/Handlers/Sales/Refunds.antt =====
-- The amounts of a return that is accepted.
use dukan_pro.Prelude.{◌≡◌, ◌≢◌, arith, String, true, not, ◌||◌, none, some, is_some}
use dukan_pro.Prelude.Int.{ℤ, pos, ◌+ℤ◌, ◌-ℤ◌, negate, ltb_ℤ, ◌≤ℤ◌}
use dukan_pro.Prelude.Text.{str_eq}
use dukan_pro.Prelude.Dict.{erase}
use dukan_pro.Errors.{ok}
use dukan_pro.Domain.Identity.{sale_void, can}
use dukan_pro.Sync.Values.{Fields, str_at, int_at, int_or, str_get}
use dukan_pro.Sync.Types.{Ctx, SaleRef, ApplyPlan}
use dukan_pro.Sync.Guards.{need, guard_insert, sale, after_close, is_given}
use dukan_pro.Errors.{>>=-eq-ok, >>-eq-ok, passed}
use dukan_pro.Prelude.Text.{eq_iff}
use dukan_pro.Sync.Guards.Passed.{need-eq-ok, guard_insert-eq-ok, sale-eq-ok}
use dukan_pro.Sync.Handlers.Sales.{
  sales_insert, refund_insert, refund_reason, check_refund_amounts, check_refund_of, is_non_zero,
}

-- The amounts that a return says, and what they obey beside its original.
pub record RefundAmounts (ctx : Ctx) (v : Fields) (original : SaleRef) : Type 0 where
  pub subtotal : ℤ
  pub discount : ℤ
  pub total : ℤ
  pub paid : ℤ
  pub subtotal_read : int_at "subtotal_minor" v ≡ ok subtotal
  pub discount_read : int_or "discount_minor" v (pos 0) ≡ ok discount
  pub total_read : int_at "total_minor" v ≡ ok total
  pub paid_read : int_at "paid_minor" v ≡ ok paid
  pub sums : total ≡ subtotal -ℤ discount
  pub signs : (subtotal ≤ℤ pos 0) × (total ≤ℤ paid) × (paid ≤ℤ pos 0)
  pub within_original :
      negate total ≤ℤ original.total_minor +ℤ ctx.reader.sale_refunds_total original.id

check_refund_amounts-RefundAmounts :
    (ctx : Ctx) (v : Fields) (original : SaleRef) {u : Unit {0}}
    → check_refund_amounts ctx v original ≡ ok u
    → RefundAmounts ctx v original
unfolding check_refund_amounts
check_refund_amounts-RefundAmounts ctx v original h =
    let (subtotal, s, h) = >>=-eq-ok (int_at "subtotal_minor" v) _ h in
    let (total, t, h) = >>=-eq-ok (int_at "total_minor" v) _ h in
    let (paid, q, h) = >>=-eq-ok (int_at "paid_minor" v) _ h in
    let (change, c, h) = >>=-eq-ok (is_non_zero "change_minor" v) _ h in
    let (tax, x, h) = >>=-eq-ok (is_non_zero "tax_minor" v) _ h in
    let (signs, h) =
      passed (ltb_ℤ (pos 0) subtotal || ltb_ℤ (pos 0) total || ltb_ℤ (pos 0) paid || change || tax)
        _ _ h in
    let (discount, d, h) = >>=-eq-ok (int_or "discount_minor" v (pos 0)) _ h in
    record {
      subtotal = subtotal;
      discount = discount;
      total = total;
      paid = paid;
      subtotal_read = s;
      discount_read = d;
      total_read = t;
      paid_read = q;
      sums = ground arith;
      signs = (ground arith, ground arith, ground arith);
      within_original = ground arith;
    }

-- The original of a return: a settled sale, no return itself, that is in the return's branch, where
-- the actor may void.
pub record Original (ctx : Ctx) (v : Fields) (original : SaleRef) : Type 0 where
  pub branch : str_at "branch_id" v ≡ ok original.branch_id
  pub settled : original.status ≡ "settled"
  pub no_return : original.refund_of ≡ none
  pub may_void : can ctx.actor sale_void original.branch_id ≡ true

check_refund_of-settled :
    (v : Fields) (original : SaleRef) (branch : String) {u : Unit {0}}
    → check_refund_of v original branch ≡ ok u
    → (branch ≡ original.branch_id) × (original.status ≡ "settled") × (original.refund_of ≡ none)
unfolding check_refund_of
check_refund_of-settled v original branch h =
    let (b, h) = passed (not (str_eq branch original.branch_id)) _ _ h in
    let (r, h) =
      passed (not (str_eq original.status "settled") || is_some original.refund_of) _ _ h in
    (
      ground (arith, eq_iff branch original.branch_id),
      ground (arith, eq_iff original.status "settled"),
      ground arith,
    )

-- A return that is accepted is new and names a settled sale that is no return, in its own branch,
-- where the actor may void. Its total is its subtotal less its discount, its amounts are not
-- positive, no more is handed back than the goods are worth, and with all returns of that sale
-- before it no more comes back than the sale's total. It gives a reason, which is not written.
pub refund_insert-RefundAmounts :
    (ctx : Ctx) (v : Fields) (p : ApplyPlan)
    → is_given "refund_of" v ≡ true
    → sales_insert ctx v ≡ ok p
    → (id : String) × (original : SaleRef) × (str_at "refund_of" v ≡ ok id)
      × (ctx.reader.sale id ≡ some original)
      × Original ctx v original
      × RefundAmounts ctx v original
      × (ctx.existing ≡ none)
      × (p.values ≡ erase "refund_reason" v)
      × (refund_reason v ≢ ok "")
unfolding sales_insert refund_insert
refund_insert-RefundAmounts ctx v p g h =
    let (id, i, h) = >>=-eq-ok (str_at "refund_of" v) _ (rw g at h) in
    let (original, o, h) = >>=-eq-ok (sale ctx id) _ h in
    let (may_void, h) = >>-eq-ok (need ctx sale_void original.branch_id) _ h in
    let (fresh, h) = >>-eq-ok (guard_insert ctx) _ h in
    let (reason, r, h) = >>=-eq-ok (refund_reason v) _ h in
    let (given, h) = passed (str_eq reason "") _ _ h in
    let (branch, b, h) = >>=-eq-ok (str_at "branch_id" v) _ h in
    let (of, h) = >>-eq-ok (check_refund_of v original branch) _ h in
    let (amounts, h) = >>-eq-ok (check_refund_amounts ctx v original) _ h in
    let (shift_id, s, h) = >>=-eq-ok (str_get "shift_id" v) _ h in
    let (late, l, h) = >>=-eq-ok (after_close ctx shift_id branch) _ h in
    let (same, settled, no_return) = check_refund_of-settled v original branch of in
    (
      id,
      original,
      i,
      sale-eq-ok ctx id o,
      record {
        branch = rw (← same) b;
        settled = settled;
        no_return = no_return;
        may_void = need-eq-ok ctx sale_void original.branch_id may_void;
      },
      check_refund_amounts-RefundAmounts ctx v original amounts,
      guard_insert-eq-ok ctx fresh,
      ground arith,
      λ blank. ground (arith, eq_iff reason ""),
    )
