-- ===== src/Sync/Accepted/Money.antt =====
-- The plans for the lines and payments of a sale.
use dukan_pro.Prelude.{◌≡◌, inl, inr, arith, Bool-cases, ◌||◌, is_some}
use dukan_pro.Prelude.Int.{pos, ltb_ℤ, leb_ℤ}
use dukan_pro.Errors.{ok}
use dukan_pro.Domain.Identity.{sale_void}
use dukan_pro.Sync.Values.{Fields, str_at, int_at}
use dukan_pro.Sync.Types.{Ctx, SaleRef, ApplyPlan}
use dukan_pro.Sync.Guards.{need, guard_insert, own_sale}
use dukan_pro.Errors.{>>=-eq-ok, >>-eq-ok, passed}
use dukan_pro.Sync.Plans.{Inserts}
use dukan_pro.Sync.Plans.Made.{own-Inserted}
use dukan_pro.Sync.Handlers.Lines.{sale_lines_insert, sold_line, refund_line}
use dukan_pro.Sync.Handlers.Payments.{payments_insert, sale_payment, refund_payment}

sold_line-fresh :
    (ctx : Ctx) (v : Fields) (s : SaleRef) (p : ApplyPlan)
    → sold_line ctx v s ≡ ok p
    → (guard_insert ctx ≡ ok tt) × (s.branch_id ≡ p.auth_branch_id)
unfolding sold_line
sold_line-fresh ctx v s p h =
    let (qty, q, h) = >>=-eq-ok (int_at "qty_minor" v) _ h in
    let (total, t, h) = >>=-eq-ok (int_at "line_total_minor" v) _ h in
    let (_, h) = passed (leb_ℤ qty (pos 0) || ltb_ℤ total (pos 0)) _ _ h in
    let (fresh, h) = >>-eq-ok (guard_insert ctx) _ h in (fresh, ground arith)

refund_line-fresh :
    (ctx : Ctx) (v : Fields) (s : SaleRef) (p : ApplyPlan)
    → refund_line ctx v s ≡ ok p
    → (guard_insert ctx ≡ ok tt) × (s.branch_id ≡ p.auth_branch_id)
unfolding refund_line
refund_line-fresh ctx v s p h =
    let (may, h) = >>-eq-ok (need ctx sale_void s.branch_id) _ h in
    let (fresh, h) = >>-eq-ok (guard_insert ctx) _ h in (fresh, ground arith)

pub sale_lines_insert-Inserts : Inserts sale_lines_insert
unfolding sale_lines_insert
sale_lines_insert-Inserts ctx v p h =
    let (id, i, h) = >>=-eq-ok (str_at "sale_id" v) _ h in
    let (s, o, h) = >>=-eq-ok (own_sale ctx id) _ h in
    elim (Bool-cases (is_some s.refund_of)) [
      | inl refund ↦
          let (fresh, here) = refund_line-fresh ctx v s p (rw refund at h) in
          own-Inserted ctx p id s o fresh here
      | inr other ↦
          let (fresh, here) = sold_line-fresh ctx v s p (rw other at h) in
          own-Inserted ctx p id s o fresh here
    ]

sale_payment-fresh :
    (ctx : Ctx) (v : Fields) (s : SaleRef) (p : ApplyPlan)
    → sale_payment ctx v s ≡ ok p
    → (guard_insert ctx ≡ ok tt) × (s.branch_id ≡ p.auth_branch_id)
unfolding sale_payment
sale_payment-fresh ctx v s p h =
    let (amount, a, h) = >>=-eq-ok (int_at "amount_minor" v) _ h in
    let (_, h) = passed (leb_ℤ amount (pos 0)) _ _ h in
    let (fresh, h) = >>-eq-ok (guard_insert ctx) _ h in (fresh, ground arith)

refund_payment-fresh :
    (ctx : Ctx) (v : Fields) (s : SaleRef) (p : ApplyPlan)
    → refund_payment ctx v s ≡ ok p
    → (guard_insert ctx ≡ ok tt) × (s.branch_id ≡ p.auth_branch_id)
unfolding refund_payment
refund_payment-fresh ctx v s p h =
    let (may, h) = >>-eq-ok (need ctx sale_void s.branch_id) _ h in
    let (fresh, h) = >>-eq-ok (guard_insert ctx) _ h in (fresh, ground arith)

pub payments_insert-Inserts : Inserts payments_insert
unfolding payments_insert
payments_insert-Inserts ctx v p h =
    let (id, i, h) = >>=-eq-ok (str_at "sale_id" v) _ h in
    let (s, o, h) = >>=-eq-ok (own_sale ctx id) _ h in
    elim (Bool-cases (is_some s.refund_of)) [
      | inl refund ↦
          let (fresh, here) = refund_payment-fresh ctx v s p (rw refund at h) in
          own-Inserted ctx p id s o fresh here
      | inr other ↦
          let (fresh, here) = sale_payment-fresh ctx v s p (rw other at h) in
          own-Inserted ctx p id s o fresh here
    ]
