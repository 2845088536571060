-- ===== src/Sync/Handlers/Payments/Bounds.antt =====
-- What an accepted payment is bounded by.
use dukan_pro.Prelude.{◌≡◌, ◌≢◌, ◌⊎◌, inl, inr, arith, Option-cases, String, true, none}
use dukan_pro.Prelude.Int.{ℤ, pos, ◌+ℤ◌, ◌≤ℤ◌, ◌<ℤ◌}
use dukan_pro.Errors.{ok}
use dukan_pro.Domain.Identity.{sale_void, can}
use dukan_pro.Sync.Values.{Fields, str_at, int_at}
use dukan_pro.Sync.Types.{Ctx, SaleRef, ApplyPlan}
use dukan_pro.Sync.Guards.{need, guard_insert, own_sale, require_complete_lines}
use dukan_pro.Errors.{>>=-eq-ok, >>-eq-ok}
use dukan_pro.Sync.Guards.Passed.{need-eq-ok, own_sale-eq-ok, OwnSale}
use dukan_pro.Sync.Handlers.Payments.{sale_payment, refund_payment, payments_insert}

-- Money taken for a sale: positive, and with all payments before within what the sale says was
-- paid, and within its total.
pub record Taken (ctx : Ctx) (s : SaleRef) (amount : ℤ) : Type 0 where
  pub positive : pos 0 <ℤ amount
  pub within_paid : ctx.reader.sale_payments_total s.id +ℤ amount ≤ℤ s.paid_minor
  pub within_total : ctx.reader.sale_payments_total s.id +ℤ amount ≤ℤ s.total_minor

-- Money handed back on a return: negative, by someone who may void, and never more than the return
-- says was paid out.
pub record HandedBack (ctx : Ctx) (s : SaleRef) (amount : ℤ) : Type 0 where
  pub negative : amount <ℤ pos 0
  pub within_paid : s.paid_minor ≤ℤ ctx.reader.sale_payments_total s.id +ℤ amount
  pub may_void : can ctx.actor sale_void s.branch_id ≡ true

-- Of both: the payload is kept as it is, the row is new, and the sale's lines are all there.
pub record Kept (ctx : Ctx) (v : Fields) (s : SaleRef) (p : ApplyPlan) : Type 0 where
  pub written : p.values ≡ v
  pub fresh : ctx.existing ≡ none
  pub complete : ctx.reader.sale_lines_total s.id ≡ s.subtotal_minor

sale_payment-Taken :
    (ctx : Ctx) (v : Fields) (s : SaleRef) (p : ApplyPlan)
    → sale_payment ctx v s ≡ ok p
    → (amount : ℤ) × (int_at "amount_minor" v ≡ ok amount) × Taken ctx s amount × Kept ctx v s p
unfolding sale_payment require_complete_lines guard_insert
sale_payment-Taken ctx v s p h =
    let (amount, a, h) = >>=-eq-ok (int_at "amount_minor" v) _ h in
    (
      amount,
      a,
      record { positive = ground arith; within_paid = ground arith; within_total = ground arith },
      record { written = ground arith; fresh = ground arith; complete = ground arith },
    )

refund_payment-HandedBack :
    (ctx : Ctx) (v : Fields) (s : SaleRef) (p : ApplyPlan)
    → refund_payment ctx v s ≡ ok p
    → (amount : ℤ) × (int_at "amount_minor" v ≡ ok amount)
      × HandedBack ctx s amount
      × Kept ctx v s p
unfolding refund_payment require_complete_lines guard_insert
refund_payment-HandedBack ctx v s p h =
    let (m, h) = >>-eq-ok (need ctx sale_void s.branch_id) _ h in
    let (g, h) = >>-eq-ok (guard_insert ctx) _ h in
    let (amount, a, h) = >>=-eq-ok (int_at "amount_minor" v) _ h in
    (
      amount,
      a,
      record {
        negative = ground arith;
        within_paid = ground arith;
        may_void = need-eq-ok ctx sale_void s.branch_id m;
      },
      record { written = ground arith; fresh = ground arith; complete = ground arith },
    )

-- A payment that is accepted names a sale of the actor's own, in a branch where the actor sells; it
-- is a new row, its payload is written as it is, and the lines of its sale add up to the sale's
-- subtotal. On a sale that is no return it is positive, and with all payments before it within both
-- what the sale says was paid and the sale's total. On a return it is negative, the actor may void,
-- and with all payments before it is never below what the return says was paid.
pub payments_insert-bounds :
    (ctx : Ctx) (v : Fields) (p : ApplyPlan)
    → payments_insert ctx v ≡ ok p
    → (id : String) × (s : SaleRef) × (amount : ℤ) × (str_at "sale_id" v ≡ ok id)
      × (int_at "amount_minor" v ≡ ok amount)
      × OwnSale ctx id s
      × Kept ctx v s p
      × (((s.refund_of ≡ none) × Taken ctx s amount)
          ⊎ ((s.refund_of ≢ none) × HandedBack ctx s amount))
unfolding payments_insert
payments_insert-bounds ctx v p h =
    let (id, i, h) = >>=-eq-ok (str_at "sale_id" v) _ h in
    let (s, o, h) = >>=-eq-ok (own_sale ctx id) _ h in
    elim (Option-cases s.refund_of) [
      | inl none_of ↦
          let (amount, a, t, k) = sale_payment-Taken ctx v s p (rw none_of at h) in
          (id, s, amount, i, a, own_sale-eq-ok ctx id s o, k, inl (none_of, t))
      | inr (original, e) ↦
          let (amount, a, t, k) = refund_payment-HandedBack ctx v s p (rw e at h) in
          (id, s, amount, i, a, own_sale-eq-ok ctx id s o, k, inr ((λ n. cc), t))
    ]
