-- ===== src/Sync/Handlers/Payments/History.antt =====
-- The payments of one sale, one after the other.
use dukan_pro.Prelude.{◌≡◌, inl, inr, arith, String, none, some}
use dukan_pro.Prelude.Int.{ℤ, pos, ◌+ℤ◌, ◌≤ℤ◌}
use dukan_pro.Errors.{ok}
use dukan_pro.Sync.Values.{Fields, str_at, int_at}
use dukan_pro.Sync.Types.{Ctx, SaleRef, ApplyPlan}
use dukan_pro.Prelude.Int.{int_laws}
use dukan_pro.Sync.Handlers.Payments.{payments_insert}
use dukan_pro.Sync.Handlers.Payments.Bounds.{payments_insert-bounds, Taken}

-- The total of the payments that were accepted for a sale, each in a state of the database that has
-- the sale and the total of the ones before it.
pub data History (s : SaleRef) : ℤ → Type 0 where
  start : History s (pos 0)
  pay :
      {total : ℤ} (ctx : Ctx) (v : Fields) (p : ApplyPlan) (id : String) (amount : ℤ)
      → History s total
      → payments_insert ctx v ≡ ok p
      → str_at "sale_id" v ≡ ok id
      → int_at "amount_minor" v ≡ ok amount
      → ctx.reader.sale id ≡ some s
      → ctx.reader.sale_payments_total s.id ≡ total
      → History s (total +ℤ amount)

step-Taken :
    (s : SaleRef) (ctx : Ctx) (v : Fields) (p : ApplyPlan) (id : String) (amount : ℤ)
    → s.refund_of ≡ none
    → payments_insert ctx v ≡ ok p
    → str_at "sale_id" v ≡ ok id
    → int_at "amount_minor" v ≡ ok amount
    → ctx.reader.sale id ≡ some s
    → Taken ctx s amount
step-Taken s ctx v p id amount n h i a f =
    let (id', s', amount', i', a', own, _, cases) = payments_insert-bounds ctx v p h in
    let found = own.found in
    let same_id : id' ≡ id = cc in
    let same : s' ≡ s = cc in
    let same_amount : amount' ≡ amount = cc in
    let taken : Taken ctx s' amount' = elim cases [
      | inl (_, t) ↦ t
      | inr (returned_goods, _) ↦ absurd (returned_goods (rw same n))
    ] in
    rw same_amount at (rw same at taken)

-- However many payments of a sale that is no return are accepted, one after the other, together they
-- are not negative, and where the sale says that a sum that is not negative was paid of a total that
-- is not negative, they are within both.
pub history-within :
    (s : SaleRef) (total : ℤ)
    → s.refund_of ≡ none
    → pos 0 ≤ℤ s.paid_minor
    → pos 0 ≤ℤ s.total_minor
    → History s total
    → (pos 0 ≤ℤ total) × (total ≤ℤ s.paid_minor) × (total ≤ℤ s.total_minor)
history-within s _ n paid all start = (omega arith, paid, all)
history-within s _ n paid all (pay ctx v p id amount before h i a f t) =
    let (nonneg, _, _) = history-within s _ n paid all before in
    let taken = step-Taken s ctx v p id amount n h i a f in
    let positive = taken.positive in
    (omega int_laws, rw t at taken.within_paid, rw t at taken.within_total)
