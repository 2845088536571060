-- ===== src/Sync/Handlers/Sales/Amounts.antt =====
-- The amounts of a sale's header that is accepted.
use dukan_pro.Prelude.{
  ◌≡◌, ◌⊎◌, inl, inr, arith, Bool-cases, String, true, false, not, Option, none, some, [], ◌∷◌,
  if◌then◌else◌,
}
use dukan_pro.Prelude.Int.{ℤ, pos, ◌+ℤ◌, ◌-ℤ◌, ltb_ℤ, eqb_ℤ, ◌≤ℤ◌}
use dukan_pro.Prelude.Dict.{erase}
use dukan_pro.Errors.{ok, ◌>>=◌, raise_if, conflict, Code}
use dukan_pro.Domain.Identity.{sale_create, sale_discount, can}
use dukan_pro.Sync.Values.{Fields, str_at, int_at, int_or, str_get}
use dukan_pro.Sync.Types.{Ctx, CustomerRef, ApplyPlan}
use dukan_pro.Sync.Guards.{need, guard_insert, customer, after_close, is_given}
use dukan_pro.Errors.{>>=-eq-ok, >>-eq-ok, passed}
use dukan_pro.Sync.Guards.Passed.{need-eq-ok, guard_insert-eq-ok, customer-eq-ok}
use dukan_pro.Domain.Sales.{assert_discount_valid, assert_sale_not_overpaid}
use dukan_pro.Sync.Handlers.Sales.{
  check_sale_amounts, settled_insert, sales_insert, check_not_negative,
}

-- The amounts that a sale says it came to, and what they obey.
pub record Settled (ctx : Ctx) (v : Fields) (branch : String) : Type 0 where
  pub subtotal : ℤ
  pub discount : ℤ
  pub tax : ℤ
  pub total : ℤ
  pub paid : ℤ
  pub subtotal_read : int_at "subtotal_minor" v ≡ ok subtotal
  pub discount_read : int_or "discount_minor" v (pos 0) ≡ ok discount
  pub tax_read : int_or "tax_minor" v (pos 0) ≡ ok tax
  pub total_read : int_at "total_minor" v ≡ ok total
  pub paid_read : int_at "paid_minor" v ≡ ok paid
  pub sums : total ≡ subtotal -ℤ discount +ℤ tax
  pub discount_in : (pos 0 ≤ℤ discount) × (discount ≤ℤ subtotal)
  pub not_overpaid : paid ≤ℤ total
  pub discount_allowed : (discount ≡ pos 0) ⊎ (can ctx.actor sale_discount branch ≡ true)
  pub paid_or_owed :
      (paid ≡ total)
      ⊎ ((id : String) × (c : CustomerRef) × (str_get "customer_id" v ≡ ok (some id))
          × (ctx.reader.customer id ≡ some c)
          × (c.deleted ≡ false))

check_sale_amounts-Settled :
    (ctx : Ctx) (v : Fields) (branch : String) {u : Unit {0}}
    → check_sale_amounts ctx v branch ≡ ok u
    → Settled ctx v branch
unfolding check_sale_amounts assert_discount_valid assert_sale_not_overpaid
check_sale_amounts-Settled ctx v branch h =
    let (discount, d, h) = >>=-eq-ok (int_or "discount_minor" v (pos 0)) _ h in
    let (subtotal, s, h) = >>=-eq-ok (int_at "subtotal_minor" v) _ h in
    let (valid, h) = >>-eq-ok (assert_discount_valid discount subtotal) _ h in
    let (allowed, h) =
      >>-eq-ok (if ltb_ℤ (pos 0) discount then need ctx sale_discount branch else ok tt) _ h in
    let (total, t, h) = >>=-eq-ok (int_at "total_minor" v) _ h in
    let (tax, x, h) = >>=-eq-ok (int_or "tax_minor" v (pos 0)) _ h in
    let (sums, h) = passed (not (eqb_ℤ total (subtotal -ℤ discount +ℤ tax))) _ _ h in
    let (paid, q, h) = >>=-eq-ok (int_at "paid_minor" v) _ h in
    let (enough, h) = >>-eq-ok (assert_sale_not_overpaid paid total) _ h in
    let (customer_id, c, h) = >>=-eq-ok (str_get "customer_id" v) _ h in
    record {
      subtotal = subtotal;
      discount = discount;
      tax = tax;
      total = total;
      paid = paid;
      subtotal_read = s;
      discount_read = d;
      tax_read = x;
      total_read = t;
      paid_read = q;
      sums = ground arith;
      discount_in = ground arith;
      not_overpaid = ground arith;
      discount_allowed = elim (Bool-cases (ltb_ℤ (pos 0) discount)) [
        | inl some_discount ↦
            inr (need-eq-ok ctx sale_discount branch (rw some_discount at allowed))
        | inr no_discount ↦ inl (ground arith)
      ];
      paid_or_owed = owed customer_id paid total c (ground arith) h;
    }
  where
    owed :
        (o : Option String) (paid total : ℤ) {u : Unit {0}}
        → str_get "customer_id" v ≡ ok o
        → paid ≤ℤ total
        → elim o [
          | none ↦ raise_if (ltb_ℤ paid total) (conflict Code.sale_underpaid)
          | some id ↦ (do _ ← customer ctx id; ok tt)
        ]
          ≡ ok u
        → (paid ≡ total)
          ⊎ ((id : String) × (c : CustomerRef) × (str_get "customer_id" v ≡ ok (some id))
              × (ctx.reader.customer id ≡ some c)
              × (c.deleted ≡ false))
    owed none paid total r le g = inl (ground arith)
    owed (some id) paid total r le g =
        let (c, e, _) = >>=-eq-ok (customer ctx id) _ g in
        let (f, d) = customer-eq-ok ctx id c e in inr (id, c, r, f, d)

-- A sale that is no return and is accepted is new, in a branch where the actor sells, and written
-- as it came but for a return's reason. Its total is its subtotal less its discount plus its tax;
-- the discount is between 0 and the subtotal, and where it is not 0 the actor may discount; no more
-- than the total was paid, and less only on the account of a customer who is not deleted.
pub sales_insert-Settled :
    (ctx : Ctx) (v : Fields) (p : ApplyPlan)
    → is_given "refund_of" v ≡ false
    → sales_insert ctx v ≡ ok p
    → (branch : String) × (p.auth_branch_id ≡ branch)
      × (p.row_branch_id ≡ some branch)
      × (can ctx.actor sale_create branch ≡ true)
      × (ctx.existing ≡ none)
      × (p.values ≡ erase "refund_reason" v)
      × Settled ctx p.values branch
unfolding sales_insert settled_insert
sales_insert-Settled ctx v p n h =
    let (_, h) =
      >>-eq-ok
        (check_not_negative v
          ("discount_minor" ∷ "subtotal_minor" ∷ "total_minor" ∷ "paid_minor" ∷ []))
        _ (rw n at h) in
    let w = erase "refund_reason" v in
    let (branch, b, h) = >>=-eq-ok (str_at "branch_id" w) _ h in
    let (may_sell, h) = >>-eq-ok (need ctx sale_create branch) _ h in
    let (fresh, h) = >>-eq-ok (guard_insert ctx) _ h in
    let (shift_id, s, h) = >>=-eq-ok (str_get "shift_id" w) _ h in
    let (late, l, h) = >>=-eq-ok (after_close ctx shift_id branch) _ h in
    let (amounts, h) = >>-eq-ok (check_sale_amounts ctx w branch) _ h in
    let (number, m, h) = >>=-eq-ok (str_at "number" w) _ h in
    let same : w ≡ p.values = ground arith in
    (
      branch,
      ground arith,
      ground arith,
      need-eq-ok ctx sale_create branch may_sell,
      guard_insert-eq-ok ctx fresh,
      ground arith,
      rw (← same) (check_sale_amounts-Settled ctx w branch amounts),
    )
