-- ===== src/Sync/Handlers/Debts/Bounds.antt =====
-- The bounds of a debt that is charged, taken back or written off.
use dukan_pro.Prelude.{
  Bool, refl, [], ◌∷◌, ◌||◌, ◌≡◌, ◌≢◌, ◌⊎◌, inl, inr, arith, Bool-cases, String, true, false, not,
  none, some,
}
use dukan_pro.Prelude.Int.{ℤ, pos, ◌+ℤ◌, ◌-ℤ◌, negate, ltb_ℤ, leb_ℤ, ◌≤ℤ◌, ◌<ℤ◌}
use dukan_pro.Prelude.Text.{str_eq, str_mem, str_eq→eq, not_equal, is_text}
use dukan_pro.Errors.{or_raise, ok, validation, Code}
use dukan_pro.Domain.Identity.{sale_void, can}
use dukan_pro.Sync.Values.{Fields, str_at, str_get}
use dukan_pro.Sync.Types.{Ctx, CustomerRef, SaleRef, ApplyPlan}
use dukan_pro.Sync.Guards.{
  need, guard_insert, customer, sale, own_sale, require_complete_lines, violates,
}
use dukan_pro.Errors.{>>=-eq-ok, >>-eq-ok, passed}
use dukan_pro.Prelude.Text.{eq_iff}
use dukan_pro.Sync.Guards.Passed.{
  is_text_iff, need-eq-ok, guard_insert-eq-ok, sale-eq-ok, customer-eq-ok, own_sale-eq-ok,
  complete-eq-ok, OwnSale,
}
use dukan_pro.Domain.Customers.{assert_within_credit_limit}
use dukan_pro.Sync.Handlers.Debts.{
  charge_insert, check_charge, adjustment_insert, debt_reversal, reversed_sale, returned_sale,
}

-- A charge that is accepted names a sale of the actor's own whose lines are complete, and the
-- sale's customer, who is not deleted; with all charges of that sale before it, it is within the
-- part of the total that was not paid. Its row is new, in the sale's branch.
pub charge_insert-within_unpaid :
    (ctx : Ctx) (v : Fields) (amount : ℤ) (currency : String) (p : ApplyPlan)
    → charge_insert ctx v amount currency ≡ ok p
    → (id : String) × (s : SaleRef) × (c : CustomerRef) × (str_get "ref_id" v ≡ ok (some id))
      × OwnSale ctx id s
      × (s.customer_id ≡ some c.id)
      × (c.deleted ≡ false)
      × (ctx.reader.sale_lines_total s.id ≡ s.subtotal_minor)
      × (ctx.reader.sale_charges_total s.id +ℤ amount ≤ℤ s.total_minor -ℤ s.paid_minor)
      × (ctx.existing ≡ none)
      × (p.row_branch_id ≡ some s.branch_id)
unfolding charge_insert check_charge
charge_insert-within_unpaid ctx v amount currency p h =
    let (ref_type, t, h) = >>=-eq-ok (str_get "ref_type" v) _ h in
    let (sale_type, h) = passed (not (is_text ref_type "sale")) _ _ h in
    let (ref_id, r, h) = >>=-eq-ok (str_get "ref_id" v) _ h in
    let (id, i, h) = >>=-eq-ok (or_raise ref_id (validation Code.sync_field_required)) _ h in
    let (s, o, h) = >>=-eq-ok (own_sale ctx id) _ h in
    let (fresh, h) = >>-eq-ok (guard_insert ctx) _ h in
    let (customer_id, k, h) = >>=-eq-ok (str_at "customer_id" v) _ h in
    let (c, f, h) = >>=-eq-ok (customer ctx customer_id) _ h in
    let (checked, h) = >>-eq-ok (check_charge ctx v s c amount currency) _ h in
    let (over, w, h) =
      >>=-eq-ok
        (violates (
          assert_within_credit_limit (ctx.reader.customer_balance c.id) amount
            c.credit_limit_minor))
        _ h in
    let (whose, q) = passed (not (is_text s.customer_id c.id)) _ _ checked in
    let (_, q) = passed (not (str_eq currency s.currency)) _ _ q in
    let (_, q) = passed (not (str_eq c.currency s.currency)) _ _ q in
    let (complete, q) = >>-eq-ok (require_complete_lines ctx s) _ q in
    let given : ref_id ≡ some id = ground arith in
    (
      id,
      s,
      c,
      rw given at r,
      own_sale-eq-ok ctx id s o,
      is_text_iff s.customer_id c.id (ground arith),
      (customer-eq-ok ctx customer_id c f).1,
      complete-eq-ok ctx s complete,
      ground arith,
      guard_insert-eq-ok ctx fresh,
      ground arith,
    )

-- The sale whose debt comes off, and why. An entry for a void names that sale, which was voided; any
-- other, which is for a return, names a return of it, and no more comes off than that is worth.
pub Reverses : Ctx → String → ℤ → SaleRef → SaleRef → Type 0
Reverses ctx ref_type amount source s =
    ((ref_type ≡ "void") × (source ≡ s) × (s.status ≡ "voided"))
    ⊎ ((original_id : String) × (ref_type ≢ "void")
        × (source.refund_of ≡ some original_id)
        × (ctx.reader.sale original_id ≡ some s)
        × (negate amount ≤ℤ negate source.total_minor))

or_left : (b : Bool) → (b || false) ≡ true → b ≡ true
or_left true h = refl
or_left false h = cc

reversed_sale-Reverses :
    (ctx : Ctx) (ref_type : String) (source s : SaleRef) (amount : ℤ)
    → reversed_sale ctx ref_type source amount ≡ ok s
    → Reverses ctx ref_type amount source s
unfolding reversed_sale returned_sale Reverses
reversed_sale-Reverses ctx ref_type source s amount h = elim (Bool-cases (str_eq ref_type "void")) [
  | inl void ↦
      let (voided, e) = passed (not (str_eq source.status "voided")) _ _ (rw void at h) in
      let same : source ≡ s = ground arith in
      inl (
        str_eq→eq ref_type "void" void,
        same,
        rw (← same) (ground (arith, eq_iff source.status "voided")),
      )
  | inr refund ↦
      let (original_id, o, h) =
        >>=-eq-ok (or_raise source.refund_of (validation Code.sync_ref_mismatch)) _
          (rw refund at h) in
      let (within, h) = passed (ltb_ℤ (negate source.total_minor) (negate amount)) _ _ h in
      inr (
        original_id,
        not_equal ref_type "void" refund,
        ground arith,
        sale-eq-ok ctx original_id h,
        ground arith,
      )
]

-- What an entry that takes debt back is held to: a negative amount, by an actor who may void in the
-- branch of the sale that it names; with all that came off before, within what the sale charged.
pub Reversed : Ctx → Fields → String → ℤ → Type 0
Reversed ctx v ref_type amount =
    (id : String) × (source : SaleRef) × (s : SaleRef) × (c : CustomerRef) × (str_get "ref_id" v
      ≡ ok (some id))
    × (ctx.reader.sale id ≡ some source)
    × Reverses ctx ref_type amount source s
    × (can ctx.actor sale_void source.branch_id ≡ true)
    × (s.customer_id ≡ some c.id)
    × (amount <ℤ pos 0)
    × (ctx.reader.sale_reversed_debt s.id -ℤ amount ≤ℤ ctx.reader.sale_charges_total s.id)
    × (ctx.existing ≡ none)

debt_reversal-Reversed :
    (ctx : Ctx) (v : Fields) (ref_type : String) (amount : ℤ) (currency : String) (p : ApplyPlan)
    → debt_reversal ctx v ref_type amount currency ≡ ok p
    → Reversed ctx v ref_type amount
unfolding debt_reversal Reversed
debt_reversal-Reversed ctx v ref_type amount currency p h =
    let (ref_id, r, h) = >>=-eq-ok (str_get "ref_id" v) _ h in
    let (id, i, h) = >>=-eq-ok (or_raise ref_id (validation Code.sync_field_required)) _ h in
    let (negative, h) = passed (leb_ℤ (pos 0) amount) _ _ h in
    let (source, o, h) = >>=-eq-ok (sale ctx id) _ h in
    let (may_void, h) = >>-eq-ok (need ctx sale_void source.branch_id) _ h in
    let (fresh, h) = >>-eq-ok (guard_insert ctx) _ h in
    let (s, e, h) = >>=-eq-ok (reversed_sale ctx ref_type source amount) _ h in
    let (customer_id, k, h) = >>=-eq-ok (str_at "customer_id" v) _ h in
    let (c, f, h) = >>=-eq-ok (customer ctx customer_id) _ h in
    let (whose, h) = passed (not (is_text s.customer_id c.id)) _ _ h in
    let (_, h) = passed (not (str_eq currency c.currency)) _ _ h in
    let (within, h) =
      passed
        (ltb_ℤ (ctx.reader.sale_charges_total s.id) (ctx.reader.sale_reversed_debt s.id -ℤ amount))
        _ _ h in
    let given : ref_id ≡ some id = ground arith in
    (
      id,
      source,
      s,
      c,
      rw given at r,
      sale-eq-ok ctx id o,
      reversed_sale-Reverses ctx ref_type source s amount e,
      need-eq-ok ctx sale_void source.branch_id may_void,
      is_text_iff s.customer_id c.id (ground arith),
      ground arith,
      ground arith,
      guard_insert-eq-ok ctx fresh,
    )

-- An adjustment that is accepted for a void or a return, which its ref_type says, is a negative
-- amount, by an actor who may void in the branch of the void or return that it names. With all that
-- came off before it, it is within what the sale charged: for a void the sale that it names, which
-- was voided; for a return the one that the return is of, and then also within what that is worth.
pub adjustment_insert-within_charges :
    (ctx : Ctx) (v : Fields) (ref_type : String) (amount : ℤ) (currency : String) (p : ApplyPlan)
    → str_get "ref_type" v ≡ ok (some ref_type)
    → str_mem ref_type ("void" ∷ "refund" ∷ []) ≡ true
    → adjustment_insert ctx v amount currency ≡ ok p
    → Reversed ctx v ref_type amount
unfolding adjustment_insert
adjustment_insert-within_charges ctx v ref_type amount currency p given kind h =
    elim (Bool-cases (str_eq ref_type "void")) [
      | inl void ↦
          let h1 = rw (given, void) at h in
          let same = str_eq→eq ref_type "void" void in
          rw same (debt_reversal-Reversed ctx v "void" amount currency p h1)
      | inr other ↦
          let refund = or_left (str_eq ref_type "refund") (rw other at kind) in
          let h1 = rw (given, other, refund) at h in
          let same = str_eq→eq ref_type "refund" refund in
          rw same (debt_reversal-Reversed ctx v "refund" amount currency p h1)
    ]
