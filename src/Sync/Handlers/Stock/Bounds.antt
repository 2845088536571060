-- ===== src/Sync/Handlers/Stock/Bounds.antt =====
-- What a movement of stock that is accepted is backed by.
use dukan_pro.Prelude.{
  ◌≡◌, ◌⊎◌, inl, inr, arith, ap, [], ◌∷◌, false, Bool-cases, Option-cases, String, true, not, none,
  some,
}
use dukan_pro.Prelude.Int.{ℤ, pos, ◌+ℤ◌, ◌-ℤ◌, negate, leb_ℤ, ◌≤ℤ◌, ◌<ℤ◌}
use dukan_pro.Prelude.Text.{str_eq, str_eq→eq, str_mem, is_text}
use dukan_pro.Errors.{or_raise, ok, validation, Code}
use dukan_pro.Domain.Identity.{sale_create, sale_void, can}
use dukan_pro.Sync.Values.{Fields, str_at, int_at, str_get}
use dukan_pro.Sync.Types.{Ctx, SaleRef, ApplyPlan}
use dukan_pro.Sync.Guards.{need, guard_insert, product, sale, own_sale}
use dukan_pro.Errors.{>>=-eq-ok, >>-eq-ok, passed, ok_inj}
use dukan_pro.Prelude.Text.{eq_iff}
use dukan_pro.Sync.Guards.Passed.{
  need-eq-ok, guard_insert-eq-ok, sale-eq-ok, own_sale-eq-ok, OwnSale,
}
use dukan_pro.Sync.Handlers.Stock.{
  stock_returned, return_ref, took_by, took_by_void, took_by_refund, stock_sold,
  check_sale_movement,
}

check_sale_movement-backed :
    (ctx : Ctx) (v : Fields) (branch : String) (qty : ℤ) {u : Unit {0}}
    → check_sale_movement ctx v branch qty ≡ ok u
    → (id : String) × (s : SaleRef) × (product_id : String) × (str_get "ref_id" v ≡ ok (some id))
      × (str_at "product_id" v ≡ ok product_id)
      × OwnSale ctx id s
      × (s.branch_id ≡ branch)
      × (qty <ℤ pos 0)
      × (ctx.reader.sale_stock_out_qty s.id product_id -ℤ qty
          ≤ℤ ctx.reader.sale_line_qty s.id product_id)
unfolding check_sale_movement
check_sale_movement-backed ctx v branch qty h =
    let (product_id, i, h) = >>=-eq-ok (str_at "product_id" v) _ h in
    let (p, f, h) = >>=-eq-ok (product ctx product_id true) _ h in
    let (tracked, h) = passed (not p.track_stock) _ _ h in
    let (negative, h) = passed (leb_ℤ (pos 0) qty) _ _ h in
    let (ref_type, t, h) = >>=-eq-ok (str_get "ref_type" v) _ h in
    let (_, h) = passed (not (is_text ref_type "sale")) _ _ h in
    let (ref_id, r, h) = >>=-eq-ok (str_get "ref_id" v) _ h in
    let (id, g, h) = >>=-eq-ok (or_raise ref_id (validation Code.sync_field_required)) _ h in
    let (s, o, h) = >>=-eq-ok (own_sale ctx id) _ h in
    let (same, h) = passed (not (str_eq s.branch_id branch)) _ _ h in
    let given : ref_id ≡ some id = ground arith in
    (
      id,
      s,
      product_id,
      rw given at r,
      i,
      own_sale-eq-ok ctx id s o,
      ground (arith, eq_iff s.branch_id branch),
      ground arith,
      ground arith,
    )

-- A sale's movement that is accepted takes goods out, in the branch of a sale of the actor's own,
-- and with all that moved for that sale before it no more than the sale's lines sold.
pub stock_sold-backed :
    (ctx : Ctx) (v : Fields) (p : ApplyPlan)
    → stock_sold ctx v ≡ ok p
    → (id : String) × (s : SaleRef) × (product_id : String) × (qty : ℤ) × (str_get "ref_id" v
        ≡ ok (some id))
      × (str_at "product_id" v ≡ ok product_id)
      × (int_at "qty_delta" v ≡ ok qty)
      × OwnSale ctx id s
      × (str_at "branch_id" v ≡ ok s.branch_id)
      × (qty <ℤ pos 0)
      × (ctx.reader.sale_stock_out_qty s.id product_id -ℤ qty
          ≤ℤ ctx.reader.sale_line_qty s.id product_id)
      × (ctx.existing ≡ none)
unfolding stock_sold
stock_sold-backed ctx v p h =
    let (branch, b, h) = >>=-eq-ok (str_at "branch_id" v) _ h in
    let (may_sell, h) = >>-eq-ok (need ctx sale_create branch) _ h in
    let (fresh, h) = >>-eq-ok (guard_insert ctx) _ h in
    let (qty, q, h) = >>=-eq-ok (int_at "qty_delta" v) _ h in
    let (checked, h) = >>-eq-ok (check_sale_movement ctx v branch qty) _ h in
    let (id, s, product_id, r, i, own, same, negative, within) =
      check_sale_movement-backed ctx v branch qty checked in
    (
      id,
      s,
      product_id,
      qty,
      r,
      i,
      q,
      own,
      rw same b,
      negative,
      within,
      guard_insert-eq-ok ctx fresh,
    )

-- What comes back to stock at most: for a void, what the sale took, which was voided; for a return,
-- what its lines return of goods that the original took from stock.
pub Took : Ctx → String → SaleRef → String → ℤ → Type 0
Took ctx ref_type s product_id took =
    ((ref_type ≡ "void")
      × (s.status ≡ "voided")
      × (took ≡ ctx.reader.sale_stock_out_qty s.id product_id))
    ⊎ ((original : String) × (ref_type ≡ "refund")
        × (s.refund_of ≡ some original)
        × (pos 0 <ℤ ctx.reader.sale_stock_out_qty original product_id)
        × (took ≡ negate (ctx.reader.sale_line_qty s.id product_id)))

other_kind :
    (ref_type : String)
    → str_mem ref_type ("void" ∷ "refund" ∷ []) ≡ true
    → str_eq ref_type "void" ≡ false
    → str_eq ref_type "refund" ≡ true
other_kind ref_type kind other = ground arith

-- The kind that a movement back is of.
return_ref-kind :
    (v : Fields) (ref_type ref_id : String)
    → return_ref v ≡ ok (ref_type, ref_id)
    → str_mem ref_type ("void" ∷ "refund" ∷ []) ≡ true
unfolding return_ref
return_ref-kind v ref_type ref_id h =
    let (given, _, h) = >>=-eq-ok (str_get "ref_type" v) _ h in
    let (ref, _, h) = >>=-eq-ok (str_get "ref_id" v) _ h in
    let (kind, _, h) = >>=-eq-ok (or_raise given (validation Code.sync_field_required)) _ h in
    let (known, h) = passed (not (str_mem kind ("void" ∷ "refund" ∷ []))) _ _ h in
    let (id, _, h) = >>=-eq-ok (or_raise ref (validation Code.sync_field_required)) _ h in
    let same : kind ≡ ref_type = ap (λ (x : String × String). x.0) (ok_inj h) in
    rw (← same) (ground arith)

took_by-Took :
    (ctx : Ctx) (ref_type : String) (s : SaleRef) (product_id : String) (took : ℤ)
    → str_mem ref_type ("void" ∷ "refund" ∷ []) ≡ true
    → took_by ctx ref_type s product_id ≡ ok took
    → Took ctx ref_type s product_id took
unfolding took_by took_by_void took_by_refund Took
took_by-Took ctx ref_type s product_id took kind h = elim (Bool-cases (str_eq ref_type "void")) [
  | inl void ↦
      let (voided, h) = passed (not (str_eq s.status "voided")) _ _ (rw void at h) in
      inl (str_eq→eq ref_type "void" void, ground (arith, eq_iff s.status "voided"), ground arith)
  | inr refund ↦ (elim (Option-cases s.refund_of) [
    | inl none_of ↦ (let h = rw (refund, none_of) at h in cc)
    | inr (original, e) ↦
        let h = rw (refund, e) at h in
        let known = str_eq→eq ref_type "refund" (other_kind ref_type kind refund) in
        inr (original, known, e, ground arith, ground arith)
  ])
]

-- Stock that comes back and is accepted is a positive quantity that names a void or a return in its
-- own branch, where the actor may void; with all that came back for it before, it is no more than
-- the void or return brings back. It says which of the two it names, and that sale was voided or is
-- a return.
pub stock_returned-within_taken :
    (ctx : Ctx) (v : Fields) (p : ApplyPlan)
    → stock_returned ctx v ≡ ok p
    → (ref_type : String) × (ref_id : String) × (s : SaleRef) × (product_id : String) × (qty : ℤ)
      × (took : ℤ) × (return_ref v ≡ ok (ref_type, ref_id))
      × (ctx.reader.sale ref_id ≡ some s)
      × (str_at "product_id" v ≡ ok product_id)
      × (int_at "qty_delta" v ≡ ok qty)
      × (str_at "branch_id" v ≡ ok s.branch_id)
      × (can ctx.actor sale_void s.branch_id ≡ true)
      × (pos 0 <ℤ qty)
      × Took ctx ref_type s product_id took
      × (ctx.reader.returned_stock_qty ref_type s.id product_id +ℤ qty ≤ℤ took)
      × (ctx.existing ≡ none)
unfolding stock_returned
stock_returned-within_taken ctx v p h =
    let ((ref_type, ref_id), r, h) = >>=-eq-ok (return_ref v) _ h in
    let (qty, q, h) = >>=-eq-ok (int_at "qty_delta" v) _ h in
    let (positive, h) = passed (leb_ℤ qty (pos 0)) _ _ h in
    let (s, o, h) = >>=-eq-ok (sale ctx ref_id) _ h in
    let (may_void, h) = >>-eq-ok (need ctx sale_void s.branch_id) _ h in
    let (fresh, h) = >>-eq-ok (guard_insert ctx) _ h in
    let (branch, b, h) = >>=-eq-ok (str_at "branch_id" v) _ h in
    let (same, h) = passed (not (str_eq branch s.branch_id)) _ _ h in
    let (product_id, i, h) = >>=-eq-ok (str_at "product_id" v) _ h in
    let (took, t, h) = >>=-eq-ok (took_by ctx ref_type s product_id) _ h in
    let here : branch ≡ s.branch_id = ground (arith, eq_iff branch s.branch_id) in
    (
      ref_type,
      ref_id,
      s,
      product_id,
      qty,
      took,
      r,
      sale-eq-ok ctx ref_id o,
      i,
      q,
      rw (← here) b,
      need-eq-ok ctx sale_void s.branch_id may_void,
      ground arith,
      took_by-Took ctx ref_type s product_id took (return_ref-kind v ref_type ref_id r) t,
      ground arith,
      guard_insert-eq-ok ctx fresh,
    )
