-- ===== src/Sync/Guards/Passed.antt =====
-- What a guard of server/dukan/application/sync_policy.py that passed says.
use dukan_pro.Prelude.{
  String, Bool, true, false, ◌≡◌, refl, inl, inr, Option, none, some, arith, Option-cases,
}
use dukan_pro.Prelude.Text.{is_text, eq_iff}
use dukan_pro.Errors.{ok, >>=-eq-ok, Code}
use dukan_pro.Access.{require_permission}
use dukan_pro.Domain.Identity.{Permission, sale_create, can}
use dukan_pro.Sync.Types.{Ctx, RowSnapshot, ProductRef, CustomerRef, SaleRef, ShiftRef}
use dukan_pro.Sync.Guards.{
  need, active, guard_insert, guard_update, product, customer, sale, own_sale,
  require_complete_lines, own_shift,
}

pub is_text_iff : (o : Option String) (t : String) → is_text o t ≡ true → o ≡ some t
is_text_iff none t h = cc
is_text_iff (some s) t h = rw ((eq_iff s t).0 h) refl

pub need-eq-ok :
    (ctx : Ctx) (p : Permission) (b : String) {u : Unit {0}}
    → need ctx p b ≡ ok u
    → can ctx.actor p b ≡ true
unfolding need require_permission
need-eq-ok ctx p b h = ground arith

pub active-eq-ok : (ctx : Ctx) {b : String} → active ctx ≡ ok b → ctx.active_branch ≡ some b
unfolding active
active-eq-ok ctx h = ground arith

pub guard_insert-eq-ok : (ctx : Ctx) {u : Unit {0}} → guard_insert ctx ≡ ok u → ctx.existing ≡ none
unfolding guard_insert
guard_insert-eq-ok ctx h = ground arith

pub guard_update-eq-ok :
    (ctx : Ctx) (c : Code) (row : RowSnapshot)
    → guard_update ctx c ≡ ok row
    → (ctx.existing ≡ some row) × (row.deleted ≡ false) × (ctx.op.base_version ≡ some row.version)
unfolding guard_update
guard_update-eq-ok ctx c row h = ground arith

pub sale-eq-ok :
    (ctx : Ctx) (id : String) {s : SaleRef} → sale ctx id ≡ ok s → ctx.reader.sale id ≡ some s
unfolding sale
sale-eq-ok ctx id h = ground arith

pub customer-eq-ok :
    (ctx : Ctx) (id : String) (c : CustomerRef)
    → customer ctx id ≡ ok c
    → (ctx.reader.customer id ≡ some c) × (c.deleted ≡ false)
unfolding customer
customer-eq-ok ctx id c h = ground arith

pub own_shift-eq-ok :
    (ctx : Ctx) (id b : String) (s : ShiftRef)
    → own_shift ctx id b ≡ ok s
    → (ctx.reader.shift id ≡ some s) × (s.branch_id ≡ b) × (s.user_id ≡ ctx.actor.id)
unfolding own_shift
own_shift-eq-ok ctx id b s h = elim (Option-cases (ctx.reader.shift id)) [
  | inl n ↦ cc
  | inr (t, e) ↦ ground (arith, eq_iff t.branch_id b, eq_iff t.user_id ctx.actor.id)
]

-- A sale that the actor made, in a branch where the actor sells.
pub record OwnSale (ctx : Ctx) (id : String) (s : SaleRef) : Type 0 where
  pub found : ctx.reader.sale id ≡ some s
  pub may_sell : can ctx.actor sale_create s.branch_id ≡ true
  pub own : s.created_by ≡ some ctx.actor.id

pub own_sale-eq-ok :
    (ctx : Ctx) (id : String) (s : SaleRef) → own_sale ctx id ≡ ok s → OwnSale ctx id s
unfolding own_sale
own_sale-eq-ok ctx id s h =
    let (t, e, r) = >>=-eq-ok (sale ctx id) _ h in
    let same : t ≡ s = ground arith in
    record {
      found = sale-eq-ok ctx id (rw same at e);
      may_sell = need-eq-ok ctx sale_create s.branch_id {u = tt} (ground arith);
      own = is_text_iff s.created_by ctx.actor.id (ground arith);
    }

pub complete-eq-ok :
    (ctx : Ctx) (s : SaleRef) {u : Unit {0}}
    → require_complete_lines ctx s ≡ ok u
    → ctx.reader.sale_lines_total s.id ≡ s.subtotal_minor
unfolding require_complete_lines
complete-eq-ok ctx s h = ground arith

pub product-eq-ok :
    (ctx : Ctx) (id : String) (d : Bool) (p : ProductRef)
    → product ctx id d ≡ ok p
    → ctx.reader.product id ≡ some p
unfolding product
product-eq-ok ctx id d p h = ground arith
