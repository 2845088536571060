-- ===== src/Sync/Accepted/Masters.antt =====
-- The plans for products, barcodes, units, customers, suppliers and shifts.
use dukan_pro.Prelude.{
  ◌≡◌, inl, inr, arith, Bool-cases, String, Bool, true, not, Option, none, some, List, [], ◌∷◌, any,
  if◌then◌else◌,
}
use dukan_pro.Prelude.Text.{str_eq}
use dukan_pro.Errors.{ok, raise_if, permission_denied, Code}
use dukan_pro.Domain.Identity.{
  Permission, sale_create, product_manage, sale_void, all_permissions, permissions_for, can,
}
use dukan_pro.Sync.Values.{str_at, int_at, is_bool}
use dukan_pro.Sync.Types.{Ctx, RowSnapshot, ApplyPlan}
use dukan_pro.Sync.Guards.{need, active, guard_insert, guard_update}
use dukan_pro.Errors.{>>=-eq-ok, >>-eq-ok, passed}
use dukan_pro.Sync.Guards.Passed.{need-eq-ok, guard_insert-eq-ok}
use dukan_pro.Sync.Plans.{Updated, Inserts, Updates}
use dukan_pro.Sync.Plans.Made.{inserted, updated}
use dukan_pro.Sync.EventTime.{Clock}
use dukan_pro.Sync.Handlers.Catalog.{
  products_insert, products_update, barcodes_insert, barcodes_update, remove_barcode, units_insert,
  branch_member, canonical_unit,
}
use dukan_pro.Sync.Handlers.Parties.{customers_insert, customers_update, suppliers_insert}
use dukan_pro.Sync.Handlers.Shifts.{shifts_insert, shifts_update}

pub products_insert-Inserts : Inserts products_insert
unfolding products_insert
products_insert-Inserts ctx v p h =
    let (branch, b, h) = >>=-eq-ok (active ctx) _ h in
    let (may, h) = >>-eq-ok (need ctx product_manage branch) _ h in
    let (fresh, h) = >>-eq-ok (guard_insert ctx) _ h in
    inserted ctx p product_manage branch may fresh (ground arith)

pub barcodes_insert-Inserts : Inserts barcodes_insert
unfolding barcodes_insert
barcodes_insert-Inserts ctx v p h =
    let (branch, b, h) = >>=-eq-ok (active ctx) _ h in
    let (may, h) = >>-eq-ok (need ctx product_manage branch) _ h in
    let (fresh, h) = >>-eq-ok (guard_insert ctx) _ h in
    inserted ctx p product_manage branch may fresh (ground arith)

pub customers_insert-Inserts : Inserts customers_insert
unfolding customers_insert
customers_insert-Inserts ctx v p h =
    let (branch, b, h) = >>=-eq-ok (active ctx) _ h in
    let (may, h) = >>-eq-ok (need ctx sale_create branch) _ h in
    let (fresh, h) = >>-eq-ok (guard_insert ctx) _ h in
    inserted ctx p sale_create branch may fresh (ground arith)

pub suppliers_insert-Inserts : Inserts suppliers_insert
unfolding suppliers_insert
suppliers_insert-Inserts ctx v p h =
    let (branch, b, h) = >>=-eq-ok (active ctx) _ h in
    let (may, h) = >>-eq-ok (need ctx product_manage branch) _ h in
    let (fresh, h) = >>-eq-ok (guard_insert ctx) _ h in
    inserted ctx p product_manage branch may fresh (ground arith)

pub products_update-Updates : Updates products_update
unfolding products_update
products_update-Updates ctx v p h =
    let (branch, b, h) = >>=-eq-ok (active ctx) _ h in
    let (may, h) = >>-eq-ok (need ctx product_manage branch) _ h in
    let (row, current, h) = >>=-eq-ok (guard_update ctx Code.product_not_found) _ h in
    updated ctx p product_manage branch Code.product_not_found row may current (ground arith)

pub customers_update-Updates : Updates customers_update
unfolding customers_update
customers_update-Updates ctx v p h =
    let (branch, b, h) = >>=-eq-ok (active ctx) _ h in
    let (may, h) = >>-eq-ok (need ctx sale_create branch) _ h in
    let (row, current, h) = >>=-eq-ok (guard_update ctx Code.customer_not_found) _ h in
    updated ctx p sale_create branch Code.customer_not_found row may current (ground arith)

any_sound :
    (f : Permission → Bool) (l : List Permission) → any f l ≡ true → (q : Permission) × (f q ≡ true)
any_sound f [] h = cc
any_sound f (q ∷ l) h = elim (Bool-cases (f q)) [
  | inl holds ↦ (q, holds)
  | inr fails ↦ any_sound f l (ground arith)
]

-- A member of a branch holds some permission there.
member-can :
    (ctx : Ctx) (branch : String)
    → branch_member ctx branch ≡ true
    → (q : Permission) × (can ctx.actor q branch ≡ true)
unfolding branch_member can
member-can ctx branch h =
    let (q, held) = any_sound (permissions_for ctx.actor branch) all_permissions (ground arith) in
    (q, ground arith)

pub units_insert-Inserts : Inserts units_insert
unfolding units_insert
units_insert-Inserts ctx v p h =
    let (branch, b, h) = >>=-eq-ok (active ctx) _ h in
    let (name, n, h) = >>=-eq-ok (str_at "name" v) _ h in
    let (places, d, h) = >>=-eq-ok (int_at "decimal_places" v) _ h in
    let (may, h) =
      >>-eq-ok
        (if canonical_unit name places
          then raise_if (not (branch_member ctx branch)) (permission_denied Code.access_denied)
          else need ctx product_manage branch)
        _ h in
    let (fresh, h) = >>-eq-ok (guard_insert ctx) _ h in
    let here : branch ≡ p.auth_branch_id = ground arith in
    elim (Bool-cases (canonical_unit name places)) [
      | inl seed ↦
          let (q, held) = member-can ctx branch (let m = rw seed at may in ground arith) in
          record { permission = q; may = rw here at held; fresh = guard_insert-eq-ok ctx fresh }
      | inr other ↦ inserted ctx p product_manage branch (rw other at may) fresh here
    ]

removal :
    (ctx : Ctx) (p : ApplyPlan) (branch : String) {u : Unit {0}}
    → need ctx product_manage branch ≡ ok u
    → (o : Option RowSnapshot) → remove_barcode ctx branch o ≡ ok p
    → Updated ctx p
unfolding remove_barcode
removal ctx p branch may none h =
    let (row, current, h) = >>=-eq-ok (guard_update ctx Code.barcode_not_found) _ h in
    updated ctx p product_manage branch Code.barcode_not_found row may current (ground arith)
removal ctx p branch may (some stored) h = elim (Bool-cases stored.deleted) [
  | inl gone ↦
      let h = rw gone at h in
      let here : branch ≡ p.auth_branch_id = ground arith in
      record {
        permission = product_manage;
        may = rw here at (need-eq-ok ctx product_manage branch may);
        seen = inl (ground arith);
      }
  | inr kept ↦
      let (row, current, h) =
        >>=-eq-ok (guard_update ctx Code.barcode_not_found) _ (rw kept at h) in
      updated ctx p product_manage branch Code.barcode_not_found row may current (ground arith)
]

pub barcodes_update-Updates : Updates barcodes_update
unfolding barcodes_update
barcodes_update-Updates ctx v p h =
    let (branch, b, h) = >>=-eq-ok (active ctx) _ h in
    let (may, h) = >>-eq-ok (need ctx product_manage branch) _ h in
    let (_, h) = passed (not (is_bool "deleted" v true)) _ _ h in
    removal ctx p branch may ctx.existing h

pub shifts_insert-Inserts : (fromisoformat : Clock) → Inserts (shifts_insert fromisoformat)
unfolding shifts_insert
shifts_insert-Inserts fromisoformat ctx v p h =
    let (branch, b, h) = >>=-eq-ok (str_at "branch_id" v) _ h in
    let (may, h) = >>-eq-ok (need ctx sale_create branch) _ h in
    let (fresh, h) = >>-eq-ok (guard_insert ctx) _ h in
    inserted ctx p sale_create branch may fresh (ground arith)

pub shifts_update-Updates : (fromisoformat : Clock) → Updates (shifts_update fromisoformat)
unfolding shifts_update
shifts_update-Updates fromisoformat ctx v p h =
    let (row, current, h) = >>=-eq-ok (guard_update ctx Code.shift_not_found) _ h in
    let (branch, b, h) = >>=-eq-ok (str_at "branch_id" row.values) _ h in
    let (user_id, u, h) = >>=-eq-ok (str_at "user_id" row.values) _ h in
    let q = if str_eq user_id ctx.actor.id then sale_create else sale_void in
    let (may, h) = >>-eq-ok (need ctx q branch) _ h in
    updated ctx p q branch Code.shift_not_found row may current (ground arith)
