-- ===== src/Sync/Plans/Made.antt =====
-- How a handler's guards make up what its plan must hold.
use dukan_pro.Prelude.{◌≡◌, inr, String}
use dukan_pro.Errors.{ok, Code}
use dukan_pro.Domain.Identity.{Permission, sale_create}
use dukan_pro.Sync.Types.{Ctx, RowSnapshot, SaleRef, ApplyPlan}
use dukan_pro.Sync.Guards.{need, guard_insert, guard_update, own_sale}
use dukan_pro.Sync.Guards.Passed.{
  need-eq-ok, guard_insert-eq-ok, guard_update-eq-ok, own_sale-eq-ok,
}
use dukan_pro.Sync.Plans.{Inserted, Updated}

pub inserted :
    (ctx : Ctx) (p : ApplyPlan) (q : Permission) (branch : String) {u w : Unit {0}}
    → need ctx q branch ≡ ok u
    → guard_insert ctx ≡ ok w
    → branch ≡ p.auth_branch_id
    → Inserted ctx p
inserted ctx p q branch may fresh here = record {
  permission = q;
  may = rw here at (need-eq-ok ctx q branch may);
  fresh = guard_insert-eq-ok ctx fresh;
}

-- The same of a row that hangs on a sale of the actor's own.
pub own-Inserted :
    (ctx : Ctx) (p : ApplyPlan) (id : String) (s : SaleRef) {w : Unit {0}}
    → own_sale ctx id ≡ ok s
    → guard_insert ctx ≡ ok w
    → s.branch_id ≡ p.auth_branch_id
    → Inserted ctx p
own-Inserted ctx p id s own fresh here =
    let o = own_sale-eq-ok ctx id s own in
    record {
      permission = sale_create;
      may = rw here at o.may_sell;
      fresh = guard_insert-eq-ok ctx fresh;
    }

pub updated :
    (ctx : Ctx) (p : ApplyPlan) (q : Permission) (branch : String) (c : Code) (row : RowSnapshot)
    {u : Unit {0}}
    → need ctx q branch ≡ ok u
    → guard_update ctx c ≡ ok row
    → branch ≡ p.auth_branch_id
    → Updated ctx p
updated ctx p q branch c row may current here =
    let (stored, kept, same_version) = guard_update-eq-ok ctx c row current in
    record {
      permission = q;
      may = rw here at (need-eq-ok ctx q branch may);
      seen =
          inr
            (inr (record { row = row; stored = stored; kept = kept; same_version = same_version }));
    }
