-- ===== src/Sync/Plans.antt =====
-- What a plan that a handler of server/dukan/application/sync_policy.py accepts must hold.
pub mod Made
use dukan_pro.Prelude.{Bool, true, false, ◌≡◌, ◌⊎◌, inl, inr, Option, some, none}
use dukan_pro.Domain.Identity.{Permission, can}
use dukan_pro.Errors.{Result, ok}
use dukan_pro.Sync.Values.{Fields}
use dukan_pro.Sync.Types.{Ctx, ApplyPlan, RowSnapshot}

-- A plan of an insert: the actor holds some permission in the plan's branch, and the server does
-- not have the row.
pub record Inserted (ctx : Ctx) (p : ApplyPlan) : Type 0 where
  pub permission : Permission
  pub may : can ctx.actor permission p.auth_branch_id ≡ true
  pub fresh : ctx.existing ≡ none

-- The server has the row, not deleted, at the version that the device saw.
pub record Seen (ctx : Ctx) : Type 0 where
  pub row : RowSnapshot
  pub stored : ctx.existing ≡ some row
  pub kept : row.deleted ≡ false
  pub same_version : ctx.op.base_version ≡ some row.version

-- A plan of an update: the actor holds some permission in the plan's branch, and the plan writes
-- nothing, or is written without a comparison of versions, or is of the row as the device saw it.
pub record Updated (ctx : Ctx) (p : ApplyPlan) : Type 0 where
  pub permission : Permission
  pub may : can ctx.actor permission p.auth_branch_id ≡ true
  pub seen : (p.noop ≡ true) ⊎ ((p.compare_version ≡ false) ⊎ Seen ctx)

-- A handler all of whose plans hold it.
abbrev pub Inserts : (Ctx → Fields → Result ApplyPlan) → Type 0
Inserts h = (ctx : Ctx) (v : Fields) (p : ApplyPlan) → h ctx v ≡ ok p → Inserted ctx p

abbrev pub Updates : (Ctx → Fields → Result ApplyPlan) → Type 0
Updates h = (ctx : Ctx) (v : Fields) (p : ApplyPlan) → h ctx v ≡ ok p → Updated ctx p
