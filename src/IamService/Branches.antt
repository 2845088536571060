-- ===== src/IamService/Branches.antt =====
-- `SqlIamService.create_branch`, `rename_branch` and `set_branch_active`.
use dukan_pro.Prelude.{
  ℕ, suc, ◌+◌, String, Bool, true, false, not, ◌&&◌, some, List, [], ◌∷◌, ◌++◌, map, length,
  if◌then◌else◌,
}
use dukan_pro.Prelude.Int.{ℤ}
use dukan_pro.Prelude.Text.{str_mem}
use dukan_pro.Errors.{Result, ok, ◌>>=◌, ◌>>◌}
use dukan_pro.Access.{require_permission}
use dukan_pro.Domain.Identity.{User, branch_manage}
use dukan_pro.Domain.Branches.{assert_branch_settings_valid, assert_not_last_active_branch}
use dukan_pro.Store.Queries.{select}
use dukan_pro.Accounts.{Accounts, BranchRow, AssignmentRow, AuditRow}
use dukan_pro.Accounts.Queries.{live_branch, require_branch, require_everywhere, shop_owners}
use dukan_pro.Accounts.Updates.{update_first}
use dukan_pro.IamService.{audited, new_assignment}

-- `self._shop_owners() | {actor.id}`
abbrev pub owners_and : List String → String → List String
owners_and owners actor_id = if str_mem actor_id owners then owners else owners ++ (actor_id ∷ [])

abbrev pub new_branch : String → String → String → String → BranchRow
new_branch id name timezone currency = record {
  id = id;
  name = name;
  timezone = timezone;
  currency_default = currency;
  is_active = true;
  version = 1;
  deleted = false;
}

-- The loop over the owners; their order decides only which id an assignment has.
unfoldable pub owner_assignments : (ℕ → String) → ℕ → String → List String → List AssignmentRow
owner_assignments new_id n branch_id [] = []
owner_assignments new_id n branch_id (owner_id ∷ owners) =
    new_assignment (new_id n) owner_id branch_id "owner"
    ∷ owner_assignments new_id (suc n) branch_id owners

abbrev role_audit : String → ℤ → String → AuditRow
role_audit actor_id now owner_id = record {
  action = "role.assigned";
  actor_id = some actor_id;
  entity_id = some owner_id;
  occurred_at = now;
}

abbrev branch_audit : String → ℤ → String → AuditRow
branch_audit actor_id now branch_id = record {
  action = "branch.created";
  actor_id = some actor_id;
  entity_id = some branch_id;
  occurred_at = now;
}

unfoldable pub with_branch :
    (ℕ → String) → Accounts → User → String → String → String → List String → ℤ → Accounts
unfolding owner_assignments
with_branch new_id s actor name timezone currency owners now = record s {
  branches = s.branches ++ (new_branch (new_id s.next) name timezone currency ∷ []);
  assignments = s.assignments ++ owner_assignments new_id (suc s.next) (new_id s.next) owners;
  audit =
      s.audit
      ++ (map (role_audit actor.id now) owners ++ (branch_audit actor.id now (new_id s.next) ∷ []));
  next = s.next + 1 + length owners;
}

unfoldable pub create_branch :
    (ℕ → String) → Accounts → User → String → String → String → String → ℤ → Result Accounts
unfolding with_branch
create_branch new_id s actor branch_id name timezone currency now = do
  require_permission actor branch_manage branch_id
  require_everywhere s actor branch_manage
  assert_branch_settings_valid timezone currency
  let owners = owners_and (shop_owners s) actor.id
  ok (with_branch new_id s actor name timezone currency owners now)

abbrev pub renamed : String → BranchRow → BranchRow
renamed name b = record b { name = name; version = suc b.version }

abbrev pub with_branch_name : Accounts → User → String → String → BranchRow → ℤ → Accounts
with_branch_name s actor target_branch_id name m now = record s {
  branches = update_first (live_branch target_branch_id) (renamed name) s.branches;
  audit = audited s "branch.updated" actor.id m.id now;
}

unfoldable pub rename_branch : Accounts → User → String → String → String → ℤ → Result Accounts
rename_branch s actor branch_id target_branch_id name now = do
  require_permission actor branch_manage branch_id
  require_permission actor branch_manage target_branch_id
  m ← require_branch s target_branch_id
  ok (with_branch_name s actor target_branch_id name m now)

abbrev pub switched : Bool → BranchRow → BranchRow
switched on b = record b { is_active = on; version = suc b.version }

abbrev pub is_live_active : BranchRow → Bool
is_live_active b = b.is_active && not b.deleted

abbrev pub with_branch_active : Accounts → User → String → Bool → BranchRow → ℤ → Accounts
with_branch_active s actor target_branch_id on m now = record s {
  branches = update_first (live_branch target_branch_id) (switched on) s.branches;
  audit = audited s (if on then "branch.activated" else "branch.deactivated") actor.id m.id now;
}

unfoldable pub set_branch_active : Accounts → User → String → String → Bool → ℤ → Result Accounts
set_branch_active s actor branch_id target_branch_id on now = do
  require_permission actor branch_manage branch_id
  require_permission actor branch_manage target_branch_id
  m ← require_branch s target_branch_id
  if on then ok tt else assert_not_last_active_branch (length (select is_live_active s.branches))
  ok (with_branch_active s actor target_branch_id on m now)
