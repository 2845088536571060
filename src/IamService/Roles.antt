-- ===== src/IamService/Roles.antt =====
-- `SqlIamService.assign_role` and `revoke_assignment`.
use dukan_pro.Prelude.{
  ℕ, suc, ◌+◌, String, Bool, true, not, ◌&&◌, Option, none, some, List, [], ◌∷◌, ◌++◌, length,
  if◌then◌else◌,
}
use dukan_pro.Prelude.Int.{ℤ}
use dukan_pro.Prelude.Text.{str_eq, is_text}
use dukan_pro.Errors.{Result, Checked, ok, ◌>>=◌, ◌>>◌, or_raise, not_found, Code}
use dukan_pro.Access.{require_permission}
use dukan_pro.Domain.Identity.{User, BranchAssignment, user_manage, assert_keeps_an_assignment}
use dukan_pro.Domain.Branches.{assert_branch_active}
use dukan_pro.Store.Queries.{select, first}
use dukan_pro.Accounts.{Accounts, UserRow, AssignmentRow}
use dukan_pro.Accounts.Queries.{
  live_user, require_user, require_branch, assignments_of, is_owner_role, unseat_owner,
}
use dukan_pro.Accounts.Updates.{update_first}
use dukan_pro.IamService.{audited, require_can_grant, live_assignment, new_assignment}

abbrev pub with_role : String → AssignmentRow → AssignmentRow
with_role role_name a = record a { role_name = role_name; version = suc a.version }

unfoldable pub check_role :
    Accounts → User → UserRow → String → String → Option AssignmentRow → Checked
check_role s actor m branch_id role_name none = ok tt
check_role s actor m branch_id role_name (some existing) =
    if is_owner_role existing.role_name && not (is_owner_role role_name)
    then unseat_owner s actor m branch_id
    else ok tt

-- The assignments after a role was given: the one there is, or a new one.
abbrev pub assigned :
    (ℕ → String) → Accounts → String → String → String → Option AssignmentRow → List AssignmentRow
assigned new_id s user_id branch_id role_name none =
    s.assignments ++ (new_assignment (new_id s.next) user_id branch_id role_name ∷ [])
assigned new_id s user_id branch_id role_name (some existing) =
    update_first (live_assignment user_id branch_id) (with_role role_name) s.assignments

abbrev pub ids_taken : Option AssignmentRow → ℕ
ids_taken none = 1
ids_taken (some existing) = 0

abbrev pub with_assigned :
    (ℕ → String) → Accounts → User → String → String → String → Option AssignmentRow → ℤ → Accounts
with_assigned new_id s actor user_id target_branch_id role_name existing now = record s {
  assignments = assigned new_id s user_id target_branch_id role_name existing;
  audit = audited s "role.assigned" actor.id user_id now;
  next = s.next + ids_taken existing;
}

unfoldable pub assign_role :
    (ℕ → String) → Accounts → User → String → String → String → String → ℤ → Result Accounts
assign_role new_id s actor branch_id user_id target_branch_id role_name now = do
  require_permission actor user_manage branch_id
  require_can_grant actor target_branch_id role_name
  m ← require_user s user_id
  target_branch ← require_branch s target_branch_id
  assert_branch_active target_branch.is_active
  let existing = first (live_assignment user_id target_branch_id) s.assignments
  check_role s actor m target_branch_id role_name existing
  ok (with_assigned new_id s actor user_id target_branch_id role_name existing now)

abbrev pub elsewhere : String → BranchAssignment → Bool
elsewhere branch_id a = not (str_eq a.branch_id branch_id)

abbrev pub first_branch : List BranchAssignment → Option String
first_branch [] = none
first_branch (a ∷ more) = some a.branch_id

abbrev pub withdrawn : AssignmentRow → AssignmentRow
withdrawn a = record a { deleted = true }

abbrev pub moved_to : Option String → UserRow → UserRow
moved_to branch_id u = record u { default_branch_id = branch_id; version = suc u.version }

abbrev pub without_assignment :
    Accounts → User → UserRow → String → String → List BranchAssignment → ℤ → Accounts
without_assignment s actor m user_id target_branch_id remaining now = record s {
  assignments = update_first (live_assignment user_id target_branch_id) withdrawn s.assignments;
  users =
      if is_text m.default_branch_id target_branch_id
      then update_first (live_user user_id) (moved_to (first_branch remaining)) s.users
      else s.users;
  audit = audited s "role.revoked" actor.id user_id now;
}

unfoldable pub revoke_assignment : Accounts → User → String → String → String → ℤ → Result Accounts
revoke_assignment s actor branch_id user_id target_branch_id now = do
  require_permission actor user_manage branch_id
  require_permission actor user_manage target_branch_id
  m ← require_user s user_id
  row ←
      or_raise (first (live_assignment user_id target_branch_id) s.assignments)
        (not_found Code.assignment_not_found)
  if is_owner_role row.role_name then unseat_owner s actor m target_branch_id else ok tt
  let remaining = select (elsewhere target_branch_id) (assignments_of s user_id)
  assert_keeps_an_assignment (length remaining)
  ok (without_assignment s actor m user_id target_branch_id remaining now)
