-- ===== src/IamService.antt =====
-- server/dukan/infrastructure/iam_service.py over the tables of Accounts. A call gives back the
-- tables after its commit, or the error that leaves them as they were. `new_id` is the ids that the
-- server draws, in order, those of audit rows aside, `hash` is passwords.hash_password and `now` the server's clock.
pub mod Branches
pub mod Calls
pub mod Employees
pub mod Kept
pub mod Owners
pub mod Roles
use dukan_pro.Prelude.{
  ◌+◌, String, Bool, true, false, not, ◌&&◌, some, List, [], ◌∷◌, ◌++◌, map, all,
}
use dukan_pro.Prelude.Int.{ℤ}
use dukan_pro.Prelude.Text.{str_eq}
use dukan_pro.Errors.{Checked, ◌>>=◌, ◌>>◌, raise_if, permission_denied, Code}
use dukan_pro.Access.{require_permission}
use dukan_pro.Domain.Identity.{User, BranchAssignment, user_manage, is_owner, assert_role_known}
use dukan_pro.Store.Queries.{update_where}
use dukan_pro.Accounts.{Accounts, AssignmentRow, SessionRow, AuditRow}
use dukan_pro.Accounts.Queries.{is_owner_role, is_owner_in, check_all}

abbrev pub audited : Accounts → String → String → String → ℤ → List AuditRow
audited s action actor_id entity_id now =
    s.audit
    ++ (record {
      action = action;
      actor_id = some actor_id;
      entity_id = some entity_id;
      occurred_at = now;
    }
        ∷ [])

unfoldable pub require_can_grant : User → String → String → Checked
require_can_grant actor branch_id role_name = do
  assert_role_known role_name
  require_permission actor user_manage branch_id
  raise_if (is_owner_role role_name && not (is_owner_in actor branch_id))
      (permission_denied Code.access_denied)

-- `sorted({…}) or [fallback_branch]`: the order and the repetitions decide nothing.
abbrev pub branches_or : String → List BranchAssignment → List String
branches_or fallback [] = fallback ∷ []
branches_or fallback (a ∷ more) = map (λ (x : BranchAssignment). x.branch_id) (a ∷ more)

unfoldable pub require_user_admin : User → User → String → Checked
unfolding check_all
require_user_admin actor target fallback = do
  check_all (require_permission actor user_manage) (branches_or fallback target.assignments)
  raise_if
      (is_owner target && not (all (is_owner_in actor) (branches_or fallback target.assignments)))
      (permission_denied Code.access_denied)

abbrev pub live_session_of : String → SessionRow → Bool
live_session_of user_id x = str_eq x.user_id user_id && not x.revoked

abbrev pub revoked_session : SessionRow → SessionRow
revoked_session x = record x { revoked = true }

abbrev pub revoke_sessions : String → List SessionRow → List SessionRow
revoke_sessions user_id = update_where (live_session_of user_id) revoked_session

abbrev pub live_assignment : String → String → AssignmentRow → Bool
live_assignment user_id branch_id a =
    str_eq a.user_id user_id && str_eq a.branch_id branch_id && not a.deleted

abbrev pub new_assignment : String → String → String → String → AssignmentRow
new_assignment id user_id branch_id role_name = record {
  id = id;
  user_id = user_id;
  branch_id = branch_id;
  role_name = role_name;
  version = 1;
  deleted = false;
}
