-- ===== src/IamService/Employees.antt =====
-- `SqlIamService.create_employee`, `set_employee_status` and `reset_password`.
use dukan_pro.Prelude.{
  ℕ, suc, String, Bool, true, false, not, ◌&&◌, some, is_some, List, [], ◌∷◌, ◌++◌, map, any,
  if◌then◌else◌,
}
use dukan_pro.Prelude.Int.{ℤ}
use dukan_pro.Prelude.Text.{str_eq}
use dukan_pro.Errors.{Result, Checked, ok, ◌>>=◌, ◌>>◌}
use dukan_pro.Access.{require_permission}
use dukan_pro.Domain.Identity.{
  User, UserStatus, active, disabled, BranchAssignment, user_manage, is_owner,
  assert_password_strong, assert_username_available,
}
use dukan_pro.Domain.Branches.{assert_branch_active}
use dukan_pro.Store.Queries.{select, first}
use dukan_pro.Accounts.{Accounts, UserRow}
use dukan_pro.Accounts.Queries.{
  live_user, require_user, require_branch, domain_user, is_owner_role, check_all,
  assert_owner_remains, assert_shop_owner_remains,
}
use dukan_pro.Accounts.Updates.{update_first}
use dukan_pro.IamService.{
  audited, require_can_grant, require_user_admin, revoke_sessions, new_assignment,
}

abbrev pub username_of : String → UserRow → Bool
username_of username u = str_eq u.username username && not u.deleted

abbrev pub new_user : String → String → String → String → String → UserRow
new_user id username display_name password_hash branch_id = record {
  id = id;
  username = username;
  display_name = display_name;
  password_hash = password_hash;
  status = active;
  default_branch_id = some branch_id;
  version = 1;
  deleted = false;
}

abbrev pub with_employee :
    (ℕ → String)
    → (String → String)
    → Accounts
    → User
    → String
    → String
    → String
    → String
    → String
    → ℤ
    → Accounts
with_employee new_id hash s actor branch_id username password display_name role_name now =
    record s {
      users =
          s.users
          ++ (new_user (new_id s.next) username display_name (hash password) branch_id ∷ []);
      assignments =
          s.assignments
          ++ (new_assignment (new_id (suc s.next)) (new_id s.next) branch_id role_name ∷ []);
      audit = audited s "user.created" actor.id (new_id s.next) now;
      next = suc (suc s.next);
    }

-- The username is unique among all users, the deleted ones too.
unfoldable pub create_employee :
    (ℕ → String)
    → (String → String)
    → Accounts
    → User
    → String
    → String
    → String
    → String
    → String
    → ℤ
    → Result Accounts
create_employee new_id hash s actor branch_id username password display_name role_name now = do
  require_can_grant actor branch_id role_name
  branch ← require_branch s branch_id
  assert_branch_active branch.is_active
  assert_password_strong password 8
  assert_username_available (is_some (first (username_of username) s.users))
  assert_username_available (any (λ (u : UserRow). str_eq u.username username) s.users)
  ok (with_employee new_id hash s actor branch_id username password display_name role_name now)

abbrev pub status_of : Bool → UserStatus
status_of true = active
status_of false = disabled

abbrev pub with_status : Bool → UserRow → UserRow
with_status enable u = record u { status = status_of enable; version = suc u.version }

abbrev pub owned_branches : User → List String
owned_branches target =
    map (λ (a : BranchAssignment). a.branch_id)
      (select (λ (a : BranchAssignment). is_owner_role a.role_name) target.assignments)

-- The checks on disabling a user.
unfoldable pub check_disable : Accounts → User → Checked
unfolding check_all
check_disable s target = do
  check_all (λ (b : String). assert_owner_remains s b target.id) (owned_branches target)
  if is_owner target then assert_shop_owner_remains s target.id else ok tt

abbrev pub with_employee_status : Accounts → User → String → Bool → ℤ → Accounts
with_employee_status s actor user_id enable now = record s {
  users = update_first (live_user user_id) (with_status enable) s.users;
  sessions = if enable then s.sessions else revoke_sessions user_id s.sessions;
  audit = audited s (if enable then "user.enabled" else "user.disabled") actor.id user_id now;
}

unfoldable pub set_employee_status : Accounts → User → String → String → Bool → ℤ → Result Accounts
unfolding check_disable
set_employee_status s actor branch_id user_id enable now = do
  require_permission actor user_manage branch_id
  m ← require_user s user_id
  require_user_admin actor (domain_user s m) branch_id
  if enable then ok tt else check_disable s (domain_user s m)
  ok (with_employee_status s actor user_id enable now)

abbrev pub with_password : String → UserRow → UserRow
with_password password_hash u = record u { password_hash = password_hash; version = suc u.version }

abbrev pub with_new_password : (String → String) → Accounts → User → String → String → ℤ → Accounts
with_new_password hash s actor user_id new_password now = record s {
  users = update_first (live_user user_id) (with_password (hash new_password)) s.users;
  sessions = revoke_sessions user_id s.sessions;
  audit = audited s "password.reset" actor.id user_id now;
}

unfoldable pub reset_password :
    (String → String) → Accounts → User → String → String → String → ℤ → Result Accounts
reset_password hash s actor branch_id user_id new_password now = do
  require_permission actor user_manage branch_id
  m ← require_user s user_id
  require_user_admin actor (domain_user s m) branch_id
  assert_password_strong new_password 8
  ok (with_new_password hash s actor user_id new_password now)
