-- ===== src/Accounts/Queries.antt =====
-- What the identity services read: users with their assignments, and who owns what.
use dukan_pro.Prelude.{
  String, Bool, true, false, not, ◌&&◌, Option, none, some, List, [], ◌∷◌, map, any, all, length,
  if◌then◌else◌,
}
use dukan_pro.Prelude.Text.{str_eq, str_mem}
use dukan_pro.Errors.{
  Result, Checked, ok, ◌>>◌, or_raise, raise_if, not_found, permission_denied, Code,
}
use dukan_pro.Access.{require_permission}
use dukan_pro.Domain.Identity.{
  User, UserStatus, active, disabled, Permission, BranchAssignment, is_active,
  assert_branch_keeps_owner, assert_shop_keeps_owner,
}
use dukan_pro.Store.Queries.{select, first}
use dukan_pro.Accounts.{Accounts, UserRow, BranchRow, AssignmentRow}

abbrev pub is_owner_role : String → Bool
is_owner_role role = str_eq role "owner"

-- A user and a branch that is not deleted, by id.
abbrev pub live_user : String → UserRow → Bool
live_user user_id u = str_eq u.id user_id && not u.deleted

abbrev pub live_branch : String → BranchRow → Bool
live_branch branch_id b = str_eq b.id branch_id && not b.deleted

unfoldable pub require_user : Accounts → String → Result UserRow
require_user s user_id =
    or_raise (first (live_user user_id) s.users) (not_found Code.user_not_found)

unfoldable pub require_branch : Accounts → String → Result BranchRow
require_branch s branch_id =
    or_raise (first (live_branch branch_id) s.branches) (not_found Code.branch_not_found)

abbrev pub assigned_to : String → AssignmentRow → Bool
assigned_to user_id a = str_eq a.user_id user_id && not a.deleted

abbrev pub assignment_of : AssignmentRow → BranchAssignment
assignment_of a = record { branch_id = a.branch_id; role_name = a.role_name }

unfoldable pub assignments_of : Accounts → String → List BranchAssignment
assignments_of s user_id = map assignment_of (select (assigned_to user_id) s.assignments)

abbrev pub domain_user : Accounts → UserRow → User
domain_user s m = record {
  id = m.id;
  username = m.username;
  display_name = m.display_name;
  status = m.status;
  assignments = assignments_of s m.id;
  default_branch_id = m.default_branch_id;
  version = m.version;
}

abbrev pub is_active_status : UserStatus → Bool
is_active_status active = true
is_active_status disabled = false

abbrev pub is_active_row : Option UserRow → Bool
is_active_row none = false
is_active_row (some m) = is_active_status m.status

-- A live assignment of the owner's role, of an active user: what `_active_owner_query` selects.
abbrev pub is_owner_row : List UserRow → AssignmentRow → Bool
is_owner_row users a =
    is_owner_role a.role_name && not a.deleted && is_active_row (first (live_user a.user_id) users)

unfoldable pub active_owner_rows : Accounts → List (String × String)
active_owner_rows s =
    map (λ (a : AssignmentRow). (a.user_id, a.branch_id))
      (select (is_owner_row s.users) s.assignments)

abbrev pub is_owner_in : User → String → Bool
is_owner_in user branch_id =
    is_active user
    && any (λ (a : BranchAssignment). str_eq a.branch_id branch_id && is_owner_role a.role_name)
        user.assignments

-- A loop of checks.
unfoldable pub check_all {ℓ} : {A : Type ℓ} → (A → Checked) → List A → Checked
check_all check [] = ok tt
check_all check (x ∷ xs) = check x >> check_all check xs

-- `require_everywhere` of scope.py
unfoldable pub require_everywhere : Accounts → User → Permission → Checked
unfolding check_all
require_everywhere s actor permission =
    check_all (λ (b : BranchRow). require_permission actor permission b.id)
      (select (λ (b : BranchRow). not b.deleted) s.branches)

abbrev other_owner : String → String → String × String → Bool
other_owner branch_id losing r = str_eq r.1 branch_id && not (str_eq r.0 losing)

unfoldable pub assert_owner_remains : Accounts → String → String → Checked
assert_owner_remains s branch_id losing =
    assert_branch_keeps_owner (length (select (other_owner branch_id losing) (active_owner_rows s)))

-- The users of the rows, each once: the keys of `owned`.
unfoldable pub users_of : List (String × String) → List String
users_of [] = []
users_of (r ∷ rows) = let rest = users_of rows in if str_mem r.0 rest then rest else r.0 ∷ rest

abbrev pub owns : List (String × String) → String → String → Bool
owns rows user_id branch_id =
    any (λ (r : String × String). str_eq r.0 user_id && str_eq r.1 branch_id) rows

-- `branch_ids <= bids`
abbrev pub owns_every : Accounts → String → Bool
owns_every s user_id =
    all (λ (b : BranchRow). owns (active_owner_rows s) user_id b.id)
      (select (λ (b : BranchRow). not b.deleted) s.branches)

unfoldable pub shop_owners : Accounts → List String
shop_owners s = select (owns_every s) (users_of (active_owner_rows s))

abbrev pub is_nil {ℓ} : {A : Type ℓ} → List A → Bool
is_nil [] = true
is_nil (x ∷ xs) = false

unfoldable pub assert_shop_owner_remains : Accounts → String → Checked
assert_shop_owner_remains s losing =
    let owners = shop_owners s in
    if is_nil owners
    then ok tt
    else assert_shop_keeps_owner (length (select (λ (u : String). not (str_eq u losing)) owners))

unfoldable pub require_owner_rights_over : User → User → Checked
require_owner_rights_over actor target =
    raise_if
      (not (all (λ (a : BranchAssignment). is_owner_in actor a.branch_id) target.assignments))
      (permission_denied Code.access_denied)

-- `_unseat_owner`
unfoldable pub unseat_owner : Accounts → User → UserRow → String → Checked
unseat_owner s actor m branch_id = do
  require_owner_rights_over actor (domain_user s m)
  assert_owner_remains s branch_id m.id
  assert_shop_owner_remains s m.id
