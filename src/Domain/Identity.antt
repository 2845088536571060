-- ===== src/Domain/Identity.antt =====
-- server/dukan/domain/identity.py: roles, permissions and the policy that decides access. A set of
-- permissions is its characteristic function.
pub mod Policy
use dukan_pro.Prelude.{
  ℕ, String, Bool, true, false, ◌&&◌, ◌||◌, Option, none, some, List, [], ◌∷◌, ltb, leb, length,
  any, is_some, if◌then◌else◌,
}
use dukan_pro.Prelude.Text.{str_eq, codes}
use dukan_pro.Errors.{Checked, raise_if, validation, conflict, Code}

pub data Permission : Type 0 where
  sale_create price_change stock_adjust product_manage user_manage report_view : Permission
  branch_manage debt_write_off audit_view sale_void sale_discount customer_credit : Permission
  purchase_cost settings_manage : Permission

abbrev pub Permissions : Type 0
Permissions = Permission → Bool

abbrev pub no_permissions : Permissions
no_permissions p = false

-- `frozenset(Permission)`
abbrev pub every_permission : Permissions
every_permission p = true

unfoldable pub all_permissions : List Permission
all_permissions =
    sale_create ∷ price_change ∷ stock_adjust ∷ product_manage ∷ user_manage ∷ report_view
    ∷ branch_manage ∷ debt_write_off ∷ audit_view ∷ sale_void ∷ sale_discount ∷ customer_credit
    ∷ purchase_cost ∷ settings_manage ∷ []

unfoldable pub manager : Permissions
manager user_manage = false
manager branch_manage = false
manager audit_view = false
manager _ = true

unfoldable pub cashier : Permissions
cashier sale_create = true
cashier _ = false

unfoldable pub stock_keeper : Permissions
stock_keeper stock_adjust = true
stock_keeper _ = false

unfoldable pub accountant : Permissions
accountant report_view = true
accountant debt_write_off = true
accountant _ = false

unfoldable pub builtin_role_permissions : String → Option Permissions
unfolding manager cashier stock_keeper accountant
builtin_role_permissions role =
    if str_eq role "owner"
    then some every_permission
    else if str_eq role "manager"
    then some manager
    else if str_eq role "cashier"
    then some cashier
    else if str_eq role "stock_keeper"
    then some stock_keeper
    else if str_eq role "accountant"
    then some accountant
    else none

-- `BUILTIN_ROLE_PERMISSIONS.get(role_name, frozenset())`
unfoldable pub role_permissions : String → Permissions
unfolding builtin_role_permissions
role_permissions role p = elim (builtin_role_permissions role) [
  | none ↦ false
  | some perms ↦ perms p
]

pub data UserStatus : Type 0 where
  active disabled : UserStatus

pub record BranchAssignment : Type 0 where
  pub branch_id : String
  pub role_name : String

pub record User : Type 0 where
  pub id : String
  pub username : String
  pub display_name : String
  pub status : UserStatus
  pub assignments : List BranchAssignment
  pub default_branch_id : Option String
  pub version : ℕ

unfoldable pub is_active : User → Bool
is_active u = elim u.status [ active ↦ true | disabled ↦ false ]

unfoldable pub is_owner : User → Bool
is_owner u = any (λ a. str_eq a.role_name "owner") u.assignments

-- The loop of `permissions_for`, read at one permission.
unfoldable pub granted : List BranchAssignment → String → Permissions
granted [] branch_id p = false
granted (a ∷ rest) branch_id p =
    (str_eq a.branch_id branch_id && role_permissions a.role_name p) || granted rest branch_id p

unfoldable pub permissions_for : User → String → Permissions
permissions_for user branch_id = granted user.assignments branch_id

unfoldable pub can : User → Permission → String → Bool
unfolding is_active permissions_for
can user permission branch_id =
    if is_active user then permissions_for user branch_id permission else false

unfoldable pub assert_branch_keeps_owner : ℕ → Checked
assert_branch_keeps_owner owners_after =
    raise_if (ltb owners_after 1) (conflict Code.user_last_owner)

unfoldable pub assert_shop_keeps_owner : ℕ → Checked
assert_shop_keeps_owner owners_after = raise_if (ltb owners_after 1) (conflict Code.user_last_owner)

unfoldable pub assert_keeps_an_assignment : ℕ → Checked
assert_keeps_an_assignment remaining =
    raise_if (ltb remaining 1) (conflict Code.user_last_assignment)

unfoldable pub assert_role_known : String → Checked
assert_role_known role_name = elim (builtin_role_permissions role_name) [
  | none ↦ raise_if true (validation Code.role_unknown)
  | some _ ↦ raise_if false (validation Code.role_unknown)
]

unfoldable pub assert_username_available : Bool → Checked
assert_username_available taken = raise_if taken (conflict Code.user_duplicate_username)

unfoldable pub assert_role_mutable : String → Checked
assert_role_mutable role_name =
    raise_if (is_some (builtin_role_permissions role_name)) (conflict Code.role_builtin_immutable)

unfoldable pub assert_password_strong : String → ℕ → Checked
assert_password_strong password min_length =
    raise_if (ltb (length (codes password)) min_length) (validation Code.weak_password)

abbrev pub login_attempts : ℕ
login_attempts = 5

unfoldable pub login_locked : ℕ → Bool
login_locked failures_since_success = leb login_attempts failures_since_success
