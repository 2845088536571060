-- ===== src/Tests/Staff.antt =====
-- A shop with an owner and a cashier: calls that change them, and sign-ins.
use dukan_pro.Prelude.{String, ◌≡◌, ◌≤◌, refl, true, false, none, some, List, [], ◌∷◌, all, arith}
use dukan_pro.Prelude.Int.{ℤ, pos, ◌+ℤ◌}
use dukan_pro.Prelude.Text.{str_eq}
use dukan_pro.Errors.{ok}
use dukan_pro.Access.{require_permission}
use dukan_pro.Domain.Identity.{
  login_locked, active, can, is_active, is_owner, permissions_for, granted, role_permissions,
  builtin_role_permissions, cashier, assert_password_strong,
}
use dukan_pro.Store.Queries.{select}
use dukan_pro.Accounts.{Accounts, UserRow}
use dukan_pro.Accounts.Queries.{
  shop_owners, is_nil, active_owner_rows, users_of, assignments_of, require_user, check_all,
}
use dukan_pro.Accounts.Owners.{live, has_owner}
use dukan_pro.IamService.{require_user_admin}
use dukan_pro.IamService.Employees.{set_employee_status, reset_password, check_disable}
use dukan_pro.IamService.Calls.{Request, status_set, branch_renamed, run, run-keeps_owner}
use dukan_pro.AuthService.{
  Server, expired, authenticate, authenticate_user, sign_in_closed, counted_since, latest, refresh,
  renew_late, logout,
}
use dukan_pro.AuthService.Out.{IsOut, set_employee_status-IsOut}
use dukan_pro.AuthService.Later.{
  Step, sign_in, renewal, sign_out, step, steps, signs_in, signs_in_during, reset_password-IsOut,
}
use dukan_pro.AuthService.Lock.{Attempt, guesses, guesses-at_most}
use dukan_pro.Tests.World.{owner, b1, u1}
use dukan_pro.Tests.Till.{ids}

abbrev hash : String → String
hash password = password

abbrev ali : UserRow
ali = record {
  id = u1;
  username = "ali";
  display_name = "Ali";
  password_hash = "owner-secret";
  status = active;
  default_branch_id = some b1;
  version = 1;
  deleted = false;
}

abbrev shop : Accounts
shop = record {
  users =
      ali
      ∷ record {
        id = "u2";
        username = "omid";
        display_name = "Omid";
        password_hash = "till-secret";
        status = active;
        default_branch_id = some b1;
        version = 1;
        deleted = false;
      }
      ∷ [];
  branches =
      record {
        id = b1;
        name = "Main";
        timezone = "Asia/Kabul";
        currency_default = "AFN";
        is_active = true;
        version = 1;
        deleted = false;
      }
      ∷ [];
  assignments =
      record {
        id = "a1";
        user_id = u1;
        branch_id = b1;
        role_name = "owner";
        version = 1;
        deleted = false;
      }
      ∷ record {
        id = "a2";
        user_id = "u2";
        branch_id = b1;
        role_name = "cashier";
        version = 1;
        deleted = false;
      }
      ∷ [];
  sessions =
      record {
        id = "x2";
        user_id = "u2";
        device_id = "till";
        refresh_hash = "r2";
        prev_refresh_hash = none;
        expires_at = pos 100;
        updated_at = pos 0;
        revoked = false;
        deleted = false;
      }
      ∷ [];
  audit = [];
  next = 0;
}

owned : is_nil (shop_owners shop) ≡ false
unfolding shop_owners active_owner_rows users_of
owned = refl

-- The owner disables the only owner, and renames the branch.
abbrev requests : List Request
requests =
    record { actor = owner; branch_id = b1; now = pos 1; call = status_set u1 false }
    ∷ record { actor = owner; branch_id = b1; now = pos 2; call = branch_renamed b1 "Bazaar" }
    ∷ []

run-keeps_owner_example :
    (is_nil (shop_owners (run ids hash shop requests)) ≡ false)
    × (all
          (has_owner (run ids hash shop requests))
          (select live (run ids hash shop requests).branches)
        ≡ true)
run-keeps_owner_example = run-keeps_owner ids hash shop requests owned

abbrev server : Server
server = record {
  new_id = ids;
  refresh_ttl_days = 30;
  decode = λ now token. expired;
  issue = λ now user_id session_id. session_id;
  hash_refresh = λ raw. raw;
  verify_password = λ password_hash password. str_eq password_hash password;
  new_refresh_token = λ n. "new";
}

disabled_omid :
    (after : Accounts) × (set_employee_status shop owner b1 "u2" false (pos 1) ≡ ok after)
unfolding set_employee_status require_permission can is_active permissions_for granted
    role_permissions builtin_role_permissions cashier require_user require_user_admin check_disable
    check_all is_owner assignments_of
disabled_omid = (_, refl)

set_employee_status-IsOut_example : IsOut server disabled_omid.0 "u2"
set_employee_status-IsOut_example =
    set_employee_status-IsOut server shop disabled_omid.0 owner b1 "u2" (pos 1) disabled_omid.1

new_secret :
    (after : Accounts) × (reset_password hash shop owner b1 "u2" "new-secret" (pos 1) ≡ ok after)
unfolding reset_password require_permission can is_active permissions_for granted role_permissions
    builtin_role_permissions cashier require_user require_user_admin check_all is_owner
    assignments_of assert_password_strong
new_secret = (_, refl)

-- The owner signs in, the user tries the old password, and somebody sends a refresh token.
abbrev calls : List Step
calls =
    sign_in "ali" "owner-secret" "till" (pos 2)
    ∷ sign_in "omid" "till-secret" "phone" (pos 3)
    ∷ renewal "old" (pos 4)
    ∷ sign_out "old" (pos 5)
    ∷ []

nobody_in : signs_in_during server hash new_secret.0 "u2" calls ≡ false
unfolding new_secret signs_in_during signs_in step authenticate authenticate_user sign_in_closed
    counted_since latest refresh renew_late logout login_locked
nobody_in = refl

reset_password-IsOut_example : IsOut server (steps server hash new_secret.0 calls) "u2"
reset_password-IsOut_example =
    reset_password-IsOut server hash shop new_secret.0 owner b1 "u2" "new-secret" (pos 1) calls
      new_secret.1 nobody_in

abbrev guess : ℤ → Attempt
guess now = record { now = now; password = "123456"; device_id = "phone" }

abbrev six_guesses : List Attempt
six_guesses =
    guess (pos 1)
    ∷ guess (pos 2)
    ∷ guess (pos 3)
    ∷ guess (pos 4)
    ∷ guess (pos 5)
    ∷ guess (pos 6)
    ∷ []

guesses-at_most_example : guesses server shop "ali" six_guesses ≤ 5
unfolding ◌+ℤ◌
guesses-at_most_example = guesses-at_most server "ali" ali (pos 0) shop six_guesses refl tt (
  (omega arith, omega arith, refl),
  (
    (omega arith, omega arith, refl),
    (
      (omega arith, omega arith, refl),
      (
        (omega arith, omega arith, refl),
        ((omega arith, omega arith, refl), ((omega arith, omega arith, refl), tt)),
      ),
    ),
  ),
)
