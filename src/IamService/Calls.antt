-- ===== src/IamService/Calls.antt =====
-- The calls of the service, in any order and by anyone.
use dukan_pro.Prelude.{ℕ, String, Bool, true, false, ◌≡◌, inl, inr, List, [], ◌∷◌, all}
use dukan_pro.Prelude.Int.{ℤ}
use dukan_pro.Errors.{Result, ok, err, Result-cases}
use dukan_pro.Domain.Identity.{User}
use dukan_pro.Store.Queries.{select}
use dukan_pro.Accounts.{Accounts}
use dukan_pro.Accounts.Queries.{shop_owners, is_nil}
use dukan_pro.Accounts.Owners.{live, has_owner, shop_owner-everywhere, first_owner}
use dukan_pro.IamService.Branches.{create_branch, rename_branch, set_branch_active}
use dukan_pro.IamService.Employees.{create_employee, set_employee_status, reset_password}
use dukan_pro.IamService.Roles.{assign_role, revoke_assignment}
use dukan_pro.IamService.Owners.{
  IsOwned, create_employee-IsOwned, set_employee_status-IsOwned, reset_password-IsOwned,
  create_branch-IsOwned, rename_branch-IsOwned, set_branch_active-IsOwned,
}
use dukan_pro.IamService.Owners.Roles.{assign_role-IsOwned, revoke_assignment-IsOwned}

pub data Call : Type 0 where
  employee_created : (username password display_name role_name : String) → Call
  status_set : (user_id : String) (enable : Bool) → Call
  role_assigned : (user_id target_branch_id role_name : String) → Call
  assignment_revoked : (user_id target_branch_id : String) → Call
  password_reset : (user_id new_password : String) → Call
  branch_created : (name timezone currency : String) → Call
  branch_renamed : (target_branch_id name : String) → Call
  branch_switched : (target_branch_id : String) (on : Bool) → Call

-- Who calls, in which branch and when.
pub record Request : Type 0 where
  pub actor : User
  pub branch_id : String
  pub now : ℤ
  pub call : Call

module _ (new_id : ℕ → String) (hash : String → String) where
  unfoldable pub handle : Accounts → User → String → ℤ → Call → Result Accounts
  unfolding create_employee set_employee_status assign_role revoke_assignment reset_password
      create_branch rename_branch set_branch_active
  handle s actor branch_id now (employee_created username password display_name role_name) =
      create_employee new_id hash s actor branch_id username password display_name role_name now
  handle s actor branch_id now (status_set user_id enable) =
      set_employee_status s actor branch_id user_id enable now
  handle s actor branch_id now (role_assigned user_id target_branch_id role_name) =
      assign_role new_id s actor branch_id user_id target_branch_id role_name now
  handle s actor branch_id now (assignment_revoked user_id target_branch_id) =
      revoke_assignment s actor branch_id user_id target_branch_id now
  handle s actor branch_id now (password_reset user_id new_password) =
      reset_password hash s actor branch_id user_id new_password now
  handle s actor branch_id now (branch_created name timezone currency) =
      create_branch new_id s actor branch_id name timezone currency now
  handle s actor branch_id now (branch_renamed target_branch_id name) =
      rename_branch s actor branch_id target_branch_id name now
  handle s actor branch_id now (branch_switched target_branch_id on) =
      set_branch_active s actor branch_id target_branch_id on now

  -- A refused call leaves the tables as they were.
  abbrev pub committed : Accounts → Result Accounts → Accounts
  committed s (ok after) = after
  committed s (err e) = s

  unfoldable pub run : Accounts → List Request → Accounts
  unfolding handle
  run s [] = s
  run s (r ∷ requests) = run (committed s (handle s r.actor r.branch_id r.now r.call)) requests

  handle-IsOwned :
      (s after : Accounts) (actor : User) (b : String) (now : ℤ) (call : Call)
      → handle s actor b now call ≡ ok after
      → IsOwned s
      → IsOwned after
  unfolding handle
  handle-IsOwned s after actor b now (employee_created username password display_name role_name) =
      create_employee-IsOwned new_id hash s after actor now b username password display_name
        role_name
  handle-IsOwned s after actor b now (status_set user_id enable) =
      set_employee_status-IsOwned new_id hash s after actor now b user_id enable
  handle-IsOwned s after actor b now (role_assigned user_id target_branch_id role_name) =
      assign_role-IsOwned new_id hash s after actor now b user_id target_branch_id role_name
  handle-IsOwned s after actor b now (assignment_revoked user_id target_branch_id) =
      revoke_assignment-IsOwned new_id hash s after actor now b user_id target_branch_id
  handle-IsOwned s after actor b now (password_reset user_id new_password) =
      reset_password-IsOwned new_id hash s after actor now b user_id new_password
  handle-IsOwned s after actor b now (branch_created name timezone currency) =
      create_branch-IsOwned new_id hash s after actor now b name timezone currency
  handle-IsOwned s after actor b now (branch_renamed target_branch_id name) =
      rename_branch-IsOwned new_id hash s after actor now b target_branch_id name
  handle-IsOwned s after actor b now (branch_switched target_branch_id on) =
      set_branch_active-IsOwned new_id hash s after actor now b target_branch_id on

  run-IsOwned : (requests : List Request) (s : Accounts) → IsOwned s → IsOwned (run s requests)
  unfolding run
  run-IsOwned [] s h = h
  run-IsOwned (r ∷ requests) s h =
      let result = handle s r.actor r.branch_id r.now r.call in
      run-IsOwned requests (committed s result) (elim (Result-cases result) [
        | inl (after, done) ↦
            rw done (handle-IsOwned s after r.actor r.branch_id r.now r.call done h)
        | inr (e, refused) ↦ rw refused h
      ])

  -- While some active user owns every branch, no sequence of calls by anyone takes that away: there
  -- is such a user after the calls too, and every branch has an active owner.
  pub run-keeps_owner :
      (s : Accounts) (requests : List Request)
      → is_nil (shop_owners s) ≡ false
      → (is_nil (shop_owners (run s requests)) ≡ false)
        × (all (has_owner (run s requests)) (select live (run s requests).branches) ≡ true)
  run-keeps_owner s requests h =
      let (w, owner) = run-IsOwned requests s (first_owner s h) in
      shop_owner-everywhere (run s requests) w owner
