-- ===== src/AuthService/Later.antt =====
-- A user whose password was reset is out until the next sign-in, whatever is called meanwhile.
use dukan_pro.Prelude.{
  String, ◌≡◌, inl, inr, Bool, true, false, ◌&&◌, ◌||◌, Option, none, some, List, [], ◌∷◌,
  Bool-cases, Option-cases, or_false,
}
use mathlib.Core.Path.{subst}
use dukan_pro.Prelude.Int.{ℤ}
use dukan_pro.Prelude.Text.{str_eq}
use dukan_pro.Errors.{Result, ok, err, Result-cases, >>=-eq-ok, >>-eq-ok, ok_inj}
use dukan_pro.Access.{require_permission}
use dukan_pro.Domain.Identity.{User, user_manage, assert_password_strong}
use dukan_pro.Store.Queries.{first}
use dukan_pro.Accounts.{Accounts, UserRow}
use dukan_pro.Accounts.Queries.{domain_user, is_active_status, require_user}
use dukan_pro.IamService.{require_user_admin}
use dukan_pro.IamService.Employees.{username_of, reset_password}
use dukan_pro.IamService.Calls.{Request, handle, committed}
use dukan_pro.AuthService.{
  Server, AuthTokens, authenticate, authenticate_user, sign_in_closed, new_session, refresh, logout,
}
use dukan_pro.AuthService.Out.{IsOut, All-RevokedFor, revoked-IsOut}
use dukan_pro.AuthService.Sessions.{
  AllRevoked, All-added, handle-AllRevoked, refresh-AllRevoked, logout-AllRevoked,
}

-- A call of either service.
pub data Step : Type 0 where
  staff_call : Request → Step
  sign_in : (username password device_id : String) (now : ℤ) → Step
  renewal sign_out : (refresh_token : String) (now : ℤ) → Step

abbrev succeeds : Result AuthTokens → Bool
succeeds (ok tokens) = true
succeeds (err e) = false

abbrev is_row_of : String → Option UserRow → Bool
is_row_of user_id none = false
is_row_of user_id (some m) = str_eq m.id user_id

module _ (server : Server) (hash : String → String) where
  unfoldable pub step : Accounts → Step → Accounts
  unfolding handle authenticate refresh logout
  step s (staff_call r) =
      committed server.new_id hash s (handle server.new_id hash s r.actor r.branch_id r.now r.call)
  step s (sign_in username password device_id now) =
      (authenticate server s username password device_id now).after
  step s (renewal refresh_token now) = (refresh server s refresh_token now).after
  step s (sign_out refresh_token now) = logout server s refresh_token now

  unfoldable pub steps : Accounts → List Step → Accounts
  unfolding step
  steps s [] = s
  steps s (x ∷ xs) = steps (step s x) xs

  -- The user signs in, and is let in.
  unfoldable pub signs_in : Accounts → String → Step → Bool
  unfolding authenticate
  signs_in s user_id (sign_in username password device_id now) =
      is_row_of user_id (first (username_of username) s.users)
      && succeeds (authenticate server s username password device_id now).result
  signs_in s user_id _ = false

  unfoldable pub signs_in_during : Accounts → String → List Step → Bool
  unfolding signs_in step
  signs_in_during s user_id [] = false
  signs_in_during s user_id (x ∷ xs) = signs_in s user_id x || signs_in_during (step s x) user_id xs

  authenticate-AllRevoked :
      (s : Accounts) (user_id username password device_id : String) (now : ℤ)
      → signs_in s user_id (sign_in username password device_id now) ≡ false
      → AllRevoked user_id s
      → AllRevoked user_id (authenticate server s username password device_id now).after
  unfolding signs_in authenticate authenticate_user
  authenticate-AllRevoked s user_id username password device_id now other revoked =
      elim (Option-cases (first (username_of username) s.users)) [
        | inl unknown ↦ rw (authenticate, unknown) revoked
        | inr (m, found) ↦ elim (Bool-cases (sign_in_closed s m.id now)) [
          | inl closed ↦ rw (authenticate, found, closed) revoked
          | inr free ↦ elim (Bool-cases (server.verify_password m.password_hash password)) [
            | inr wrong ↦ rw (authenticate, found, free, wrong) revoked
            | inl right ↦ elim (Bool-cases (is_active_status m.status)) [
              | inr disabled ↦ rw (authenticate, found, free, right, disabled) revoked
              | inl active ↦ elim (Bool-cases (str_eq m.id user_id)) [
                | inl own ↦
                    (let let_in =
                        rw (signs_in, found, authenticate, free, right, active, own) at other in
                      cc)
                | inr theirs ↦
                    rw (authenticate, found, free, right, active)
                      (All-added user_id s.sessions (new_session server s m.id device_id now)
                        revoked (λ own. (let clash = rw own at theirs in cc)))
              ]
            ]
          ]
        ]
      ]

  step-AllRevoked :
      (s : Accounts) (user_id : String) (x : Step)
      → signs_in s user_id x ≡ false
      → AllRevoked user_id s
      → AllRevoked user_id (step s x)
  unfolding step
  step-AllRevoked s user_id (staff_call r) other revoked =
      let result = handle server.new_id hash s r.actor r.branch_id r.now r.call in
      elim (Result-cases result) [
        | inl (after, done) ↦ rw done (
            handle-AllRevoked server.new_id hash s after r.actor r.branch_id r.now user_id revoked
              r.call done)
        | inr (e, refused) ↦ rw refused revoked
      ]
  step-AllRevoked s user_id (sign_in username password device_id now) other revoked =
      authenticate-AllRevoked s user_id username password device_id now other revoked
  step-AllRevoked s user_id (renewal token now) other revoked =
      refresh-AllRevoked server s user_id revoked token now
  step-AllRevoked s user_id (sign_out token now) other revoked =
      logout-AllRevoked server s user_id revoked token now

  steps-AllRevoked :
      (s : Accounts) (user_id : String) (xs : List Step)
      → signs_in_during s user_id xs ≡ false
      → AllRevoked user_id s
      → AllRevoked user_id (steps s xs)
  unfolding steps signs_in_during
  steps-AllRevoked s user_id [] other revoked = revoked
  steps-AllRevoked s user_id (x ∷ xs) other revoked =
      let (now, later) = or_false (signs_in s user_id x) other in
      steps-AllRevoked (step s x) user_id xs later (step-AllRevoked s user_id x now revoked)

  -- Once a user's password was reset, the user is out until the next sign-in: whatever calls of
  -- either service follow, by anyone and in any order, as long as the user does not sign in
  -- successfully, no access token of the user's is accepted and no refresh token is exchanged.
  pub reset_password-IsOut :
      (s after : Accounts) (actor : User) (branch_id user_id new_password : String) (now : ℤ)
      (calls : List Step)
      → reset_password hash s actor branch_id user_id new_password now ≡ ok after
      → signs_in_during after user_id calls ≡ false
      → IsOut server (steps after calls) user_id
  unfolding reset_password
  reset_password-IsOut s after actor branch_id user_id new_password now calls h other =
      let (_, h1) = >>-eq-ok (require_permission actor user_manage branch_id) _ h in
      let (m, _, h2) = >>=-eq-ok (require_user s user_id) _ h1 in
      let (_, h3) = >>-eq-ok (require_user_admin actor (domain_user s m) branch_id) _ h2 in
      let (_, h4) = >>-eq-ok (assert_password_strong new_password 8) _ h3 in
      let revoked : AllRevoked user_id after =
        subst (AllRevoked user_id) (ok_inj h4) (All-RevokedFor user_id s.sessions) in
      revoked-IsOut server (steps after calls) user_id
        (steps-AllRevoked after user_id calls other revoked)
