-- ===== src/AuthService/Sessions.antt =====
-- A revoked session stays revoked: what the calls of IamService and AuthService do to the sessions.
use dukan_pro.Prelude.{
  ℕ, String, ◌≡◌, refl, inl, inr, Bool, Option, none, some, is_some, List, [], ◌∷◌, ◌++◌, any,
  length, All, ◌==◌, Bool-cases, Option-cases, if◌then◌else◌, ◌||◌,
}
use mathlib.Core.Path.{subst}
use dukan_pro.Prelude.Int.{ℤ, ltb_ℤ, leb_ℤ, ◌-ℤ◌}
use dukan_pro.Prelude.Text.{str_eq}
use dukan_pro.Errors.{ok, >>=-eq-ok, >>-eq-ok, or_raise, ok_inj, not_found, Code}
use dukan_pro.Access.{require_permission}
use dukan_pro.Domain.Branches.{
  assert_branch_active, assert_not_last_active_branch, assert_branch_settings_valid,
}
use dukan_pro.Domain.Identity.{
  assert_password_strong, assert_username_available, assert_keeps_an_assignment, User, user_manage,
  branch_manage,
}
use dukan_pro.Store.Queries.{select, first}
use dukan_pro.Accounts.{Accounts, UserRow, SessionRow}
use dukan_pro.Accounts.Queries.{
  require_user, require_branch, domain_user, is_owner_role, require_everywhere, unseat_owner,
  assignments_of,
}
use dukan_pro.Accounts.Updates.{update_first}
use dukan_pro.IamService.{
  live_session_of, revoked_session, revoke_sessions, require_can_grant, require_user_admin,
  live_assignment,
}
use dukan_pro.IamService.Employees.{
  username_of, create_employee, set_employee_status, reset_password, check_disable,
}
use dukan_pro.IamService.Roles.{check_role, elsewhere, assign_role, revoke_assignment}
use dukan_pro.IamService.Branches.{
  create_branch, rename_branch, set_branch_active, is_live_active, with_branch,
}
use dukan_pro.IamService.Calls.{
  Call, employee_created, status_set, role_assigned, assignment_revoked, password_reset,
  branch_created, branch_renamed, branch_switched, handle,
}
use dukan_pro.AuthService.{
  Server, retry_grace, rotated, to_rotate, rotate, renew, renew_late, refresh, logout, presents,
  with_refresh, with_prev, is_active_user, user_by_id,
}
use dukan_pro.AuthService.Out.{RevokedFor}

-- All sessions of the user are revoked.
abbrev pub AllRevoked : String → Accounts → Type 0
AllRevoked user_id s = All (RevokedFor user_id) s.sessions

All-update_first :
    (user_id : String) (p : SessionRow → Bool) (f : SessionRow → SessionRow) (xs : List SessionRow)
    → ((x : SessionRow) → RevokedFor user_id x → RevokedFor user_id (f x))
    → All (RevokedFor user_id) xs
    → All (RevokedFor user_id) (update_first p f xs)
All-update_first user_id p f [] keep h = tt
All-update_first user_id p f (x ∷ xs) keep (h, hs) = elim (Bool-cases (p x)) [
  | inl e ↦ rw e (keep x h, hs)
  | inr e ↦ rw e (h, All-update_first user_id p f xs keep hs)
]

All-revoke_sessions :
    (user_id other : String) (xs : List SessionRow)
    → All (RevokedFor user_id) xs
    → All (RevokedFor user_id) (revoke_sessions other xs)
All-revoke_sessions user_id other [] h = tt
All-revoke_sessions user_id other (x ∷ xs) (h, hs) = elim (Bool-cases (live_session_of other x)) [
  | inl e ↦ rw e ((λ own. refl), All-revoke_sessions user_id other xs hs)
  | inr e ↦ rw e (h, All-revoke_sessions user_id other xs hs)
]

pub All-added :
    (user_id : String) (xs : List SessionRow) (x : SessionRow)
    → All (RevokedFor user_id) xs
    → RevokedFor user_id x
    → All (RevokedFor user_id) (xs ++ (x ∷ []))
All-added user_id [] x h k = (k, tt)
All-added user_id (y ∷ xs) x (h, hs) k = (h, All-added user_id xs x hs k)

module _ (new_id : ℕ → String) (hash : String → String) (s after : Accounts) (actor : User)
    (branch_id : String) (now : ℤ) (user_id : String) (revoked : AllRevoked user_id s) where
  pub handle-AllRevoked :
      (call : Call)
      → handle new_id hash s actor branch_id now call ≡ ok after
      → AllRevoked user_id after
  unfolding handle create_employee set_employee_status assign_role revoke_assignment reset_password
      create_branch rename_branch set_branch_active with_branch
  handle-AllRevoked (employee_created username password display_name role_name) h =
      let (_, h1) = >>-eq-ok (require_can_grant actor branch_id role_name) _ h in
      let (branch, _, h2) = >>=-eq-ok (require_branch s branch_id) _ h1 in
      let (_, h3) = >>-eq-ok (assert_branch_active branch.is_active) _ h2 in
      let (_, h4) = >>-eq-ok (assert_password_strong password 8) _ h3 in
      let taken = is_some (first (username_of username) s.users) in
      let (_, h5) = >>-eq-ok (assert_username_available taken) _ h4 in
      let clash = any (λ (u : UserRow). str_eq u.username username) s.users in
      let (_, h6) = >>-eq-ok (assert_username_available clash) _ h5 in
      subst (AllRevoked user_id) (ok_inj h6) revoked
  handle-AllRevoked (status_set other enable) h =
      let (_, h1) = >>-eq-ok (require_permission actor user_manage branch_id) _ h in
      let (m, _, h2) = >>=-eq-ok (require_user s other) _ h1 in
      let target = domain_user s m in
      let (_, h3) = >>-eq-ok (require_user_admin actor target branch_id) _ h2 in
      let (_, h4) = >>-eq-ok (if enable then ok tt else check_disable s target) _ h3 in
      subst (AllRevoked user_id) (ok_inj h4) (elim (Bool-cases enable) [
        | inl on ↦ rw on revoked
        | inr off ↦ rw off (All-revoke_sessions user_id other s.sessions revoked)
      ])
  handle-AllRevoked (role_assigned other target_branch_id role_name) h =
      let (_, h1) = >>-eq-ok (require_permission actor user_manage branch_id) _ h in
      let (_, h2) = >>-eq-ok (require_can_grant actor target_branch_id role_name) _ h1 in
      let (m, _, h3) = >>=-eq-ok (require_user s other) _ h2 in
      let (target, _, h4) = >>=-eq-ok (require_branch s target_branch_id) _ h3 in
      let (_, h5) = >>-eq-ok (assert_branch_active target.is_active) _ h4 in
      let existing = first (live_assignment other target_branch_id) s.assignments in
      let (_, h6) = >>-eq-ok (check_role s actor m target_branch_id role_name existing) _ h5 in
      subst (AllRevoked user_id) (ok_inj h6) revoked
  handle-AllRevoked (assignment_revoked other b) h =
      let (_, h1) = >>-eq-ok (require_permission actor user_manage branch_id) _ h in
      let (_, h2) = >>-eq-ok (require_permission actor user_manage b) _ h1 in
      let (m, _, h3) = >>=-eq-ok (require_user s other) _ h2 in
      let (row, _, h4) =
        >>=-eq-ok
          (or_raise (first (live_assignment other b) s.assignments)
            (not_found Code.assignment_not_found))
          _ h3 in
      let (_, h5) =
        >>-eq-ok (if is_owner_role row.role_name then unseat_owner s actor m b else ok tt) _ h4 in
      let remaining = select (elsewhere b) (assignments_of s other) in
      let (_, h6) = >>-eq-ok (assert_keeps_an_assignment (length remaining)) _ h5 in
      subst (AllRevoked user_id) (ok_inj h6) revoked
  handle-AllRevoked (password_reset other new_password) h =
      let (_, h1) = >>-eq-ok (require_permission actor user_manage branch_id) _ h in
      let (m, _, h2) = >>=-eq-ok (require_user s other) _ h1 in
      let (_, h3) = >>-eq-ok (require_user_admin actor (domain_user s m) branch_id) _ h2 in
      let (_, h4) = >>-eq-ok (assert_password_strong new_password 8) _ h3 in
      subst (AllRevoked user_id) (ok_inj h4) (All-revoke_sessions user_id other s.sessions revoked)
  handle-AllRevoked (branch_created name timezone currency) h =
      let (_, h1) = >>-eq-ok (require_permission actor branch_manage branch_id) _ h in
      let (_, h2) = >>-eq-ok (require_everywhere s actor branch_manage) _ h1 in
      let (_, h3) = >>-eq-ok (assert_branch_settings_valid timezone currency) _ h2 in
      subst (AllRevoked user_id) (ok_inj h3) revoked
  handle-AllRevoked (branch_renamed target_branch_id name) h =
      let (_, h1) = >>-eq-ok (require_permission actor branch_manage branch_id) _ h in
      let (_, h2) = >>-eq-ok (require_permission actor branch_manage target_branch_id) _ h1 in
      let (m, _, h3) = >>=-eq-ok (require_branch s target_branch_id) _ h2 in
      subst (AllRevoked user_id) (ok_inj h3) revoked
  handle-AllRevoked (branch_switched target_branch_id on) h =
      let (_, h1) = >>-eq-ok (require_permission actor branch_manage branch_id) _ h in
      let (_, h2) = >>-eq-ok (require_permission actor branch_manage target_branch_id) _ h1 in
      let (m, _, h3) = >>=-eq-ok (require_branch s target_branch_id) _ h2 in
      let (_, h4) =
        >>-eq-ok
          (if on
            then ok tt
            else assert_not_last_active_branch (length (select is_live_active s.branches)))
          _ h3 in
      subst (AllRevoked user_id) (ok_inj h4) revoked

module _ (server : Server) (s : Accounts) (user_id : String) (revoked : AllRevoked user_id s) where
  renew-AllRevoked :
      (sess : SessionRow) (replacing : String) (now : ℤ)
      → AllRevoked user_id (renew server s sess replacing now).after
  unfolding renew rotate
  renew-AllRevoked sess replacing now =
      elim (Bool-cases (sess.revoked || leb_ℤ sess.expires_at now)) [
        | inl over ↦ rw over revoked
        | inr live ↦ elim (Bool-cases (is_active_user (first (user_by_id sess.user_id) s.users))) [
          | inr gone ↦ rw (live, gone) revoked
          | inl active ↦
              elim (Bool-cases (length (select (to_rotate sess.id replacing) s.sessions) == 1)) [
                | inr none_left ↦ rw (live, active, none_left) revoked
                | inl one ↦
                    rw (live, active, one)
                      (All-update_first user_id (to_rotate sess.id replacing)
                        (rotated server (server.new_refresh_token s.next) replacing now) s.sessions
                        (λ x h. h) revoked)
              ]
        ]
      ]

  renew_late-AllRevoked :
      (found : Option SessionRow) (presented : String) (now : ℤ)
      → AllRevoked user_id (renew_late server s found presented now).after
  unfolding renew_late
  renew_late-AllRevoked none presented now = revoked
  renew_late-AllRevoked (some sess) presented now = elim (Bool-cases sess.revoked) [
    | inl gone ↦ rw gone revoked
    | inr live ↦ elim (Bool-cases (ltb_ℤ retry_grace (now -ℤ sess.updated_at))) [
      | inl late ↦
          rw (live, late)
            (All-update_first user_id (with_prev presented) revoked_session s.sessions
              (λ x h own. refl) revoked)
      | inr soon ↦
          (let renewed = renew-AllRevoked sess sess.refresh_hash now in
            let renewed_live = rw live at renewed in rw (live, soon) renewed_live)
    ]
  ]

  pub refresh-AllRevoked :
      (token : String) (now : ℤ) → AllRevoked user_id (refresh server s token now).after
  unfolding refresh
  refresh-AllRevoked token now =
      let presented = server.hash_refresh token in
      elim (Option-cases (first (with_refresh presented) s.sessions)) [
        | inl unknown ↦
            rw (refresh, unknown)
              (renew_late-AllRevoked (first (with_prev presented) s.sessions) presented now)
        | inr (sess, found) ↦ rw (refresh, found) (renew-AllRevoked sess presented now)
      ]

  pub logout-AllRevoked :
      (token : String) (now : ℤ) → AllRevoked user_id (logout server s token now)
  unfolding logout
  logout-AllRevoked token now =
      let presented = server.hash_refresh token in
      elim (Option-cases (first (presents presented) s.sessions)) [
        | inl unknown ↦ rw (logout, unknown) revoked
        | inr (sess, found) ↦ elim (Bool-cases sess.revoked) [
          | inl gone ↦ rw (logout, found, gone) revoked
          | inr live ↦
              rw (logout, found, live)
                (All-update_first user_id (presents presented) revoked_session s.sessions
                  (λ x h own. refl) revoked)
        ]
      ]
