-- ===== src/AuthService/Out.antt =====
-- A user whose sessions were revoked is out.
use dukan_pro.Prelude.{
  String, ◌≡◌, refl, ap, sym, ◌∙◌, inl, inr, Bool, true, false, not, ◌||◌, Option, none, some, List,
  [], ◌∷◌, length, ◌==◌, arith, All, Bool-cases, Option-cases, if◌then◌else◌,
}
use mathlib.Core.Option.{some_inj}
use mathlib.Core.Path.{subst}
use dukan_pro.Prelude.Int.{ℤ, ◌-ℤ◌, ltb_ℤ, leb_ℤ}
use dukan_pro.Prelude.Text.{str_eq, str_eq→eq}
use dukan_pro.Errors.{ok, >>=-eq-ok, >>-eq-ok, or_raise, or_raise-eq-ok, ok_inj, passed, auth, Code}
use dukan_pro.Access.{require_permission}
use dukan_pro.Domain.Identity.{User, user_manage}
use dukan_pro.Store.Queries.{select, first}
use dukan_pro.Store.Sums.{first_sound}
use dukan_pro.Accounts.{Accounts, SessionRow}
use dukan_pro.Accounts.Queries.{domain_user, is_active_status, require_user}
use dukan_pro.IamService.{live_session_of, revoked_session, revoke_sessions, require_user_admin}
use dukan_pro.IamService.Employees.{set_employee_status, with_employee_status, check_disable}
use dukan_pro.AuthService.{
  Server, AuthTokens, Answer, retry_grace, user_by_id, session_by_id, is_over, is_active_user,
  with_refresh, with_prev, to_rotate, rotate, renew, renew_late, refresh, decode_access,
  authenticated_user,
}

abbrev pub RevokedFor : String → SessionRow → Type 0
RevokedFor user_id x = str_eq x.user_id user_id ≡ true → x.revoked ≡ true

revoked-RevokedFor :
    (user_id : String) (x : SessionRow)
    → RevokedFor user_id (if live_session_of user_id x then revoked_session x else x)
revoked-RevokedFor user_id x = elim (Bool-cases (live_session_of user_id x)) [
  | inl e ↦ rw e (λ own. refl)
  | inr e ↦ rw e (λ own. ground arith)
]

pub All-RevokedFor :
    (user_id : String) (sessions : List SessionRow)
    → All (RevokedFor user_id) (revoke_sessions user_id sessions)
All-RevokedFor user_id [] = tt
All-RevokedFor user_id (x ∷ sessions) =
    (revoked-RevokedFor user_id x, All-RevokedFor user_id sessions)

first-All {ℓ κ} :
    {A : Type ℓ} (P : A → Type κ) (p : A → Bool) (xs : List A) (x : A)
    → All P xs
    → first p xs ≡ some x
    → P x
first-All P p [] x h e = cc
first-All P p (y ∷ xs) x h e = elim (Bool-cases (p y)) [
  | inl found ↦ subst P (some_inj.0 (rw found at e)) h.0
  | inr other ↦ first-All P p xs x h.1 (rw other at e)
]

not_own : (own revoked : Bool) → (own ≡ true → revoked ≡ true) → revoked ≡ false → own ≡ false
not_own true revoked h e = (let f = h refl in cc)
not_own false revoked h e = refl

else_of :
    (x y : Answer AuthTokens) (b : Bool) (t : AuthTokens)
    → b ≡ false
    → (if b then x else y).result ≡ ok t
    → y.result ≡ ok t
else_of x y true t e h = cc
else_of x y false t e h = h

module _ (server : Server) (s : Accounts) (user_id : String)
    (revoked : All (RevokedFor user_id) s.sessions) where
  -- No request acts as the user.
  no_request :
      (token : String) (now : ℤ) (u : User)
      → authenticated_user server s token now ≡ ok u
      → str_eq u.id user_id ≡ false
  unfolding authenticated_user
  no_request token now u h =
      let (claims, _, h1) = >>=-eq-ok (decode_access server now token) _ h in
      let (sess, found, h2) =
        >>=-eq-ok (or_raise (first (session_by_id claims.0) s.sessions) (auth Code.session_revoked))
          _ h1 in
      let (live, h3) = passed (is_over sess now) (auth Code.session_revoked) _ h2 in
      let (own, h4) = passed (not (str_eq sess.user_id claims.1)) (auth Code.token_invalid) _ h3 in
      let (m, at_m, h5) =
        >>=-eq-ok (or_raise (first (user_by_id sess.user_id) s.users) (auth Code.user_disabled)) _
          h4 in
      let (_, h6) = passed (not (is_active_status m.status)) (auth Code.user_disabled) _ h5 in
      let same : m.id ≡ sess.user_id =
        str_eq→eq m.id sess.user_id
          (first_sound (user_by_id sess.user_id) s.users m (or_raise-eq-ok _ _ at_m)) in
      let theirs =
        first-All (RevokedFor user_id) (session_by_id claims.0) s.sessions sess revoked
          (or_raise-eq-ok _ _ found) in
      let other : str_eq sess.user_id user_id ≡ false =
        not_own (str_eq sess.user_id user_id) sess.revoked theirs (ground arith) in
      ap (λ (x : User). str_eq x.id user_id) (sym (ok_inj h6)) ∙ (rw same other)

  -- A renewed session, and the token for it.
  abbrev Renews : SessionRow → ℤ → AuthTokens → Type 0
  Renews sess now t =
      (sess.revoked ≡ false) × (t.access_token ≡ server.issue now sess.user_id sess.id)

  renew-Renews :
      (sess : SessionRow) (replacing : String) (now : ℤ) (t : AuthTokens)
      → (renew server s sess replacing now).result ≡ ok t
      → Renews sess now t
  unfolding renew rotate
  renew-Renews sess replacing now t h =
      elim (Bool-cases (sess.revoked || leb_ℤ sess.expires_at now)) [
        | inl over ↦ (let e = rw over at h in cc)
        | inr live ↦ elim (Bool-cases (is_active_user (first (user_by_id sess.user_id) s.users))) [
          | inl active ↦
              elim (Bool-cases (length (select (to_rotate sess.id replacing) s.sessions) == 1)) [
                | inl one ↦
                    let e = rw (live, active, one) at h in
                    (ground arith, sym (ap (λ (x : AuthTokens). x.access_token) (ok_inj e)))
                | inr none_left ↦ (let e = rw (live, active, none_left) at h in cc)
              ]
          | inr gone ↦ (let e = rw (live, gone) at h in cc)
        ]
      ]

  renew_late-Renews :
      (found : Option SessionRow) (presented : String) (now : ℤ) (t : AuthTokens)
      → (renew_late server s found presented now).result ≡ ok t
      → (sess : SessionRow) × (found ≡ some sess) × Renews sess now t
  unfolding renew_late
  renew_late-Renews none presented now t h = cc
  renew_late-Renews (some sess) presented now t h = elim (Bool-cases sess.revoked) [
    | inl gone ↦ (let e = rw gone at h in cc)
    | inr live ↦ elim (Bool-cases (ltb_ℤ retry_grace (now -ℤ sess.updated_at))) [
      | inl late ↦ (let e = rw (live, late) at h in cc)
      | inr soon ↦
          let in_time = else_of _ _ sess.revoked t live h in
          (sess, refl, renew-Renews sess sess.refresh_hash now t (else_of _ _ _ t soon in_time))
    ]
  ]

  -- A renewed session is nobody's but another user's.
  no_renewal :
      (token : String) (now : ℤ) (t : AuthTokens)
      → (refresh server s token now).result ≡ ok t
      → (sess : SessionRow) × (t.access_token ≡ server.issue now sess.user_id sess.id)
        × (str_eq sess.user_id user_id ≡ false)
  unfolding refresh
  no_renewal token now t h =
      let presented = server.hash_refresh token in
      elim (Option-cases (first (with_refresh presented) s.sessions)) [
        | inl unknown ↦
            let (sess, found, (live, issued)) =
              renew_late-Renews (first (with_prev presented) s.sessions) presented now t
                (rw (refresh, unknown) at h) in
            let theirs =
              first-All (RevokedFor user_id) (with_prev presented) s.sessions sess revoked found in
            (sess, issued, not_own (str_eq sess.user_id user_id) sess.revoked theirs live)
        | inr (sess, found) ↦
            let (live, issued) = renew-Renews sess presented now t (rw (refresh, found) at h) in
            let theirs =
              first-All (RevokedFor user_id) (with_refresh presented) s.sessions sess revoked
                found in
            (sess, issued, not_own (str_eq sess.user_id user_id) sess.revoked theirs live)
      ]

-- No request acts as the user, and no session of the user's is renewed.
abbrev pub IsOut : Server → Accounts → String → Type 0
IsOut server s user_id =
    ((token : String) (now : ℤ) (u : User)
      → authenticated_user server s token now ≡ ok u
      → str_eq u.id user_id ≡ false)
    × ((token : String) (now : ℤ) (t : AuthTokens)
        → (refresh server s token now).result ≡ ok t
        → (sess : SessionRow) × (t.access_token ≡ server.issue now sess.user_id sess.id)
          × (str_eq sess.user_id user_id ≡ false))

pub revoked-IsOut :
    (server : Server) (s : Accounts) (user_id : String)
    → All (RevokedFor user_id) s.sessions
    → IsOut server s user_id
revoked-IsOut server s user_id h = (no_request server s user_id h, no_renewal server s user_id h)

-- Once a user is disabled, no access token that the user still holds is accepted and no refresh
-- token is exchanged, whatever they are and whenever they come.
pub set_employee_status-IsOut :
    (server : Server) (s after : Accounts) (actor : User) (branch_id user_id : String) (now : ℤ)
    → set_employee_status s actor branch_id user_id false now ≡ ok after
    → IsOut server after user_id
unfolding set_employee_status
set_employee_status-IsOut server s after actor branch_id user_id now h =
    let (_, h1) = >>-eq-ok (require_permission actor user_manage branch_id) _ h in
    let (m, found, h2) = >>=-eq-ok (require_user s user_id) _ h1 in
    let (_, h3) = >>-eq-ok (require_user_admin actor (domain_user s m) branch_id) _ h2 in
    let (_, h4) = >>-eq-ok (check_disable s (domain_user s m)) _ h3 in
    let next = with_employee_status s actor user_id false now in
    subst (λ (x : Accounts). IsOut server x user_id) (ok_inj h4)
      (revoked-IsOut server next user_id (All-RevokedFor user_id s.sessions))
