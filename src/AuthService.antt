-- ===== src/AuthService.antt =====
-- server/dukan/infrastructure/auth_service.py over the tables of Accounts: sign-in, refresh, sign-out
-- and the user behind a request. A call gives back the tables after it, whether it commits or
-- raises, and its answer. Instants are microseconds.
pub mod Later
pub mod Lock
pub mod Out
pub mod Sessions
use dukan_pro.Prelude.{
  ℕ, suc, ◌+◌, ◌*◌, String, Bool, true, false, not, ◌&&◌, ◌||◌, Option, none, some, List, [], ◌∷◌,
  ◌++◌, map, length, ◌==◌, if◌then◌else◌,
}
use dukan_pro.Prelude.Int.{ℤ, pos, ◌+ℤ◌, ◌-ℤ◌, ltb_ℤ, leb_ℤ, max_ℤ}
use dukan_pro.Prelude.Text.{str_eq, is_text}
use dukan_pro.Errors.{
  AppError, Result, Checked, ok, err, ◌>>=◌, ◌>>◌, or_raise, raise_if, auth, rate_limited, Code,
}
use dukan_pro.Domain.Identity.{User, BranchAssignment, login_locked}
use dukan_pro.Store.Queries.{select, first}
use dukan_pro.Accounts.{Accounts, UserRow, SessionRow, AuditRow}
use dukan_pro.Accounts.Queries.{domain_user, is_active_status}
use dukan_pro.Accounts.Updates.{update_first}
use dukan_pro.IamService.{revoked_session}
use dukan_pro.IamService.Employees.{username_of}

-- What jwt.decode makes of a token at an instant.
pub data Decoded : Type 0 where
  expired unreadable : Decoded
  claims : (sid sub : String) → Decoded

-- The libraries that sign, hash and draw (jwt, argon2, SHA-256, `secrets`, uuid), and the setting.
pub record Server : Type 0 where
  pub new_id : ℕ → String
  pub refresh_ttl_days : ℕ
  pub decode : ℤ → String → Decoded
  pub issue : ℤ → String → String → String
  pub hash_refresh : String → String
  pub verify_password : String → String → Bool
  pub new_refresh_token : ℕ → String

pub record AuthTokens : Type 0 where
  pub access_token : String
  pub refresh_token : String

-- The tables after a call, and its answer.
pub record Answer (V : Type 0) : Type 0 where
  pub after : Accounts
  pub result : Result V

-- 15 minutes, 60 seconds, and a day.
abbrev pub lock_window : ℤ
lock_window = pos 900000000

abbrev pub retry_grace : ℤ
retry_grace = pos 60000000

abbrev day : ℕ
day = 86400000000

abbrev pub entry : String → Option String → Option String → ℤ → AuditRow
entry action actor_id entity_id now = record {
  action = action;
  actor_id = actor_id;
  entity_id = entity_id;
  occurred_at = now;
}

abbrev pub with_entry : Accounts → AuditRow → Accounts
with_entry s a = record s { audit = s.audit ++ (a ∷ []) }

abbrev pub entry_of : String → String → AuditRow → Bool
entry_of action user_id a = str_eq a.action action && is_text a.entity_id user_id

-- `func.max`
unfoldable pub latest : List AuditRow → Option ℤ
latest [] = none
latest (a ∷ rows) = elim (latest rows) [
  | none ↦ some a.occurred_at
  | some t ↦ some (max_ℤ a.occurred_at t)
]

abbrev pub later_of : ℤ → Option ℤ → ℤ
later_of since none = since
later_of since (some last_ok) = if ltb_ℤ since last_ok then last_ok else since

-- From when on the wrong passwords of a user count.
unfoldable pub counted_since : Accounts → String → ℤ → ℤ
unfolding latest
counted_since s user_id now =
    later_of (now -ℤ lock_window) (latest (select (entry_of "user.authenticated" user_id) s.audit))

abbrev pub failed_after : String → ℤ → AuditRow → Bool
failed_after user_id since a = entry_of "user.login_failed" user_id a && ltb_ℤ since a.occurred_at

unfoldable pub sign_in_closed : Accounts → String → ℤ → Bool
unfolding counted_since
sign_in_closed s user_id now =
    login_locked (length (select (failed_after user_id (counted_since s user_id now)) s.audit))

-- The row with the id, a deleted one too: `session.get`.
abbrev pub user_by_id : String → UserRow → Bool
user_by_id id u = str_eq u.id id

abbrev pub session_by_id : String → SessionRow → Bool
session_by_id id x = str_eq x.id id

abbrev pub failed : Accounts → Option String → ℤ → Answer AuthTokens
failed s user_id now = record {
  after = with_entry s (entry "user.login_failed" user_id user_id now);
  result = err (auth Code.invalid_credentials);
}

abbrev pub locked : Accounts → String → ℤ → Answer AuthTokens
locked s user_id now = record {
  after = with_entry s (entry "user.login_locked" (some user_id) (some user_id) now);
  result = err (rate_limited Code.login_locked);
}

abbrev pub with_refresh : String → SessionRow → Bool
with_refresh presented x = str_eq x.refresh_hash presented

abbrev pub with_prev : String → SessionRow → Bool
with_prev presented x = is_text x.prev_refresh_hash presented

abbrev pub refused : Accounts → Code → Answer AuthTokens
refused s code = record { after = s; result = err (auth code) }

abbrev pub to_rotate : String → String → SessionRow → Bool
to_rotate session_id replacing x =
    str_eq x.id session_id && str_eq x.refresh_hash replacing && not x.revoked

abbrev pub is_active_user : Option UserRow → Bool
is_active_user none = false
is_active_user (some m) = is_active_status m.status

abbrev pub presents : String → SessionRow → Bool
presents presented x = with_refresh presented x || with_prev presented x

abbrev pub is_over : SessionRow → ℤ → Bool
is_over sess now = sess.revoked || sess.deleted || leb_ℤ sess.expires_at now

module _ (server : Server) where
  abbrev pub new_session : Accounts → String → String → ℤ → SessionRow
  new_session s user_id device_id now = record {
    id = server.new_id s.next;
    user_id = user_id;
    device_id = device_id;
    refresh_hash = server.hash_refresh (server.new_refresh_token s.next);
    prev_refresh_hash = none;
    expires_at = now +ℤ pos (server.refresh_ttl_days * day);
    updated_at = now;
    revoked = false;
    deleted = false;
  }

  -- `_issue_session`, for a user whose sign-in the audit trail then holds.
  abbrev pub signed_in : Accounts → String → String → ℤ → Answer AuthTokens
  signed_in s user_id device_id now = record {
    after =
        with_entry
          (record s {
            sessions = s.sessions ++ (new_session s user_id device_id now ∷ []);
            next = suc s.next;
          })
          (entry "user.authenticated" (some user_id) (some user_id) now);
    result = ok (record {
      access_token = server.issue now user_id (server.new_id s.next);
      refresh_token = server.new_refresh_token s.next;
    });
  }

  -- The sign-in of a user who is there.
  unfoldable pub authenticate_user : Accounts → UserRow → String → String → ℤ → Answer AuthTokens
  authenticate_user s m password device_id now =
      if sign_in_closed s m.id now
      then locked s m.id now
      else if not (server.verify_password m.password_hash password)
      then failed s (some m.id) now
      else if not (is_active_status m.status)
      then record { after = s; result = err (auth Code.user_disabled) }
      else signed_in s m.id device_id now

  unfoldable pub authenticate : Accounts → String → String → String → ℤ → Answer AuthTokens
  unfolding authenticate_user
  authenticate s username password device_id now = elim (first (username_of username) s.users) [
    | none ↦ failed s none now
    | some m ↦ authenticate_user s m password device_id now
  ]

  abbrev pub rotated : String → String → ℤ → SessionRow → SessionRow
  rotated raw replacing now x = record x {
    refresh_hash = server.hash_refresh raw;
    prev_refresh_hash = some replacing;
    updated_at = now;
  }

  -- The rotation of a session whose hash `replacing` is.
  unfoldable pub rotate : Accounts → SessionRow → String → ℤ → Answer AuthTokens
  rotate s sess replacing now =
      let raw = server.new_refresh_token s.next in
      if not (length (select (to_rotate sess.id replacing) s.sessions) == 1)
      then refused s Code.refresh_invalid
      else record {
        after = record s {
          sessions =
              update_first (to_rotate sess.id replacing) (rotated raw replacing now) s.sessions;
          next = suc s.next;
        };
        result =
            ok (record {
              access_token = server.issue now sess.user_id sess.id;
              refresh_token = raw;
            });
      }

  unfoldable pub renew : Accounts → SessionRow → String → ℤ → Answer AuthTokens
  unfolding rotate
  renew s sess replacing now =
      if sess.revoked || leb_ℤ sess.expires_at now
      then refused s Code.refresh_invalid
      else if not (is_active_user (first (user_by_id sess.user_id) s.users))
      then refused s Code.user_disabled
      else rotate s sess replacing now

  -- A token that was rotated out: a retry within the grace, or a copy.
  unfoldable pub renew_late : Accounts → Option SessionRow → String → ℤ → Answer AuthTokens
  unfolding renew
  renew_late s none presented now = refused s Code.refresh_invalid
  renew_late s (some sess) presented now =
      if sess.revoked
      then refused s Code.refresh_invalid
      else if ltb_ℤ retry_grace (now -ℤ sess.updated_at)
      then record {
        after =
            with_entry
              (record s {
                sessions = update_first (with_prev presented) revoked_session s.sessions;
              })
              (entry "session.reuse_detected" (some sess.user_id) (some sess.id) now);
        result = err (auth Code.refresh_invalid);
      }
      else renew s sess sess.refresh_hash now

  unfoldable pub refresh : Accounts → String → ℤ → Answer AuthTokens
  unfolding renew renew_late
  refresh s refresh_token now =
      let presented = server.hash_refresh refresh_token in
      elim (first (with_refresh presented) s.sessions) [
        | some sess ↦ renew s sess presented now
        | none ↦ renew_late s (first (with_prev presented) s.sessions) presented now
      ]

  unfoldable pub logout : Accounts → String → ℤ → Accounts
  logout s refresh_token now =
      let presented = server.hash_refresh refresh_token in
      elim (first (presents presented) s.sessions) [
        | none ↦ s
        | some sess ↦
            if sess.revoked
            then s
            else with_entry
                (record s {
                  sessions = update_first (presents presented) revoked_session s.sessions;
                })
                (entry "user.logout" (some sess.user_id) none now)
      ]

  -- `tokens.decode_access`
  unfoldable pub decode_access : ℤ → String → Result (String × String)
  decode_access now token = elim (server.decode now token) [
    | expired ↦ err (auth Code.token_expired)
    | unreadable ↦ err (auth Code.token_invalid)
    | claims sid sub ↦ ok (sid, sub)
  ]

  unfoldable pub authenticated_user : Accounts → String → ℤ → Result User
  unfolding decode_access
  authenticated_user s access_token now = do
    (sid, sub) ← decode_access now access_token
    sess ← or_raise (first (session_by_id sid) s.sessions) (auth Code.session_revoked)
    raise_if (is_over sess now) (auth Code.session_revoked)
    raise_if (not (str_eq sess.user_id sub)) (auth Code.token_invalid)
    m ← or_raise (first (user_by_id sess.user_id) s.users) (auth Code.user_disabled)
    raise_if (not (is_active_status m.status)) (auth Code.user_disabled)
    ok (domain_user s m)
