-- ===== src/AuthService/Lock.antt =====
-- The lock of the sign-in: how many passwords can be tried.
use dukan_pro.Prelude.{
  ℕ, ◌+◌, ◌≤◌, ◌<◌, String, ◌≡◌, refl, ap, ◌∙◌, ◌⊎◌, inl, inr, Bool, true, false, some, List, [],
  ◌∷◌, ◌++◌, length, length-append, arith, All, Bool-cases, Option-cases, and_true, if◌then◌else◌,
}
use mathlib.Core.Option.{some_inj}
use mathlib.Core.Path.{subst}
use dukan_pro.Prelude.Int.{ℤ, ◌+ℤ◌, ◌-ℤ◌, ◌≤ℤ◌, ◌<ℤ◌, ltb_ℤ, max_ℤ, int_laws}
use dukan_pro.Prelude.Text.{eq_refl}
use dukan_pro.Errors.{Result, err, auth, Code}
use dukan_pro.Domain.Identity.{login_locked}
use dukan_pro.Store.Queries.{select, first}
use dukan_pro.Store.Sums.{select-append}
use dukan_pro.Accounts.{Accounts, UserRow, AuditRow}
use dukan_pro.IamService.Employees.{username_of}
use dukan_pro.AuthService.{
  Server, AuthTokens, lock_window, entry_of, latest, counted_since, failed_after, sign_in_closed,
  locked, failed, authenticate_user, authenticate,
}

-- A password that someone tries, on a device at an instant.
pub record Attempt : Type 0 where
  pub now : ℤ
  pub password : String
  pub device_id : String

-- The password was compared, and was wrong.
abbrev pub is_guess : Result AuthTokens → ℕ
is_guess (err (auth Code.invalid_credentials)) = 1
is_guess _ = 0

-- How many of the attempts get as far as a comparison.
unfoldable pub guesses : Server → Accounts → String → List Attempt → ℕ
unfolding authenticate
guesses server s username [] = 0
guesses server s username (a ∷ attempts) =
    let answer = authenticate server s username a.password a.device_id a.now in
    is_guess answer.result + guesses server answer.after username attempts

-- An attempt after `start`, within the window of the lock, with a wrong password.
abbrev pub IsWrongWithin : Server → String → ℤ → Attempt → Type 0
IsWrongWithin server password_hash start a =
    (start <ℤ a.now)
    × (a.now ≤ℤ start +ℤ lock_window)
    × (server.verify_password password_hash a.password ≡ false)

-- A sign-in of the user, if the entry is one, was no later than `start`.
abbrev pub IsSignedInBy : String → ℤ → AuditRow → Type 0
IsSignedInBy user_id start a =
    entry_of "user.authenticated" user_id a ≡ true → a.occurred_at ≤ℤ start

abbrev failures : String → ℤ → List AuditRow → ℕ
failures user_id start audit = length (select (failed_after user_id start) audit)

max_le : (a b c : ℤ) → a ≤ℤ c → b ≤ℤ c → max_ℤ a b ≤ℤ c
max_le a b c h k = ground arith

latest-within :
    (user_id : String) (start : ℤ) (rows : List AuditRow) (t : ℤ)
    → All (IsSignedInBy user_id start) rows
    → latest (select (entry_of "user.authenticated" user_id) rows) ≡ some t
    → t ≤ℤ start
unfolding latest
latest-within user_id start [] t h e = cc
latest-within user_id start (a ∷ rows) t h e =
    elim (Bool-cases (entry_of "user.authenticated" user_id a)) [
      | inr other ↦ latest-within user_id start rows t h.1 (rw other at e)
      | inl mine ↦
          let at_row = h.0 mine in
          let e1 = rw mine at e in
          elim (Option-cases (latest (select (entry_of "user.authenticated" user_id) rows))) [
            | inl none_before ↦ subst (λ i. i ≤ℤ start) (some_inj.0 (rw none_before at e1)) at_row
            | inr (u, before) ↦
                let within = latest-within user_id start rows u h.1 before in
                let both : max_ℤ a.occurred_at u ≤ℤ start =
                  max_le a.occurred_at u start at_row within in
                subst (λ i. i ≤ℤ start) (some_inj.0 (rw before at e1)) both
          ]
    ]

counted_since-le :
    (s : Accounts) (user_id : String) (start now : ℤ)
    → now ≤ℤ start +ℤ lock_window
    → All (IsSignedInBy user_id start) s.audit
    → counted_since s user_id now ≤ℤ start
unfolding counted_since
counted_since-le s user_id start now h rows =
    let window : now -ℤ lock_window ≤ℤ start = omega (int_laws, h) in
    elim (Option-cases (latest (select (entry_of "user.authenticated" user_id) s.audit))) [
      | inl nobody ↦ rw nobody window
      | inr (t, last) ↦
          let within = latest-within user_id start s.audit t rows last in
          rw last (elim (Bool-cases (ltb_ℤ (now -ℤ lock_window) t)) [
            | inl e ↦ rw e within
            | inr e ↦ rw e window
          ])
    ]

earlier-counts :
    (user_id : String) (since start : ℤ) (rows : List AuditRow)
    → since ≤ℤ start
    → failures user_id start rows ≤ failures user_id since rows
earlier-counts user_id since start [] h = omega arith
earlier-counts user_id since start (a ∷ rows) h = elim (Bool-cases (failed_after user_id start a)) [
  | inl e ↦
      let e' : failed_after user_id since a ≡ true = ground arith in
      rw (e, e') (omega (arith, earlier-counts user_id since start rows h))
  | inr e ↦ elim (Bool-cases (failed_after user_id since a)) [
    | inl k ↦ rw (e, k) (omega (arith, earlier-counts user_id since start rows h))
    | inr k ↦ rw (e, k) (earlier-counts user_id since start rows h)
  ]
]

-- While the sign-in is open, fewer than five failures are on record.
open-few :
    (s : Accounts) (user_id : String) (start now : ℤ)
    → now ≤ℤ start +ℤ lock_window
    → All (IsSignedInBy user_id start) s.audit
    → sign_in_closed s user_id now ≡ false
    → failures user_id start s.audit < 5
unfolding sign_in_closed login_locked
open-few s user_id start now h rows is_open =
    let counted =
      earlier-counts user_id (counted_since s user_id now) start s.audit
        (counted_since-le s user_id start now h rows) in
    ground arith

after_start : (start now : ℤ) → start <ℤ now → ltb_ℤ start now ≡ true
after_start start now h = ground arith

All-append_one {ℓ κ} :
    {A : Type ℓ} (P : A → Type κ) (xs : List A) (x : A) → All P xs → P x → All P (xs ++ (x ∷ []))
All-append_one P [] x h k = (k, tt)
All-append_one P (y ∷ xs) x h k = (h.0, All-append_one P xs x h.1 k)

failures-append :
    (user_id : String) (start : ℤ) (rows : List AuditRow) (a : AuditRow)
    → failures user_id start (rows ++ (a ∷ []))
      ≡ failures user_id start rows + (if failed_after user_id start a then 1 else 0)
failures-append user_id start rows a =
    ap length (select-append (failed_after user_id start) rows (a ∷ []))
    ∙ length-append (select (failed_after user_id start) rows) _
    ∙ ap (λ n. failures user_id start rows + n) (one (failed_after user_id start a))
  where
    one : (b : Bool) → length (if b then a ∷ [] else []) ≡ (if b then 1 else 0)
    one true = refl
    one false = refl

plus_zero : (n : ℕ) → n + 0 ≡ n
plus_zero n = omega arith

module _ (server : Server) (username : String) (m : UserRow) (start : ℤ) where
  -- The failures on record and the guesses to come are at most five, or there are none to come.
  abbrev FewLeft : Accounts → List Attempt → Type 0
  FewLeft s attempts =
      (failures m.id start s.audit + guesses server s username attempts ≤ 5)
      ⊎ (guesses server s username attempts ≡ 0)

  after-locked :
      (s : Accounts) (now : ℤ)
      → failures m.id start (locked s m.id now).after.audit ≡ failures m.id start s.audit
  after-locked s now =
      failures-append m.id start s.audit _ ∙ plus_zero (failures m.id start s.audit)

  after-failed :
      (s : Accounts) (now : ℤ)
      → start <ℤ now
      → failures m.id start (failed s (some m.id) now).after.audit ≡ failures m.id start s.audit + 1
  after-failed s now h =
      failures-append m.id start s.audit _
      ∙ ap (λ (b : Bool). failures m.id start s.audit + (if b then 1 else 0))
          (and_true (eq_refl m.id) (after_start start now h))

  authenticate-locked :
      (s : Accounts) (a : Attempt)
      → first (username_of username) s.users ≡ some m
      → sign_in_closed s m.id a.now ≡ true
      → authenticate server s username a.password a.device_id a.now ≡ locked s m.id a.now
  unfolding authenticate authenticate_user
  authenticate-locked s a user closed = rw (authenticate, user, closed) refl

  authenticate-failed :
      (s : Accounts) (a : Attempt)
      → first (username_of username) s.users ≡ some m
      → sign_in_closed s m.id a.now ≡ false
      → server.verify_password m.password_hash a.password ≡ false
      → authenticate server s username a.password a.device_id a.now ≡ failed s (some m.id) a.now
  unfolding authenticate authenticate_user
  authenticate-failed s a user is_open wrong = rw (authenticate, user, is_open, wrong) refl

  few-left :
      (attempts : List Attempt) (s : Accounts)
      → first (username_of username) s.users ≡ some m
      → All (IsSignedInBy m.id start) s.audit
      → All (IsWrongWithin server m.password_hash start) attempts
      → FewLeft s attempts
  unfolding guesses
  few-left [] s user rows wrong = inr refl
  few-left (a ∷ attempts) s user rows wrong =
      let (later, within, mismatch) = wrong.0 in
      elim (Bool-cases (sign_in_closed s m.id a.now)) [
        | inl closed ↦
            let next = (locked s m.id a.now).after in
            let rows' = All-append_one (IsSignedInBy m.id start) s.audit _ rows (λ e. cc) in
            rw (authenticate-locked s a user closed)
              (elim (few-left attempts next user rows' wrong.1) [
                | inl few ↦ inl (omega (arith, few, after-locked s a.now))
                | inr over ↦ inr (omega (arith, over))
              ])
        | inr is_open ↦
            let next = (failed s (some m.id) a.now).after in
            let rows' = All-append_one (IsSignedInBy m.id start) s.audit _ rows (λ e. cc) in
            let few_before = open-few s m.id start a.now within rows is_open in
            rw (authenticate-failed s a user is_open mismatch)
              (elim (few-left attempts next user rows' wrong.1) [
                | inl few ↦ inl (omega (arith, few, after-failed s a.now later))
                | inr over ↦ inl (omega (arith, over, few_before))
              ])
      ]

  -- However many wrong passwords someone tries for a user within a quarter of an hour, and on whatever
  -- devices, at most five are compared with the user's: unless the user signs in between.
  pub guesses-at_most :
      (s : Accounts) (attempts : List Attempt)
      → first (username_of username) s.users ≡ some m
      → All (IsSignedInBy m.id start) s.audit
      → All (IsWrongWithin server m.password_hash start) attempts
      → guesses server s username attempts ≤ 5
  guesses-at_most s attempts user rows wrong = elim (few-left attempts s user rows wrong) [
    | inl few ↦ omega (arith, few)
    | inr over ↦ omega (arith, over)
  ]
