-- ===== src/Accounts/Updates.antt =====
-- The update of the one row that a query found.
use dukan_pro.Prelude.{
  String, ◌≡◌, refl, inl, inr, Bool, true, some, List, [], ◌∷◌, any, all, or_cases, Bool-cases,
  if◌then◌else◌,
}
use dukan_pro.Store.Queries.{select, first}
use dukan_pro.Accounts.{UserRow}
use dukan_pro.Accounts.Queries.{live_user, is_active_status, is_active_row}

module _ {ℓ} {A : Type ℓ} where
  -- The row that `first` finds, changed.
  abbrev pub update_first : (A → Bool) → (A → A) → List A → List A
  update_first p f [] = []
  update_first p f (x ∷ xs) = let rest = x ∷ update_first p f xs in if p x then f x ∷ xs else rest

  -- What some row meets, some row meets after the update, if the row found goes on to meet it.
  pub any-update_first :
      (p q : A → Bool) (f : A → A) (xs : List A)
      → ((x : A) → first p xs ≡ some x → q x ≡ true → q (f x) ≡ true)
      → any q xs ≡ true
      → any q (update_first p f xs) ≡ true
  any-update_first p q f [] keep h = h
  any-update_first p q f (x ∷ xs) keep h = elim (Bool-cases (p x)) [
    | inl found ↦ rw found (elim (or_cases (q x) (any q xs) h) [
      | inl here ↦ rw (keep x (rw found refl) here) refl
      | inr there ↦ elim (Bool-cases (q (f x))) [ inl e ↦ rw e refl | inr e ↦ rw (e, there) refl ]
    ])
    | inr other ↦ rw other (elim (or_cases (q x) (any q xs) h) [
      | inl here ↦ rw here refl
      | inr there ↦
          let rest = any-update_first p q f xs (λ y e. keep y (rw other e)) there in
          elim (Bool-cases (q x)) [ inl e ↦ rw e refl | inr e ↦ rw (e, rest) refl ]
    ])
  ]

  -- An update that keeps what a selection and a test of its rows read.
  pub all-select-update_first :
      (p q r : A → Bool) (f : A → A) (xs : List A)
      → ((x : A) → q (f x) ≡ q x)
      → ((x : A) → r (f x) ≡ r x)
      → all r (select q (update_first p f xs)) ≡ all r (select q xs)
  all-select-update_first p q r f [] keep same = refl
  all-select-update_first p q r f (x ∷ xs) keep same = elim (Bool-cases (p x)) [
    | inl found ↦
        rw (found, keep x)
          (elim (Bool-cases (q x)) [ inl e ↦ rw (e, same x) refl | inr e ↦ rw e refl ])
    | inr other ↦ rw other (elim (Bool-cases (q x)) [
      | inl e ↦ rw (e, all-select-update_first p q r f xs keep same) refl
      | inr e ↦ rw (e, all-select-update_first p q r f xs keep same) refl
    ])
  ]

-- An active user stays one, if the update of a row keeps the row's user and status.
pub active-update_first :
    (w : String) (p : UserRow → Bool) (f : UserRow → UserRow) (users : List UserRow)
    → ((x : UserRow) → live_user w (f x) ≡ live_user w x)
    → ((x : UserRow)
        → p x ≡ true
        → live_user w x ≡ true
        → is_active_status x.status ≡ true
        → is_active_status (f x).status ≡ true)
    → is_active_row (first (live_user w) users) ≡ true
    → is_active_row (first (live_user w) (update_first p f users)) ≡ true
active-update_first w p f [] same keep h = h
active-update_first w p f (x ∷ users) same keep h = elim (Bool-cases (p x)) [
  | inl found ↦
      rw (found, same x)
        (elim (Bool-cases (live_user w x)) [
          | inl own ↦ rw own (keep x found own (rw own at h))
          | inr e ↦ rw e (rw e at h)
        ])
  | inr other ↦ rw other (elim (Bool-cases (live_user w x)) [
    | inl own ↦ rw own (rw own at h)
    | inr e ↦ rw e (active-update_first w p f users same keep (rw e at h))
  ])
]
