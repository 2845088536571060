-- ===== src/Store/Sums.antt =====
-- Sums and selections of a table that grows or is updated.
use dukan_pro.Prelude.{
  String, ◌≡◌, refl, sym, inl, inr, Bool, true, false, none, some, List, [], ◌∷◌, ◌++◌, map, arith,
  All, Bool-cases, if◌then◌else◌,
}
use mathlib.Core.Option.{some_inj}
use dukan_pro.Prelude.Int.{ℤ, pos, ◌+ℤ◌, +ℤ_assoc, zero-+ℤ}
use dukan_pro.Domain.Customers.{signed, signed_amount, ledger_balance}
use dukan_pro.Store.{Store, LedgerRow}
use dukan_pro.Store.Queries.{
  select, first, sum_where, update_where, entry_of, of_customer, customer_balance,
}

module _ {ℓ} {A : Type ℓ} where
  pub sum_where-append :
      (p : A → Bool) (f : A → ℤ) (xs ys : List A)
      → sum_where p f (xs ++ ys) ≡ sum_where p f xs +ℤ sum_where p f ys
  sum_where-append p f [] ys = sym (zero-+ℤ (sum_where p f ys))
  sum_where-append p f (x ∷ xs) ys = elim (Bool-cases (p x)) [
    | inl h ↦ rw (h, sum_where-append p f xs ys) (sym (+ℤ_assoc (f x) _ _))
    | inr h ↦ rw (h, sum_where-append p f xs ys) (sym (+ℤ_assoc (pos 0) _ _))
  ]

  pub select-append :
      (p : A → Bool) (xs ys : List A) → select p (xs ++ ys) ≡ select p xs ++ select p ys
  select-append p [] ys = refl
  select-append p (x ∷ xs) ys = elim (Bool-cases (p x)) [
    | inl h ↦ rw (h, select-append p xs ys) refl
    | inr h ↦ rw (h, select-append p xs ys) refl
  ]

  pub sum_where-none :
      (p : A → Bool) (f : A → ℤ) (xs : List A)
      → All (λ x. p x ≡ false) xs
      → sum_where p f xs ≡ pos 0
  sum_where-none p f [] h = refl
  sum_where-none p f (x ∷ xs) h = rw (h.0, sum_where-none p f xs h.1) (zero-+ℤ (pos 0))

  pub sum_where-congr :
      (p q : A → Bool) (f : A → ℤ) (xs : List A)
      → All (λ x. p x ≡ q x) xs
      → sum_where p f xs ≡ sum_where q f xs
  sum_where-congr p q f [] h = refl
  sum_where-congr p q f (x ∷ xs) h = rw (h.0, sum_where-congr p q f xs h.1) refl

  kept :
      (p q : A → Bool) (f : A → A)
      → ((y : A) → p (f y) ≡ p y)
      → (y : A) → p (if q y then f y else y) ≡ p y
  kept p q f keep y = elim (Bool-cases (q y)) [ inl e ↦ rw e (keep y) | inr e ↦ rw e refl ]

  pub first-append_some :
      (p : A → Bool) (xs ys : List A) (x : A) → first p xs ≡ some x → first p (xs ++ ys) ≡ some x
  first-append_some p [] ys x h = cc
  first-append_some p (y ∷ xs) ys x h = elim (Bool-cases (p y)) [
    | inl e ↦ rw e (rw e at h)
    | inr e ↦ rw e (first-append_some p xs ys x (rw e at h))
  ]

  pub first-append_none :
      (p : A → Bool) (xs ys : List A) → first p xs ≡ none → first p (xs ++ ys) ≡ first p ys
  first-append_none p [] ys h = refl
  first-append_none p (y ∷ xs) ys h = elim (Bool-cases (p y)) [
    | inl e ↦ (let f = rw e at h in cc)
    | inr e ↦ rw e (first-append_none p xs ys (rw e at h))
  ]

  pub first_sound : (p : A → Bool) (xs : List A) (x : A) → first p xs ≡ some x → p x ≡ true
  first_sound p [] x h = cc
  first_sound p (y ∷ xs) x h = elim (Bool-cases (p y)) [
    | inl e ↦ (let f = rw e at h in ground (arith, f, e))
    | inr e ↦ first_sound p xs x (rw e at h)
  ]

  pub first-none : (p : A → Bool) (xs : List A) → first p xs ≡ none → All (λ x. p x ≡ false) xs
  first-none p [] h = tt
  first-none p (y ∷ xs) h = elim (Bool-cases (p y)) [
    | inl e ↦ (let f = rw e at h in cc)
    | inr e ↦ (e, first-none p xs (rw e at h))
  ]

  -- An update that keeps what the search reads.
  pub first-update_where :
      (p q : A → Bool) (f : A → A) (xs : List A) (x : A)
      → ((y : A) → p (f y) ≡ p y)
      → first p xs ≡ some x
      → first p (update_where q f xs) ≡ some (if q x then f x else x)
  first-update_where p q f [] x keep h = cc
  first-update_where p q f (y ∷ xs) x keep h = elim (Bool-cases (p y)) [
    | inl e ↦ let same : y ≡ x = some_inj.0 (rw e at h) in rw (kept p q f keep y, e, same) refl
    | inr e ↦ rw (kept p q f keep y, e) (first-update_where p q f xs x keep (rw e at h))
  ]

  pub first-update_where-none :
      (p q : A → Bool) (f : A → A) (xs : List A)
      → ((y : A) → p (f y) ≡ p y)
      → first p xs ≡ none
      → first p (update_where q f xs) ≡ none
  first-update_where-none p q f [] keep h = refl
  first-update_where-none p q f (y ∷ xs) keep h = elim (Bool-cases (p y)) [
    | inl e ↦ (let g = rw e at h in cc)
    | inr e ↦ rw (kept p q f keep y, e) (first-update_where-none p q f xs keep (rw e at h))
  ]

-- The balance, as the sum of the rows of the customer.
abbrev pub row_amount : LedgerRow → ℤ
row_amount r = signed_amount r.type r.amount_minor

balance-select :
    (customer_id : String) (rows : List LedgerRow)
    → ledger_balance (map entry_of (select (of_customer customer_id) rows))
      ≡ sum_where (of_customer customer_id) row_amount rows
unfolding ledger_balance signed
balance-select customer_id [] = refl
balance-select customer_id (r ∷ rows) = elim (Bool-cases (of_customer customer_id r)) [
  | inl h ↦ rw (h, balance-select customer_id rows) refl
  | inr h ↦ rw (h, balance-select customer_id rows) (sym (zero-+ℤ _))
]

pub customer_balance-sum :
    (s : Store) (customer_id : String)
    → customer_balance s customer_id ≡ sum_where (of_customer customer_id) row_amount s.ledger
unfolding customer_balance
customer_balance-sum s customer_id = balance-select customer_id s.ledger
