-- ===== src/SalesService/Voids/Debt.antt =====
-- The debt that a void takes back.
use dukan_pro.Prelude.{
  ℕ, suc, String, ◌≡◌, refl, ap, sym, ◌∙◌, inl, inr, Bool, true, false, ◌&&◌, List, [], ◌∷◌, arith,
  any, All, Bool-cases, if◌then◌else◌,
}
use dukan_pro.Prelude.Int.{
  ℤ, pos, ◌+ℤ◌, ◌-ℤ◌, negate, ◌≤ℤ◌, eqb_ℤ, eqb_ℤ→eq, min_ℤ, max_ℤ, min_ℤ-left, min_ℤ-right,
  max_ℤ-left, max_ℤ-right, ≤ℤ_total, int_laws, zero-+ℤ,
}
use dukan_pro.Prelude.Text.{str_eq, str_eq→eq}
use dukan_pro.Prelude.Dict.{Dict, lookup, insert, lookup-insert}
use dukan_pro.Domain.Customers.{signed_amount}
use dukan_pro.Store.{Store, LedgerRow}
use dukan_pro.Store.Queries.{sum_where, of_customer, value_or_zero, get_or_zero, customer_balance}
use dukan_pro.Store.Sums.{row_amount}
use dukan_pro.SalesService.Voids.{balances, back_of, undo_row, undo_rows}

abbrev pub owes : String → LedgerRow → Bool
owes k r = str_eq r.customer_id k

-- What the sale charged a customer.
abbrev pub charged_to : String → List LedgerRow → ℤ
charged_to k charges = sum_where (owes k) (λ (r : LedgerRow). r.amount_minor) charges

abbrev pub NotNegative : LedgerRow → Type 0
NotNegative r = pos 0 ≤ℤ r.amount_minor

pub get_or_zero-insert :
    (k j : String) (v : ℤ) (d : Dict ℤ)
    → get_or_zero j (insert k v d) ≡ (if str_eq k j then v else get_or_zero j d)
get_or_zero-insert k j v d =
    ap value_or_zero (lookup-insert k j v d)
    ∙ (elim (Bool-cases (str_eq k j)) [ inl h ↦ rw h refl | inr h ↦ rw h refl ])

charged_to-nonneg :
    (k : String) (charges : List LedgerRow)
    → All NotNegative charges
    → pos 0 ≤ℤ charged_to k charges
charged_to-nonneg k [] h = omega arith
charged_to-nonneg k (c ∷ cs) h = elim (Bool-cases (owes k c)) [
  | inl own ↦ rw own (omega (int_laws, h.0, charged_to-nonneg k cs h.1))
  | inr other ↦ rw other (omega (int_laws, charged_to-nonneg k cs h.1))
]

-- One charge after another takes back what they do together.
take_back :
    (amount rest owed : ℤ)
    → pos 0 ≤ℤ amount
    → pos 0 ≤ℤ rest
    → negate (min_ℤ amount (max_ℤ owed (pos 0)))
        +ℤ negate (min_ℤ rest (max_ℤ (owed -ℤ min_ℤ amount (max_ℤ owed (pos 0))) (pos 0)))
      ≡ negate (min_ℤ (amount +ℤ rest) (max_ℤ owed (pos 0)))
take_back amount rest owed h k = elim (≤ℤ_total owed (pos 0)) [
  | inl none_owed ↦
      rw
        (
          max_ℤ-right owed (pos 0) none_owed,
          min_ℤ-right amount (pos 0) h,
          max_ℤ-right (owed -ℤ pos 0) (pos 0) (omega (int_laws, none_owed)),
          min_ℤ-right rest (pos 0) k,
          min_ℤ-right (amount +ℤ rest) (pos 0) (omega (int_laws, h, k)),
        )
        (omega int_laws)
  | inr some_owed ↦ rw (max_ℤ-left owed (pos 0) some_owed) (elim (≤ℤ_total amount owed) [
    | inl all_back ↦
        rw
          (
            min_ℤ-left amount owed all_back,
            max_ℤ-left (owed -ℤ amount) (pos 0) (omega (int_laws, all_back)),
          )
          (elim (≤ℤ_total rest (owed -ℤ amount)) [
            | inl e ↦
                rw
                  (
                    min_ℤ-left rest (owed -ℤ amount) e,
                    min_ℤ-left (amount +ℤ rest) owed (omega (int_laws, e)),
                  )
                  (omega int_laws)
            | inr e ↦
                rw
                  (
                    min_ℤ-right rest (owed -ℤ amount) e,
                    min_ℤ-right (amount +ℤ rest) owed (omega (int_laws, e)),
                  )
                  (omega int_laws)
          ])
    | inr part_back ↦
        rw
          (
            min_ℤ-right amount owed part_back,
            max_ℤ-right (owed -ℤ owed) (pos 0) (omega int_laws),
            min_ℤ-right rest (pos 0) k,
            min_ℤ-right (amount +ℤ rest) owed (omega (int_laws, part_back, k)),
          )
          (omega int_laws)
  ])
]

undo_amount :
    (new_id : ℕ → String) (n : ℕ) (sale_id : String) (c : LedgerRow) (back : ℤ)
    → row_amount (undo_row new_id n sale_id c back) ≡ negate back
unfolding signed_amount
undo_amount new_id n sale_id c back = refl

nothing_back : (owed : ℤ) → pos 0 ≡ negate (min_ℤ (pos 0) (max_ℤ owed (pos 0)))
nothing_back owed = elim (≤ℤ_total owed (pos 0)) [
  | inl h ↦
      rw (max_ℤ-right owed (pos 0) h, min_ℤ-right (pos 0) (pos 0) (omega arith)) (omega int_laws)
  | inr h ↦ rw (max_ℤ-left owed (pos 0) h, min_ℤ-left (pos 0) owed h) (omega int_laws)
]

nothing_added :
    (own : Bool) (back rest : ℤ)
    → back ≡ pos 0
    → (if own && true then negate back else pos 0) +ℤ rest ≡ rest
nothing_added true back rest e = rw e (omega int_laws)
nothing_added false back rest e = zero-+ℤ rest

-- A turn of the loop, for the customer of the charge or another one.
undo-step :
    (own : Bool) (amount rest owed owed' : ℤ)
    → pos 0 ≤ℤ amount
    → pos 0 ≤ℤ rest
    → (let back = min_ℤ amount (max_ℤ owed' (pos 0)) in
        (own ≡ true → owed' ≡ owed)
        → (if own && true then negate back else pos 0)
            +ℤ negate (min_ℤ rest (max_ℤ (if own then owed' -ℤ back else owed) (pos 0)))
          ≡ negate (min_ℤ ((if own then amount else pos 0) +ℤ rest) (max_ℤ owed (pos 0))))
undo-step true amount rest owed owed' h k same = rw (same refl) (take_back amount rest owed h k)
undo-step false amount rest owed owed' h k same = rw (zero-+ℤ rest) (zero-+ℤ _)

-- What the loop adds to a customer's balance: as much of what the sale charged as is still owed.
pub undo_rows-sum :
    (new_id : ℕ → String) (sale_id k : String) (charges : List LedgerRow) (n : ℕ) (owed : Dict ℤ)
    → All NotNegative charges
    → sum_where (of_customer k) row_amount (undo_rows new_id n sale_id owed charges)
      ≡ negate (min_ℤ (charged_to k charges) (max_ℤ (get_or_zero k owed) (pos 0)))
unfolding undo_rows
undo_rows-sum new_id sale_id k [] n owed h = nothing_back (get_or_zero k owed)
undo_rows-sum new_id sale_id k (c ∷ cs) n owed h =
    let back = back_of new_id owed c in
    let left = insert c.customer_id (get_or_zero c.customer_id owed -ℤ back) owed in
    let ih = λ (m : ℕ). undo_rows-sum new_id sale_id k cs m left h.1 in
    let step =
      undo-step (owes k c) c.amount_minor (charged_to k cs) (get_or_zero k owed)
        (get_or_zero c.customer_id owed) h.0 (charged_to-nonneg k cs h.1)
        (λ own. ap (λ j. get_or_zero j owed) (str_eq→eq c.customer_id k own)) in
    let insertion =
      get_or_zero-insert c.customer_id k (get_or_zero c.customer_id owed -ℤ back) owed in
    elim (Bool-cases (eqb_ℤ back (pos 0))) [
      | inl none_back ↦
          rw (none_back, ih n, insertion)
            (sym (nothing_added (owes k c) back _ (eqb_ℤ→eq back (pos 0) none_back)) ∙ step)
      | inr some_back ↦
          rw (some_back, ih (suc n), insertion, undo_amount new_id n sale_id c back) step
    ]

-- `owed`, for a customer whom the sale charged and for any other.
balances-of :
    (s : Store) (charges : List LedgerRow) (k : String)
    → get_or_zero k (balances s charges)
      ≡ (if any (owes k) charges then customer_balance s k else pos 0)
unfolding balances lookup
balances-of s [] k = refl
balances-of s (c ∷ cs) k =
    get_or_zero-insert c.customer_id k (customer_balance s c.customer_id) (balances s cs)
    ∙ (elim (Bool-cases (str_eq c.customer_id k)) [
      | inl own ↦ rw own (ap (customer_balance s) (str_eq→eq c.customer_id k own))
      | inr other ↦ rw other (balances-of s cs k)
    ])

not_charged :
    (k : String) (charges : List LedgerRow)
    → any (owes k) charges ≡ false
    → charged_to k charges ≡ pos 0
not_charged k [] h = refl
not_charged k (c ∷ cs) h = elim (Bool-cases (owes k c)) [
  | inl own ↦ (let f = rw own at h in cc)
  | inr other ↦ rw other (zero-+ℤ (charged_to k cs) ∙ not_charged k cs (rw other at h))
]

-- Together the new rows take back as much of what the sale charged as the customer still owes.
pub undone :
    (new_id : ℕ → String) (sale_id k : String) (n : ℕ) (s : Store) (charges : List LedgerRow)
    → All NotNegative charges
    → sum_where (of_customer k) row_amount (undo_rows new_id n sale_id (balances s charges) charges)
      ≡ negate (min_ℤ (charged_to k charges) (max_ℤ (customer_balance s k) (pos 0)))
undone new_id sale_id k n s charges h =
    undo_rows-sum new_id sale_id k charges n (balances s charges) h
    ∙ (elim (Bool-cases (any (owes k) charges)) [
      | inl some_charge ↦ rw (balances-of s charges k, some_charge) refl
      | inr no_charge ↦ rw (not_charged k charges no_charge) (
          sym (nothing_back (get_or_zero k (balances s charges)))
          ∙ nothing_back (customer_balance s k))
    ])
