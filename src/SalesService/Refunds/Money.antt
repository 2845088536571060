-- ===== src/SalesService/Refunds/Money.antt =====
-- What a return pays back, and what it takes off the customer's debt.
use dukan_pro.Prelude.{
  ℕ, String, ◌≡◌, refl, ap, sym, ◌∙◌, inl, inr, Bool, true, false, not, ◌&&◌, ◌||◌, Option, none,
  some, is_some, List, [], ◌∷◌, ◌++◌, arith, all, Bool-cases, if◌then◌else◌, Option-cases,
}
use mathlib.Core.Option.{some_inj, some-ne-none}
use mathlib.Core.Path.{subst}
use dukan_pro.Prelude.Int.{
  ℤ, pos, ◌+ℤ◌, ◌-ℤ◌, negate, ◌≤ℤ◌, ltb_ℤ, eqb_ℤ, min_ℤ, max_ℤ, max_ℤ-right, int_laws, +ℤ_assoc,
}
use dukan_pro.Prelude.Text.{str_eq, str_eq→eq, eq_refl, is_text}
use dukan_pro.Prelude.Dict.{Dict}
use dukan_pro.Errors.{ok}
use dukan_pro.Domain.Identity.{User}
use dukan_pro.Domain.Customers.{signed_amount}
use dukan_pro.Store.{Store, Sale, LineRow}
use dukan_pro.Store.Queries.{
  select, first, sum_where, sale_with, of_customer, customer_balance, get_or_zero,
}
use dukan_pro.Store.Sums.{select-append, sum_where-append, customer_balance-sum, row_amount}
use dukan_pro.SalesService.Refunds.{
  RefundLineInput, tally_wanted, sum_totals, refund_row, ledger_sum, charged_by, taken_back_by,
  total_of, debt_back_of, gross, Refund, refund_sale_row, refund_undo, post_refund, refund_sale,
}
use dukan_pro.SalesService.Refunds.Passed.{earlier_of, returnable_of, Returns, refund_sale-Returns}

-- What is left of a sale's total after all its returns.
abbrev pub net : Store → Sale → ℤ
net s sale = sale.total_minor +ℤ sum_totals (earlier_of s sale)

total_of-le :
    (sale : Sale) (earlier : List Sale) (returnable wanted : Dict ℤ) (amount : ℤ)
    → total_of sale earlier returnable wanted amount ≤ℤ sale.total_minor +ℤ sum_totals earlier
unfolding total_of
total_of-le sale earlier returnable wanted amount =
    elim (Bool-cases (all (λ (e : String × ℤ). eqb_ℤ e.1 (get_or_zero e.0 wanted)) returnable)) [
      | inl last ↦ rw last (ground arith)
      | inr part ↦ rw part (ground arith)
    ]

sum_totals-append :
    (xs : List Sale) (x : Sale) → sum_totals (xs ++ (x ∷ [])) ≡ sum_totals xs +ℤ x.total_minor
unfolding sum_totals
sum_totals-append [] x = omega int_laws
sum_totals-append (y ∷ xs) x =
    rw (sum_totals-append xs x) (sym (+ℤ_assoc y.total_minor (sum_totals xs) x.total_minor))

select-append_one :
    (sale_id : String) (xs : List Sale) (x : Sale)
    → refund_row sale_id x ≡ true
    → select (refund_row sale_id) (xs ++ (x ∷ [])) ≡ select (refund_row sale_id) xs ++ (x ∷ [])
select-append_one sale_id xs x h = select-append (refund_row sale_id) xs (x ∷ []) ∙ (rw h refl)

debt_bounds :
    (charged : Bool) (room total owed : ℤ)
    → (let debt = if charged then max_ℤ (pos 0) (min_ℤ total (min_ℤ room owed)) else pos 0 in
        (pos 0 ≤ℤ debt) × (debt ≤ℤ max_ℤ (pos 0) total) × (debt ≤ℤ max_ℤ (pos 0) owed))
debt_bounds charged room total owed = (ground arith, ground arith, ground arith)

-- The debt that a return takes off: at most its amount, and at most what is owed.
abbrev DebtBounds : Store → Option String → ℤ → ℤ → Type 0
DebtBounds s customer_id total debt =
    (pos 0 ≤ℤ debt)
    × (debt ≤ℤ max_ℤ (pos 0) total)
    × (customer_id ≡ none → debt ≡ pos 0)
    × ((k : String) → customer_id ≡ some k → debt ≤ℤ max_ℤ (pos 0) (customer_balance s k))

debt_back_of-DebtBounds :
    (s : Store) (sale : Sale) (earlier : List Sale) (total : ℤ)
    → DebtBounds s sale.customer_id total (debt_back_of s sale earlier total)
unfolding debt_back_of
debt_back_of-DebtBounds s sale earlier total = elim (Option-cases sale.customer_id) [
  | inl nobody ↦ rw nobody (omega arith, ground arith, λ e. refl, λ k e. cc)
  | inr (c, e) ↦
      let charged = ledger_sum (charged_by sale.id) s in
      let taken_back = negate (ledger_sum (taken_back_by earlier) s) in
      let (nonneg, le_total, le_owed) =
        debt_bounds (ltb_ℤ taken_back charged) (charged -ℤ taken_back) total
          (customer_balance s c) in
      let debt =
        if ltb_ℤ taken_back charged
        then max_ℤ (pos 0) (min_ℤ total (min_ℤ (charged -ℤ taken_back) (customer_balance s c)))
        else pos 0 in
      rw e (
        nonneg,
        le_total,
        λ nobody. absurd (some-ne-none c nobody),
        λ k own. subst (λ j. debt ≤ℤ max_ℤ (pos 0) (customer_balance s j)) (some_inj.0 own) le_owed,
      )
]

one_undo :
    (own : Bool) (debt : ℤ)
    → (if own && true then negate debt else pos 0) +ℤ pos 0 ≡ negate (if own then debt else pos 0)
one_undo true debt = omega int_laws
one_undo false debt = omega int_laws

no_undo : (own : Bool) (debt : ℤ) → debt ≡ pos 0 → pos 0 ≡ negate (if own then debt else pos 0)
no_undo true debt h = rw h (omega int_laws)
no_undo false debt h = omega int_laws

no_debt : (debt : ℤ) → pos 0 ≤ℤ debt → ltb_ℤ (pos 0) debt ≡ false → debt ≡ pos 0
no_debt debt h e = ground arith

-- What the new row adds to a customer's balance.
refund_undo-sum :
    (new_id : ℕ → String) (n : ℕ) (refund_id : String) (sale : Sale) (debt : ℤ) (k : String)
    → pos 0 ≤ℤ debt
    → sum_where (of_customer k) row_amount (refund_undo new_id n refund_id sale debt)
      ≡ negate (if is_text sale.customer_id k then debt else pos 0)
unfolding signed_amount
refund_undo-sum new_id n refund_id sale debt k h = elim (Option-cases sale.customer_id) [
  | inl nobody ↦ rw nobody (omega int_laws)
  | inr (c, e) ↦ rw e (elim (Bool-cases (ltb_ℤ (pos 0) debt)) [
    | inl some_debt ↦ rw some_debt (one_undo (str_eq c k) debt)
    | inr none_left ↦ rw none_left (no_undo (str_eq c k) debt (no_debt debt h none_left))
  ])
]

plus_negated : (a b : ℤ) → a +ℤ negate b ≡ a -ℤ b
plus_negated a b = omega int_laws

balance-post :
    (new_id number : ℕ → String) (s : Store) (r : Refund) (lines : List LineRow) (k : String)
    → pos 0 ≤ℤ r.debt_back
    → customer_balance (post_refund new_id number s r lines) k
      ≡ customer_balance s k -ℤ (if is_text r.sale.customer_id k then r.debt_back else pos 0)
unfolding post_refund
balance-post new_id number s r lines k h =
    customer_balance-sum (post_refund new_id number s r lines) k
    ∙ sum_where-append (of_customer k) row_amount s.ledger _
    ∙ (rw (refund_undo-sum new_id _ _ r.sale r.debt_back k h, ← customer_balance-sum s k)
        (plus_negated (customer_balance s k) _))

net-post :
    (new_id number : ℕ → String) (s : Store) (r : Refund) (lines : List LineRow)
    → net (post_refund new_id number s r lines) r.sale ≡ net s r.sale -ℤ r.total
unfolding post_refund
net-post new_id number s r lines =
    rw
      (
        select-append_one r.sale.id s.sales (refund_sale_row new_id number s r)
            (rw (eq_refl r.sale.id) refl),
        sum_totals-append (earlier_of s r.sale) (refund_sale_row new_id number s r),
      )
      (sym (+ℤ_assoc r.sale.total_minor (sum_totals (earlier_of s r.sale)) (negate r.total))
        ∙ plus_negated (net s r.sale) r.total)

not_below :
    (balance debt : ℤ) → debt ≤ℤ max_ℤ (pos 0) balance → pos 0 ≤ℤ balance → pos 0 ≤ℤ balance -ℤ debt
not_below balance debt h e =
    let le : debt ≤ℤ balance = (rw (max_ℤ-right (pos 0) balance e) at h) in omega (int_laws, le)

still_not_below :
    (s : Store) (customer_id : Option String) (total debt : ℤ) (k : String)
    → DebtBounds s customer_id total debt
    → pos 0 ≤ℤ customer_balance s k
    → pos 0 ≤ℤ customer_balance s k -ℤ (if is_text customer_id k then debt else pos 0)
still_not_below s none total debt k h e = omega (int_laws, e)
still_not_below s (some c) total debt k h e = elim (Bool-cases (str_eq c k)) [
  | inl own ↦ rw own (not_below (customer_balance s k) debt (h.3 k (ap some (str_eq→eq c k own))) e)
  | inr other ↦ rw other (omega (int_laws, e))
]

taken_off : (total debt : ℤ) → negate (total -ℤ debt) -ℤ negate total ≡ debt
taken_off total debt = omega int_laws

within_left : (left total : ℤ) → total ≤ℤ left → pos 0 ≤ℤ left -ℤ total
within_left left total h = omega (int_laws, h)

nothing_left : (left total : ℤ) → total ≡ left → left -ℤ total ≡ pos 0
nothing_left left total h = rw h (omega int_laws)

-- The return wants all that is left of every product.
abbrev pub wants_rest : Store → Sale → List RefundLineInput → Bool
wants_rest s sale items =
    all (λ (e : String × ℤ). eqb_ℤ e.1 (get_or_zero e.0 (tally_wanted [] items)))
      (returnable_of s sale)

-- A return is stored beside the settled sale that it is of.
pub record Returned (s after : Store) (sale_id : String) (sale refund : Sale) : Type 0 where
  pub stored : first (sale_with sale_id) s.sales ≡ some sale
  pub settled : (not (str_eq sale.status "settled") || is_some sale.refund_of) ≡ false
  pub added : after.sales ≡ s.sales ++ (refund ∷ [])
  pub of_sale : refund.refund_of ≡ some sale.id

module _ (new_id number : ℕ → String) (s after : Store) (actor : User) (sale_id : String)
    (items : List RefundLineInput) (reason method : String) (shift_id : Option String) where
  rest-total :
      (r : Refund)
      → Returns s sale_id reason items r
      → wants_rest s r.sale items ≡ true
      → r.total ≡ net s r.sale
  unfolding total_of
  rest-total r p h = p.amount ∙ (rw (p.wants, h) refl)

  -- Returns of a sale never give back more than its total, and exactly its total once everything is
  -- returned. The part of a return that is not paid back comes off the balance of the sale's
  -- customer and of nobody else, and no balance falls below zero.
  pub refund_sale-net :
      refund_sale new_id number s actor sale_id items reason method shift_id ≡ ok after
      → (sale refund : Sale) × Returned s after sale_id sale refund
        × (pos 0 ≤ℤ net after sale)
        × (wants_rest s sale items ≡ true → net after sale ≡ pos 0)
        × ((k : String)
            → (customer_balance after k
                ≡ customer_balance s k
                  -ℤ (if is_text sale.customer_id k
                      then refund.paid_minor -ℤ refund.total_minor
                      else pos 0))
              × (pos 0 ≤ℤ customer_balance s k → pos 0 ≤ℤ customer_balance after k))
  unfolding post_refund
  refund_sale-net h =
      let (r, lines, p, e) =
        refund_sale-Returns new_id number s after actor sale_id items reason method shift_id h in
      let le : r.total ≤ℤ net s r.sale =
        (rw (p.amount)
          (total_of-le r.sale (earlier_of s r.sale) (returnable_of s r.sale) r.wanted (gross r))) in
      let debt : DebtBounds s r.sale.customer_id r.total r.debt_back =
        (rw (p.debt) (debt_back_of-DebtBounds s r.sale (earlier_of s r.sale) r.total)) in
      let left = net-post new_id number s r lines in
      let balance = λ (k : String). balance-post new_id number s r lines k debt.0 in
      (
        r.sale,
        refund_sale_row new_id number s r,
        record { stored = p.stored; settled = p.settled; added = rw (← e) refl; of_sale = refl },
        rw (← e, left) (within_left (net s r.sale) r.total le),
        λ rest. rw (← e, left) (nothing_left (net s r.sale) r.total (rest-total r p rest)),
        λ k. (
          rw (← e, taken_off r.total r.debt_back) (balance k),
          λ owed.
              rw (← e, balance k)
                (still_not_below s r.sale.customer_id r.total r.debt_back k debt owed),
        ),
      )
