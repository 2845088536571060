-- ===== src/SalesService/Settle/Credit.antt =====
-- What a settled sale puts on the customer's account.
use dukan_pro.Prelude.{
  ℕ, String, ◌≡◌, refl, ap, sym, ◌∙◌, inl, inr, Bool, true, false, ◌&&◌, Option, none, some,
  is_some, List, [], ◌∷◌, ◌++◌, arith, Bool-cases, if◌then◌else◌,
}
use dukan_pro.Prelude.Int.{
  ℤ, pos, ◌+ℤ◌, ◌-ℤ◌, ◌≤ℤ◌, ◌<ℤ◌, ltb_ℤ, int_laws, -ℤ_parts, eq_of_parts, +ℤ-zero,
}
use dukan_pro.Prelude.Text.{str_eq, is_text, eq_refl}
use dukan_pro.Errors.{ok, >>=-eq-ok, >>-eq-ok, raise_if-eq-ok, or_raise, or_raise-eq-ok, ok_inj}
use dukan_pro.Domain.Identity.{User}
use dukan_pro.Domain.Customers.{
  signed_amount, over_limit, assert_customer_can_buy_on_credit, assert_within_credit_limit,
}
use dukan_pro.Domain.Sales.{SaleLine, assert_settleable, assert_sale_not_overpaid}
use dukan_pro.Store.{Store, Customer, Sale}
use dukan_pro.Store.Queries.{first, sum_where, of_customer, customer_balance}
use dukan_pro.Store.Sums.{sum_where-append, customer_balance-sum, row_amount}
use dukan_pro.SalesService.Settle.Passed.{Passes, settle_sale-Passes}
use dukan_pro.SalesService.Settle.{charge_rows, sale_row, post_sale, settle_sale}
use dukan_pro.SalesService.Settle.Checking.{
  domain_lines, SaleLineInput, PaymentInput, Settled, customer_with, credit_of,
}

-- An active customer whose account has room for the debt.
pub record MayOwe (s : Store) (customer_id : String) (debt : ℤ) : Type 0 where
  pub customer : Customer
  pub stored : first (customer_with customer_id) s.customers ≡ some customer
  pub active : customer.is_active ≡ true
  pub within : over_limit debt customer.credit_limit_minor ≡ false

not_overpaid-le : (paid total : ℤ) → assert_sale_not_overpaid paid total ≡ ok tt → paid ≤ℤ total
unfolding assert_sale_not_overpaid
not_overpaid-le paid total h = ground arith

active_of :
    (is_active : Bool) (own sale : String)
    → assert_customer_can_buy_on_credit is_active own sale ≡ ok tt
    → is_active ≡ true
unfolding assert_customer_can_buy_on_credit
active_of true own sale h = refl
active_of false own sale h = cc

within_of :
    (balance charge : ℤ) (limit : Option ℤ)
    → assert_within_credit_limit balance charge limit ≡ ok tt
    → over_limit (balance +ℤ charge) limit ≡ false
unfolding assert_within_credit_limit
within_of balance charge limit h = raise_if-eq-ok _ _ h

even : (paid total : ℤ) → paid ≤ℤ total → ltb_ℤ paid total ≡ false → pos 0 ≡ total -ℤ paid
even paid total le not_less = eq_of_parts _ _ (ground (arith, -ℤ_parts total paid))

less : (paid total : ℤ) → paid <ℤ total → ltb_ℤ paid total ≡ true
less paid total h = ground arith

credit_of-eq :
    (s : Store) (customer_id : Option String) (paid total : ℤ) (currency : String) (credit : ℤ)
    → credit_of s customer_id paid total currency ≡ ok credit
    → paid ≤ℤ total
    → credit ≡ (if is_some customer_id then total -ℤ paid else pos 0)
unfolding credit_of
credit_of-eq s none paid total currency credit h le = sym (ok_inj h)
credit_of-eq s (some c) paid total currency credit h le = elim (Bool-cases (ltb_ℤ paid total)) [
  | inl less ↦
      let (customer, e, h1) =
        >>=-eq-ok (or_raise (first (customer_with c) s.customers) _) _ (rw less at h) in
      let (_, h2) = >>-eq-ok _ _ h1 in let (_, h3) = >>-eq-ok _ _ h2 in sym (ok_inj h3)
  | inr not_less ↦
      let zero : pos 0 ≡ credit = ok_inj (rw not_less at h) in
      rw (← zero) (even paid total le not_less)
]

credit_of-MayOwe :
    (s : Store) (customer_id : String) (paid total : ℤ) (currency : String) (credit : ℤ)
    → credit_of s (some customer_id) paid total currency ≡ ok credit
    → paid <ℤ total
    → MayOwe s customer_id (customer_balance s customer_id +ℤ (total -ℤ paid))
unfolding credit_of
credit_of-MayOwe s c paid total currency credit h lt =
    let (customer, e, h1) =
      >>=-eq-ok (or_raise (first (customer_with c) s.customers) _) _
        (rw (less paid total lt) at h) in
    let (can_buy, h2) = >>-eq-ok _ _ h1 in
    let (room, h3) = >>-eq-ok _ _ h2 in
    record {
      customer = customer;
      stored = or_raise-eq-ok _ _ e;
      active = active_of customer.is_active customer.currency currency can_buy;
      within = within_of (customer_balance s c) (total -ℤ paid) customer.credit_limit_minor room;
    }

one_row :
    (own : Bool) (credit : ℤ)
    → (if own && true then credit else pos 0) +ℤ pos 0 ≡ (if own then credit else pos 0)
one_row true credit = +ℤ-zero credit
one_row false credit = +ℤ-zero (pos 0)

same_zero : (own : Bool) → pos 0 ≡ (if own then pos 0 else pos 0)
same_zero true = refl
same_zero false = refl

nothing : (credit : ℤ) → pos 0 ≤ℤ credit → ltb_ℤ (pos 0) credit ≡ false → pos 0 ≡ credit
nothing credit h e = ground arith

-- What the new rows add to a customer's balance.
charge_rows-sum :
    (new_id : ℕ → String) (n : ℕ) (sale_id currency : String) (customer_id : Option String)
    (credit : ℤ) (k : String)
    → pos 0 ≤ℤ credit
    → sum_where
        (of_customer k)
        row_amount
        (charge_rows new_id n sale_id currency customer_id credit)
      ≡ (if is_text customer_id k then credit else pos 0)
unfolding charge_rows signed_amount
charge_rows-sum new_id n sale_id currency none credit k h = refl
charge_rows-sum new_id n sale_id currency (some c) credit k h =
    elim (Bool-cases (ltb_ℤ (pos 0) credit)) [
      | inl some_credit ↦ rw some_credit (one_row (str_eq c k) credit)
      | inr no_credit ↦ rw (no_credit, ← nothing credit h no_credit) (same_zero (str_eq c k))
    ]

customer_balance-post :
    (new_id : ℕ → String) (number : ℕ → String) (s : Store) (c : Settled) (k : String)
    → pos 0 ≤ℤ c.credit
    → customer_balance (post_sale new_id number s c) k
      ≡ customer_balance s k +ℤ (if is_text c.customer_id k then c.credit else pos 0)
unfolding post_sale
customer_balance-post new_id number s c k h =
    customer_balance-sum (post_sale new_id number s c) k
    ∙ sum_where-append (of_customer k) row_amount s.ledger _
    ∙ (rw
        (
          charge_rows-sum new_id _ _ c.currency c.customer_id c.credit k h,
          ← customer_balance-sum s k,
        )
        refl)

not_underpaid :
    (lines : List SaleLine) (total paid : ℤ) (currency : String)
    → assert_settleable lines total paid currency false ≡ ok tt
    → ltb_ℤ paid total ≡ false
unfolding assert_settleable
not_underpaid lines total paid currency h =
    let (_, h1) = >>-eq-ok _ _ h in let (_, h2) = >>-eq-ok _ _ h1 in raise_if-eq-ok _ _ h2

full_of : (paid total : ℤ) → paid ≤ℤ total → ltb_ℤ paid total ≡ false → paid ≡ total
full_of paid total le h = ground arith

credit-nonneg :
    (customer_id : Option String) (paid total : ℤ)
    → paid ≤ℤ total
    → pos 0 ≤ℤ (if is_some customer_id then total -ℤ paid else pos 0)
credit-nonneg none paid total h = omega arith
credit-nonneg (some k) paid total h = omega int_laws

owed_by :
    (customer_id : Option String) (k : String) (left : ℤ)
    → (if is_text customer_id k then (if is_some customer_id then left else pos 0) else pos 0)
      ≡ (if is_text customer_id k then left else pos 0)
owed_by none k left = refl
owed_by (some c) k left = refl

own_balance :
    (customer_id : Option String) (k : String) (balance left : ℤ)
    → customer_id ≡ some k
    → balance +ℤ (if is_text customer_id k then left else pos 0) ≡ balance +ℤ left
own_balance customer_id k balance left e = rw (e, eq_refl k) refl

-- A sale's own account of what it is worth and what was paid.
pub record Booked (s after : Store) (customer_id : Option String) (sale : Sale) : Type 0 where
  pub stored : after.sales ≡ s.sales ++ (sale ∷ [])
  pub buyer : sale.customer_id ≡ customer_id
  pub not_overpaid : sale.paid_minor ≤ℤ sale.total_minor

module _ (new_id : ℕ → String) (number : ℕ → String) (s : Store) (actor : User) (branch_id : String)
    (items : List SaleLineInput) (discount : ℤ) (payments : List PaymentInput)
    (shift_id customer_id : Option String) (now : ℤ) where
  passed-paid :
      (c : Settled)
      → Passes new_id s actor branch_id items discount payments shift_id customer_id now c
      → (c.customer_id ≡ customer_id)
        × (c.paid ≤ℤ c.totals.total_minor)
        × (c.credit ≡ (if is_some customer_id then c.totals.total_minor -ℤ c.paid else pos 0))
  passed-paid c p =
      let le = not_overpaid-le c.paid c.totals.total_minor p.not_overpaid in
      let credit : p.credit ≡ c.credit = ap (λ (x : Settled). x.credit) p.same in
      (
        sym (ap (λ (x : Settled). x.customer_id) p.same),
        le,
        sym credit
            ∙ credit_of-eq s customer_id c.paid c.totals.total_minor c.currency p.credit p.owed le,
      )

  passed-full :
      (c : Settled)
      → Passes new_id s actor branch_id items discount payments shift_id customer_id now c
      → customer_id ≡ none
      → c.paid ≡ c.totals.total_minor
  passed-full c p e =
      let settleable = rw e at p.settleable in
      full_of c.paid c.totals.total_minor
        (not_overpaid-le c.paid c.totals.total_minor p.not_overpaid)
        (not_underpaid (domain_lines p.lines) c.totals.total_minor c.paid c.currency settleable)

  passed-MayOwe :
      (c : Settled) (k : String)
      → Passes new_id s actor branch_id items discount payments shift_id customer_id now c
      → customer_id ≡ some k
      → c.paid <ℤ c.totals.total_minor
      → MayOwe s k (customer_balance s k +ℤ (c.totals.total_minor -ℤ c.paid))
  passed-MayOwe c k p e lt =
      let owed = rw e at p.owed in
      credit_of-MayOwe s k c.paid c.totals.total_minor c.currency p.credit owed lt

  passed-balance :
      (c : Settled) (k : String)
      → Passes new_id s actor branch_id items discount payments shift_id customer_id now c
      → customer_balance (post_sale new_id number s c) k
        ≡ customer_balance s k
          +ℤ (if is_text customer_id k then c.totals.total_minor -ℤ c.paid else pos 0)
  passed-balance c k p =
      let (buyer, le, credit) = passed-paid c p in
      let left = c.totals.total_minor -ℤ c.paid in
      customer_balance-post new_id number s c k
        (rw credit (credit-nonneg customer_id c.paid c.totals.total_minor le))
      ∙ (rw (buyer, credit, owed_by customer_id k left) refl)

  -- A settled sale is stored, paid at most in full. Its customer's balance grows by the part that is
  -- not paid, and no other balance changes; a sale to nobody is paid in full. Where a part is not
  -- paid, the customer is an active one whose credit limit, if there is one, the new balance keeps.
  pub settle_sale-balance :
      (after : Store) (k : String)
      → settle_sale new_id number s actor branch_id items discount payments shift_id customer_id now
        ≡ ok after
      → (sale : Sale) × Booked s after customer_id sale
        × (customer_balance after k
            ≡ customer_balance s k
              +ℤ (if is_text customer_id k then sale.total_minor -ℤ sale.paid_minor else pos 0))
        × (customer_id ≡ none → sale.paid_minor ≡ sale.total_minor)
        × (customer_id ≡ some k
            → sale.paid_minor <ℤ sale.total_minor
            → MayOwe s k (customer_balance after k))
  unfolding post_sale
  settle_sale-balance after k h =
      let (c, p, e) =
        settle_sale-Passes new_id s actor branch_id items discount payments shift_id customer_id now
          number after h in
      let (buyer, le, credit) = passed-paid c p in
      let grown = passed-balance c k p in
      (
        sale_row new_id number s c,
        record { stored = rw (← e) refl; buyer = buyer; not_overpaid = le },
        rw (← e) grown,
        passed-full c p,
        λ own lt.
            rw
              (
                ← e,
                grown,
                own_balance customer_id k (customer_balance s k) (c.totals.total_minor -ℤ c.paid)
                    own,
              )
              (passed-MayOwe c k p own lt),
      )
