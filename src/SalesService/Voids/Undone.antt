-- ===== src/SalesService/Voids/Undone.antt =====
-- What a void undoes.
use dukan_pro.Prelude.{
  ℕ, suc, String, ◌≡◌, refl, ap, sym, ◌∙◌, inl, inr, Bool, true, false, not, ◌&&◌, some, is_some,
  List, [], ◌∷◌, arith, All, Bool-cases, if◌then◌else◌,
}
use mathlib.Core.Path.{subst}
use dukan_pro.Prelude.Int.{ℤ, pos, ◌+ℤ◌, ◌-ℤ◌, negate, ltb_ℤ, min_ℤ, max_ℤ, int_laws, zero-+ℤ}
use dukan_pro.Prelude.Text.{is_blank, str_eq}
use dukan_pro.Errors.{
  ok, >>=-eq-ok, >>-eq-ok, or_raise, or_raise-eq-ok, ok_inj, passed, not_found, conflict,
  validation, Code,
}
use dukan_pro.Access.{require_permission}
use dukan_pro.Domain.Identity.{User, sale_void}
use dukan_pro.Store.{Store, Sale, StockRow}
use dukan_pro.Store.Queries.{
  select, first, sum_where, sale_with, stock_at, on_hand, of_customer, customer_balance,
  require_active_branch,
}
use dukan_pro.Store.Sums.{sum_where-append, customer_balance-sum, row_amount}
use dukan_pro.SalesService.Voids.{
  refund_with, shift_of, is_closed, cash_taken, charge_of, taken_by, back_rows, check_void,
  post_void, void_sale,
}
use dukan_pro.SalesService.Voids.Debt.{NotNegative, charged_to, undone}

abbrev pub taken_at : String → String → String → StockRow → Bool
taken_at sale_id product_id branch_id m = taken_by sale_id m && stock_at product_id branch_id m

abbrev delta : StockRow → ℤ
delta m = m.qty_delta

back-step :
    (there : Bool) (qty rest : ℤ)
    → (if there then negate qty else pos 0) +ℤ negate rest
      ≡ negate ((if there then qty else pos 0) +ℤ rest)
back-step true qty rest = omega int_laws
back-step false qty rest = omega int_laws

taken-stock_at :
    (sale_id k b : String) (m : StockRow)
    → taken_by sale_id m ≡ true
    → stock_at k b m ≡ (str_eq m.product_id k && str_eq m.branch_id b && true)
taken-stock_at sale_id k b m h = ground arith

back_rows-sum :
    (new_id : ℕ → String) (sale_id ref k b : String) (moves : List StockRow) (n : ℕ)
    → sum_where (stock_at k b) delta (back_rows new_id n ref (select (taken_by sale_id) moves))
      ≡ negate (sum_where (taken_at sale_id k b) delta moves)
unfolding back_rows
back_rows-sum new_id sale_id ref k b [] n = omega int_laws
back_rows-sum new_id sale_id ref k b (m ∷ moves) n = elim (Bool-cases (taken_by sale_id m)) [
  | inl taken ↦
      rw
        (
          taken,
          back_rows-sum new_id sale_id ref k b moves (suc n),
          taken-stock_at sale_id k b m taken,
        )
        (back-step (str_eq m.product_id k && str_eq m.branch_id b && true) m.qty_delta _)
  | inr other ↦
      rw (other, back_rows-sum new_id sale_id ref k b moves n)
        (ap negate (sym (zero-+ℤ (sum_where (taken_at sale_id k b) delta moves))))
]

plus_negated : (a b : ℤ) → a +ℤ negate b ≡ a -ℤ b
plus_negated a b = omega int_laws

on_hand-post :
    (new_id : ℕ → String) (s : Store) (actor : User) (sale : Sale) (k b : String)
    → on_hand (post_void new_id s actor sale) k b
      ≡ on_hand s k b -ℤ sum_where (taken_at sale.id k b) delta s.moves
unfolding on_hand post_void
on_hand-post new_id s actor sale k b =
    sum_where-append (stock_at k b) delta s.moves _
    ∙ ap (λ n. on_hand s k b +ℤ n) (back_rows-sum new_id sale.id sale.id k b s.moves s.next)
    ∙ plus_negated (on_hand s k b) _

balance-post :
    (new_id : ℕ → String) (s : Store) (actor : User) (sale : Sale) (k : String)
    → All NotNegative (select (charge_of sale.id) s.ledger)
    → customer_balance (post_void new_id s actor sale) k
      ≡ customer_balance s k
        -ℤ min_ℤ
            (charged_to k (select (charge_of sale.id) s.ledger))
            (max_ℤ (customer_balance s k) (pos 0))
unfolding post_void
balance-post new_id s actor sale k h =
    customer_balance-sum (post_void new_id s actor sale) k
    ∙ sum_where-append (of_customer k) row_amount s.ledger _
    ∙ (rw
        (
          undone new_id sale.id k _ s (select (charge_of sale.id) s.ledger) h,
          ← customer_balance-sum s k,
        )
        (plus_negated (customer_balance s k) _))

not-false : (b : Bool) → not b ≡ false → b ≡ true
not-false true h = refl
not-false false h = cc

-- What the checks of a void let through: a settled sale without returns.
pub record Voidable (s : Store) (sale_id : String) (sale : Sale) : Type 0 where
  pub stored : first (sale_with sale_id) s.sales ≡ some sale
  pub settled : str_eq sale.status "settled" ≡ true
  pub no_return : is_some sale.refund_of ≡ false
  pub not_returned : is_some (first (refund_with sale.id) s.sales) ≡ false
  pub drawer :
      (is_closed (shift_of s sale.shift_id) && ltb_ℤ (pos 0) (cash_taken s sale.id)) ≡ false

check_void-Voidable :
    (s : Store) (actor : User) (sale_id reason : String) (sale : Sale)
    → check_void s actor sale_id reason ≡ ok sale
    → Voidable s sale_id sale
unfolding check_void
check_void-Voidable s actor sale_id reason sale h =
    let (found, e, h1) =
      >>=-eq-ok (or_raise (first (sale_with sale_id) s.sales) (not_found Code.sale_not_found)) _
        h in
    let (_, h2) = >>-eq-ok (require_permission actor sale_void found.branch_id) _ h1 in
    let (_, h3) = >>-eq-ok (require_active_branch s found.branch_id) _ h2 in
    let (_, h4) = passed (is_blank reason) (validation Code.sale_void_reason_required) _ h3 in
    let refused = conflict Code.sale_not_voidable in
    let (settled, h5) = passed _ refused _ h4 in
    let (no_return, h6) = passed _ refused _ h5 in
    let (not_returned, h7) = passed _ refused _ h6 in
    let (drawer, h8) = passed _ (conflict Code.sale_shift_closed) _ h7 in
    subst (Voidable s sale_id) (ok_inj h8) (record {
      stored = or_raise-eq-ok _ _ e;
      settled = not-false _ settled;
      no_return = no_return;
      not_returned = not_returned;
      drawer = drawer;
    })

pub void_sale-Voidable :
    (new_id : ℕ → String) (s after : Store) (actor : User) (sale_id reason : String)
    → void_sale new_id s actor sale_id reason ≡ ok after
    → (sale : Sale) × Voidable s sale_id sale × (post_void new_id s actor sale ≡ after)
unfolding void_sale
void_sale-Voidable new_id s after actor sale_id reason h =
    let (sale, checked, posted) = >>=-eq-ok (check_void s actor sale_id reason) _ h in
    (sale, check_void-Voidable s actor sale_id reason sale checked, ok_inj posted)

-- A void is of a settled sale without returns. It puts back what the sale took of each product in
-- each branch, and takes off a customer's balance as much of what the sale charged as the customer
-- still owes: it never leaves the shop owing the customer. What the sale charged is not negative.
pub void_sale-undone :
    (new_id : ℕ → String) (s after : Store) (actor : User) (sale_id reason : String)
    → void_sale new_id s actor sale_id reason ≡ ok after
    → (sale : Sale) × Voidable s sale_id sale
      × (All NotNegative (select (charge_of sale.id) s.ledger)
          → (k : String)
          → customer_balance after k
            ≡ customer_balance s k
              -ℤ min_ℤ
                  (charged_to k (select (charge_of sale.id) s.ledger))
                  (max_ℤ (customer_balance s k) (pos 0)))
      × ((product_id branch_id : String)
          → on_hand after product_id branch_id
            ≡ on_hand s product_id branch_id
              -ℤ sum_where (taken_at sale.id product_id branch_id) delta s.moves)
void_sale-undone new_id s after actor sale_id reason h =
    let (sale, v, e) = void_sale-Voidable new_id s after actor sale_id reason h in
    (
      sale,
      v,
      λ charges k. rw (← e) (balance-post new_id s actor sale k charges),
      λ k b. rw (← e) (on_hand-post new_id s actor sale k b),
    )
