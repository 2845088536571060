-- ===== src/Domain/Sales/Validity.antt =====
-- Which sales, discounts and returns the assertions accept, and what follows for the amounts.
use dukan_pro.Prelude.{
  ◌*◌, ◌≤◌, String, ◌≡◌, refl, ◌≢◌, ◌↔◌, Bool, false, not, ◌&&◌, List, [], ◌∷◌, arith, All,
}
use dukan_pro.Prelude.Int.{
  ℤ, pos, ◌+ℤ◌, ◌-ℤ◌, ◌*ℤ◌, ◌≤ℤ◌, ◌<ℤ◌, abs, int_laws, +ℤ_assoc, +ℤ-zero, zero-+ℤ, *ℤ_nonneg, ltb_ℤ,
}
use dukan_pro.Prelude.Text.{is_blank, eq_iff}
use dukan_pro.Prelude.Dict.{Dict}
use dukan_pro.Errors.{ok, >>-eq-ok, ◌>>◌, raise_if, validation, conflict, Code}
use dukan_pro.Domain.Limits.{money_max, money_max_ℕ}
use dukan_pro.Domain.Sales.{
  scale, SaleLine, line_total, lines_sum, line_total_fits, assert_line_valid, assert_lines_from,
  assert_sale_lines_valid, assert_settleable, assert_discount_valid, assert_sale_not_overpaid,
  compute_totals, left_of, assert_wanted, assert_refund_valid,
}
use dukan_pro.Domain.Sales.Rounding.{line_total_minor-IsRounded}

-- A line that a sale in `currency` can have.
pub record IsSellable (currency : String) (l : SaleLine) : Type 0 where
  pub quantity : pos 0 <ℤ l.qty_minor
  pub price : pos 0 ≤ℤ l.unit_price_minor
  pub same_currency : l.currency ≡ currency
  pub fits : abs (l.unit_price_minor *ℤ l.qty_minor) ≤ money_max_ℕ * scale l.decimal_places

module _ (currency : String) (l : SaleLine) where
  assert_line_valid_sound : assert_line_valid currency l ≡ ok tt → IsSellable currency l
  unfolding assert_line_valid line_total_fits
  assert_line_valid_sound h = ground (arith, eq_iff l.currency currency)

  assert_line_valid_complete : IsSellable currency l → assert_line_valid currency l ≡ ok tt
  unfolding assert_line_valid line_total_fits
  assert_line_valid_complete h = ground (arith, eq_iff l.currency currency)

module _ (currency : String) where
  assert_lines_from_sound :
      (total : ℤ) (ls : List SaleLine)
      → assert_lines_from currency total ls ≡ ok tt
      → All (IsSellable currency) ls × (total +ℤ lines_sum ls ≤ℤ money_max)
  unfolding assert_lines_from lines_sum
  assert_lines_from_sound total [] h = (tt, ground (arith, +ℤ-zero total))
  assert_lines_from_sound total (l ∷ ls) h =
      let (first, rest) = >>-eq-ok (assert_line_valid currency l) _ h in
      let (valid, le) = assert_lines_from_sound (total +ℤ line_total l) ls rest in
      ((assert_line_valid_sound currency l first, valid), rw (← +ℤ_assoc) le)

  assert_lines_from_complete :
      (total : ℤ) (ls : List SaleLine)
      → All (IsSellable currency) ls
      → total +ℤ lines_sum ls ≤ℤ money_max
      → assert_lines_from currency total ls ≡ ok tt
  unfolding assert_lines_from lines_sum
  assert_lines_from_complete total [] h le = ground (arith, +ℤ-zero total)
  assert_lines_from_complete total (l ∷ ls) h le =
      rw (assert_line_valid_complete currency l h.0)
        (assert_lines_from_complete (total +ℤ line_total l) ls h.1 (rw +ℤ_assoc le))

-- A list of lines is accepted exactly when it is not empty, each line sells a positive quantity at
-- a price of zero or more in the sale's currency for at most MONEY_MAX, and they sum up to at most
-- MONEY_MAX.
pub assert_sale_lines_valid_iff :
    (lines : List SaleLine) (currency : String)
    → (assert_sale_lines_valid lines currency ≡ ok tt)
      ↔ ((lines ≢ []) × All (IsSellable currency) lines × (lines_sum lines ≤ℤ money_max))
unfolding assert_sale_lines_valid
assert_sale_lines_valid_iff [] currency = ((λ h. cc), λ h. absurd (h.0 refl))
assert_sale_lines_valid_iff (l ∷ ls) currency = (
  (λ h.
      let (valid, le) = assert_lines_from_sound currency (pos 0) (l ∷ ls) h in
      ((λ e. cc), valid, rw zero-+ℤ at le)),
  λ h. assert_lines_from_complete currency (pos 0) (l ∷ ls) h.1 (rw zero-+ℤ h.2),
)

lines_sum_nonneg :
    (currency : String) (ls : List SaleLine) → All (IsSellable currency) ls → pos 0 ≤ℤ lines_sum ls
unfolding lines_sum line_total
lines_sum_nonneg currency [] h = omega arith
lines_sum_nonneg currency (l ∷ ls) h = omega (
  int_laws,
  lines_sum_nonneg currency ls h.1,
  (line_total_minor-IsRounded l.unit_price_minor l.qty_minor l.decimal_places).1
      (*ℤ_nonneg l.unit_price_minor l.qty_minor h.0.price (omega (arith, h.0.quantity))),
)

-- The arithmetic of the checks below, over any subtotal.
in_order :
    (subtotal discount paid : ℤ) (allow_credit : Bool)
    → let total = subtotal -ℤ discount +ℤ pos 0 in
      pos 0 ≤ℤ subtotal
      → subtotal ≤ℤ money_max
      → assert_discount_valid discount subtotal ≡ ok tt
      → (raise_if (ltb_ℤ paid (pos 0)) (validation Code.sale_payment_invalid)
          >> raise_if (not allow_credit && ltb_ℤ paid total) (conflict Code.sale_underpaid))
        ≡ ok tt
      → assert_sale_not_overpaid paid total ≡ ok tt
      → (total ≡ subtotal -ℤ discount)
        × (pos 0 ≤ℤ total)
        × (total ≤ℤ money_max)
        × (pos 0 ≤ℤ paid)
        × (paid ≤ℤ total)
        × (allow_credit ≡ false → paid ≡ total)
unfolding assert_discount_valid assert_sale_not_overpaid
in_order subtotal discount paid allow_credit ge le hd hs hp =
    let total = subtotal -ℤ discount +ℤ pos 0 in
    let d0 : pos 0 ≤ℤ discount = ground arith in
    let d1 : discount ≤ℤ subtotal = ground arith in
    let p0 : pos 0 ≤ℤ paid = ground arith in
    let p1 : paid ≤ℤ total = ground arith in
    let p2 : allow_credit ≡ false → total ≤ℤ paid = λ e. ground arith in
    (
      +ℤ-zero (subtotal -ℤ discount),
      omega int_laws,
      omega int_laws,
      p0,
      p1,
      λ e. omega (int_laws, p2 e),
    )

-- When the checks of a settlement pass, the amounts are in order: the total is the subtotal less
-- the discount, between 0 and MONEY_MAX; the payments lie between 0 and the total; and without
-- credit they are the total.
pub settlement_in_order :
    (lines : List SaleLine) (discount paid : ℤ) (currency : String) (allow_credit : Bool)
    → assert_discount_valid discount (compute_totals lines discount).subtotal_minor ≡ ok tt
    → assert_settleable lines (compute_totals lines discount).total_minor paid currency allow_credit
      ≡ ok tt
    → assert_sale_not_overpaid paid (compute_totals lines discount).total_minor ≡ ok tt
    → ((compute_totals lines discount).total_minor ≡ lines_sum lines -ℤ discount)
      × (pos 0 ≤ℤ (compute_totals lines discount).total_minor)
      × ((compute_totals lines discount).total_minor ≤ℤ money_max)
      × (pos 0 ≤ℤ paid)
      × (paid ≤ℤ (compute_totals lines discount).total_minor)
      × (allow_credit ≡ false → paid ≡ (compute_totals lines discount).total_minor)
unfolding compute_totals assert_settleable assert_discount_valid assert_sale_not_overpaid
settlement_in_order lines discount paid currency allow_credit hd hs hp =
    let (valid, rest) = >>-eq-ok (assert_sale_lines_valid lines currency) _ hs in
    let (_, each, le) = (assert_sale_lines_valid_iff lines currency).0 valid in
    in_order (lines_sum lines) discount paid allow_credit (lines_sum_nonneg currency lines each) le
      hd rest hp

-- What a return may take back: something, and of each product a positive quantity that is left.
abbrev pub IsReturnable : Dict ℤ → String × ℤ → Type 0
IsReturnable returnable (product_id, qty) = (pos 0 <ℤ qty) × (qty ≤ℤ left_of returnable product_id)

assert_wanted_sound :
    (returnable wanted : Dict ℤ)
    → assert_wanted returnable wanted ≡ ok tt
    → All (IsReturnable returnable) wanted
unfolding assert_wanted
assert_wanted_sound returnable [] h = tt
assert_wanted_sound returnable ((p, q) ∷ wanted) h =
    ground (arith, assert_wanted_sound returnable wanted)

assert_wanted_complete :
    (returnable wanted : Dict ℤ)
    → All (IsReturnable returnable) wanted
    → assert_wanted returnable wanted ≡ ok tt
unfolding assert_wanted
assert_wanted_complete returnable [] h = refl
assert_wanted_complete returnable ((p, q) ∷ wanted) h =
    ground (arith, assert_wanted_complete returnable wanted h.1)

-- A return is accepted exactly when it gives a reason that is not blank, wants something, and of
-- each product wants a positive quantity that is no more than what is left of it.
pub assert_refund_valid_iff :
    (reason : String) (wanted returnable : Dict ℤ)
    → (assert_refund_valid reason wanted returnable ≡ ok tt)
      ↔ ((is_blank reason ≡ false) × (wanted ≢ []) × All (IsReturnable returnable) wanted)
unfolding assert_refund_valid
assert_refund_valid_iff reason [] returnable = ((λ h. ground arith), λ h. absurd (h.1 refl))
assert_refund_valid_iff reason (w ∷ wanted) returnable = (
  (λ h. (ground arith, (λ e. cc), assert_wanted_sound returnable (w ∷ wanted) (ground arith))),
  λ h. rw h.0 (assert_wanted_complete returnable (w ∷ wanted) h.2),
)
