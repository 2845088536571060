-- ===== src/Sync/Handlers/Lines/Totals.antt =====
-- The money of a sale line that is accepted.
use dukan_pro.Prelude.{
  ◌≡◌, ◌⊎◌, inl, inr, arith, Bool-cases, ℕ, String, Bool, true, not, ◌||◌, none, some, any,
}
use dukan_pro.Prelude.Int.{ℤ, pos, ◌+ℤ◌, ltb_ℤ, leb_ℤ, eqb_ℤ, ◌≤ℤ◌, ◌<ℤ◌}
use dukan_pro.Prelude.Dict.{lookup}
use dukan_pro.Errors.{or_raise, ok, not_found, Code}
use dukan_pro.Domain.Identity.{can}
use dukan_pro.Sync.Values.{Value, Fields, str_at, int_at, str_or, int_or}
use dukan_pro.Sync.Types.{Ctx, ProductRef, SaleRef, ApplyPlan}
use dukan_pro.Sync.Guards.{guard_insert, product, own_sale, default_currency}
use dukan_pro.Errors.{>>=-eq-ok, >>-eq-ok, passed}
use dukan_pro.Sync.Guards.Passed.{guard_insert-eq-ok, product-eq-ok, own_sale-eq-ok, OwnSale}
use dukan_pro.Prelude.Dict.{lookup-insert}
use dukan_pro.Access.{require_any_permission}
use dukan_pro.Domain.Sales.{line_total_minor}
use dukan_pro.Sync.Handlers.Lines.{
  sale_lines_insert, sold_line, check_line_money, check_price, had_price, discounters, line_plan,
}

-- A line of the quantity at the price in the unit's decimal places: its total is the rounded
-- product, and with the lines before it within the sale's subtotal.
pub record Sold (ctx : Ctx) (v : Fields) (s : SaleRef) (p : ProductRef) (places : ℕ) : Type 0 where
  pub qty : ℤ
  pub price : ℤ
  pub total : ℤ
  pub qty_read : int_at "qty_minor" v ≡ ok qty
  pub price_read : int_at "unit_price_minor" v ≡ ok price
  pub total_read : int_at "line_total_minor" v ≡ ok total
  pub positive : pos 0 <ℤ qty
  pub unit : p.decimal_places ≡ some places
  pub rounded : total ≡ line_total_minor price qty places
  pub within_subtotal : ctx.reader.sale_lines_total s.id +ℤ total ≤ℤ s.subtotal_minor
  -- A price below the catalog's is one that the product had lately, or the actor may discount.
  pub price_allowed :
      (p.sell_price_minor ≤ℤ price)
      ⊎ ((had_price ctx s p price ≡ true)
          ⊎ (any (λ q. can ctx.actor q s.branch_id) discounters ≡ true))

check_line_money-rounded :
    (ctx : Ctx) (v : Fields) (s : SaleRef) (places : ℕ) (qty total price : ℤ)
    → check_line_money ctx v s places qty total ≡ ok price
    → (int_at "unit_price_minor" v ≡ ok price)
      × (total ≡ line_total_minor price qty places)
      × (ctx.reader.sale_lines_total s.id +ℤ total ≤ℤ s.subtotal_minor)
unfolding check_line_money
check_line_money-rounded ctx v s places qty total price h =
    let (claimed, c, h) = >>=-eq-ok (int_or "decimal_places" v (pos places)) _ h in
    let (unit, h) = passed (not (eqb_ℤ claimed (pos places))) _ _ h in
    let (read, r, h) = >>=-eq-ok (int_at "unit_price_minor" v) _ h in
    let (sums, h) = passed (not (eqb_ℤ total (line_total_minor read qty places))) _ _ h in
    let (currency, k, h) = >>=-eq-ok (str_or "currency" v default_currency) _ h in
    let same : read ≡ price = ground arith in
    (rw same at r, rw (← same) (ground arith), ground arith)

check_price-allowed :
    (ctx : Ctx) (s : SaleRef) (p : ProductRef) (price : ℤ) {u : Unit {0}}
    → check_price ctx s p price ≡ ok u
    → (p.sell_price_minor ≤ℤ price)
      ⊎ ((had_price ctx s p price ≡ true)
          ⊎ (any (λ q. can ctx.actor q s.branch_id) discounters ≡ true))
unfolding check_price require_any_permission
check_price-allowed ctx s p price h = elim (Bool-cases (had_price ctx s p price)) [
  | inl had ↦ inr (inl had)
  | inr not_had ↦ (elim (Bool-cases (any (λ q. can ctx.actor q s.branch_id) discounters)) [
    | inl may ↦ inr (inr may)
    | inr may_not ↦ inl (ground arith)
  ])
]

sold_line-Sold :
    (ctx : Ctx) (v : Fields) (s : SaleRef) (out : ApplyPlan)
    → sold_line ctx v s ≡ ok out
    → (id : String) × (p : ProductRef) × (places : ℕ) × (str_at "product_id" v ≡ ok id)
      × (ctx.reader.product id ≡ some p)
      × Sold ctx v s p places
      × (ctx.existing ≡ none)
      × (lookup "decimal_places" out.values ≡ some (Value.int (pos places)))
unfolding sold_line
sold_line-Sold ctx v s out h =
    let (qty, q, h) = >>=-eq-ok (int_at "qty_minor" v) _ h in
    let (total, t, h) = >>=-eq-ok (int_at "line_total_minor" v) _ h in
    let (range, h) = passed (leb_ℤ qty (pos 0) || ltb_ℤ total (pos 0)) _ _ h in
    let (fresh, h) = >>-eq-ok (guard_insert ctx) _ h in
    let (id, i, h) = >>=-eq-ok (str_at "product_id" v) _ h in
    let (p, f, h) = >>=-eq-ok (product ctx id true) _ h in
    let (places, u, h) =
      >>=-eq-ok (or_raise p.decimal_places (not_found Code.unit_not_found)) _ h in
    let (price, m, h) = >>=-eq-ok (check_line_money ctx v s places qty total) _ h in
    let (allowed, h) = >>-eq-ok (check_price ctx s p price) _ h in
    let (read, rounded, within) = check_line_money-rounded ctx v s places qty total price m in
    (
      id,
      p,
      places,
      i,
      product-eq-ok ctx id true p f,
      record {
        qty = qty;
        price = price;
        total = total;
        qty_read = q;
        price_read = read;
        total_read = t;
        positive = ground arith;
        unit = ground arith;
        rounded = rounded;
        within_subtotal = within;
        price_allowed = check_price-allowed ctx s p price allowed;
      },
      guard_insert-eq-ok ctx fresh,
      unit_written p places (ltb_ℤ price p.sell_price_minor) (ground arith),
    )
  where
    unit_written :
        (p : ProductRef) (places : ℕ) (below : Bool)
        → out ≡ line_plan v s p places below
        → lookup "decimal_places" out.values ≡ some (Value.int (pos places))
    unit_written p places below e = rw e (simp lookup-insert)

-- A line of a sale that is no return and is accepted is new, and the sale is one of the actor's
-- own, in a branch where the actor sells. Its quantity is positive; its total is the product of
-- price and quantity, rounded in the decimal places of the product's unit, which are the ones
-- written; with the lines before it, it is within the sale's subtotal. Its price is not below the
-- catalog's, or the product had it within the window before the sale, or the actor may discount or
-- change prices.
pub sale_lines_insert-Sold :
    (ctx : Ctx) (v : Fields) (out : ApplyPlan)
    → sale_lines_insert ctx v ≡ ok out
    → (sale_id : String) × (s : SaleRef) × (str_at "sale_id" v ≡ ok sale_id)
      × OwnSale ctx sale_id s
      × (s.refund_of ≡ none
          → (id : String) × (p : ProductRef) × (places : ℕ) × (str_at "product_id" v ≡ ok id)
            × (ctx.reader.product id ≡ some p)
            × Sold ctx v s p places
            × (ctx.existing ≡ none)
            × (lookup "decimal_places" out.values ≡ some (Value.int (pos places))))
unfolding sale_lines_insert
sale_lines_insert-Sold ctx v out h =
    let (sale_id, i, h) = >>=-eq-ok (str_at "sale_id" v) _ h in
    let (s, o, h) = >>=-eq-ok (own_sale ctx sale_id) _ h in
    (sale_id, s, i, own_sale-eq-ok ctx sale_id s o, λ n. sold_line-Sold ctx v s out (rw n at h))
