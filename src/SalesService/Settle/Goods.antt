-- ===== src/SalesService/Settle/Goods.antt =====
-- What a settled sale takes from stock.
use dukan_pro.Prelude.{
  ℕ, suc, String, ◌≡◌, refl, ap, inl, inr, Bool, true, false, ◌&&◌, ◌||◌, Option, none, some, List,
  [], ◌∷◌, map, arith, any, Bool-cases, if◌then◌else◌,
}
use dukan_pro.Prelude.Int.{ℤ, pos, ◌+ℤ◌, ◌-ℤ◌, negate, ◌≤ℤ◌, int_laws, eq_parts, zero-+ℤ}
use dukan_pro.Prelude.Text.{str_eq, str_eq→eq, eq_refl}
use dukan_pro.Prelude.Dict.{Dict, lookup, insert, lookup-insert}
use dukan_pro.Errors.{ok, >>=-eq-ok, or_raise, or_raise-eq-ok, ok_inj}
use dukan_pro.Domain.Identity.{User}
use dukan_pro.Domain.Inventory.{StockMovement, sell_from_stock}
use dukan_pro.Store.{Store, Product, StockRow}
use dukan_pro.Store.Queries.{first, sum_where, stock_at, on_hand}
use dukan_pro.Store.Sums.{sum_where-append, first_sound}
use dukan_pro.SalesService.Settle.Passed.{Passes, settle_sale-Passes}
use dukan_pro.SalesService.Settle.{move_row, sale_id_of, post_sale, settle_sale}
use dukan_pro.SalesService.Settle.Checking.{
  decimal_places, SaleLineInput, PaymentInput, Priced, Settled, product_with, priced, price_lines,
  available_of, take_stock,
}

-- The product is one whose stock is tracked.
abbrev tracks : Option Product → Bool
tracks none = false
tracks (some p) = p.track_stock

abbrev pub is_tracked : Store → String → Bool
is_tracked s product_id = tracks (first (product_with product_id) s.products)

abbrev pub takes : Store → String → SaleLineInput → Bool
takes s product_id i = str_eq i.product_id product_id && is_tracked s i.product_id

-- How much of a product the sale takes from stock.
abbrev pub taken_qty : Store → String → List SaleLineInput → ℤ
taken_qty s product_id items =
    sum_where (takes s product_id) (λ (i : SaleLineInput). i.qty_minor) items

abbrev line_takes : String → Priced → Bool
line_takes product_id p = str_eq p.line.product_id product_id && p.product.track_stock

abbrev line_qty : Priced → ℤ
line_qty p = p.line.qty_minor

abbrev PricedAs : Store → SaleLineInput → Priced → Type 0
PricedAs s i p =
    (p.line.product_id ≡ i.product_id)
    × (p.line.qty_minor ≡ i.qty_minor)
    × (is_tracked s i.product_id ≡ p.product.track_stock)

product_with-id :
    (product_id : String) (p : Product) → product_with product_id p ≡ true → p.id ≡ product_id
product_with-id product_id p h = str_eq→eq p.id product_id (ground arith)

is_tracked-found :
    (s : Store) (product_id : String) (p : Product)
    → first (product_with product_id) s.products ≡ some p
    → is_tracked s product_id ≡ p.track_stock
is_tracked-found s product_id p h = ap tracks h

priced-as : (s : Store) (i : SaleLineInput) (p : Priced) → priced s i ≡ ok p → PricedAs s i p
unfolding priced
priced-as s i p h =
    let (product, e, h1) =
      >>=-eq-ok (or_raise (first (product_with i.product_id) s.products) _) _ h in
    let (places, e1, h2) = >>=-eq-ok (decimal_places s product.unit_id) _ h1 in
    let found = or_raise-eq-ok (first (product_with i.product_id) s.products) _ e in
    let id = product_with-id i.product_id product (first_sound _ s.products product found) in
    rw (← ok_inj h2) (id, refl, is_tracked-found s i.product_id product found)

line_takes-takes :
    (s : Store) (k : String) (i : SaleLineInput) (p : Priced)
    → PricedAs s i p
    → line_takes k p ≡ takes s k i
line_takes-takes s k i p (same, qty, tracked) = rw (same, tracked) refl

price_lines-qty :
    (s : Store) (k : String) (items : List SaleLineInput) (ps : List Priced)
    → price_lines s items ≡ ok ps
    → (sum_where (line_takes k) line_qty ps ≡ taken_qty s k items)
      × (any (line_takes k) ps ≡ any (takes s k) items)
unfolding price_lines
price_lines-qty s k [] ps h = rw (← ok_inj h) (refl, refl)
price_lines-qty s k (i ∷ items) ps h =
    let (p, e, h1) = >>=-eq-ok (priced s i) _ h in
    let (rest, e1, h2) = >>=-eq-ok (price_lines s items) _ h1 in
    let like = priced-as s i p e in
    let (sums, anys) = price_lines-qty s k items rest e1 in
    rw (← ok_inj h2, line_takes-takes s k i p like, like.1, sums, anys) (refl, refl)

line_takes-tracked :
    (k : String) (p : Priced)
    → p.product.track_stock ≡ true
    → line_takes k p ≡ str_eq p.line.product_id k
line_takes-tracked k p t = ground arith

line_takes-untracked :
    (k : String) (p : Priced) → p.product.track_stock ≡ false → line_takes k p ≡ false
line_takes-untracked k p t = ground arith

stock_at-row :
    (new_id : ℕ → String) (k b sale_id : String) (m : StockMovement)
    → stock_at k b (move_row new_id sale_id m) ≡ (str_eq m.product_id k && str_eq m.branch_id b)
stock_at-row new_id k b sale_id m = ground arith

sell-taken :
    (id product_id branch_id : String) (qty available at : ℤ) (m : StockMovement)
    → sell_from_stock id product_id branch_id qty available at ≡ ok m
    → (qty ≤ℤ available)
      × (m.product_id ≡ product_id)
      × (m.branch_id ≡ branch_id)
      × (m.qty_delta ≡ negate qty)
unfolding sell_from_stock
sell-taken id product_id branch_id qty available at m h = ground arith

-- One turn of the loop: `hit` says that the line is of the product, `here` that the branch is.
moved-step :
    (hit here : Bool) (qty rest moved delta : ℤ)
    → delta ≡ negate qty
    → moved ≡ (if here then negate rest else pos 0)
    → (if hit && here then delta else pos 0) +ℤ moved
      ≡ (if here then negate ((if hit then qty else pos 0) +ℤ rest) else pos 0)
moved-step true true qty rest moved delta d m = rw (d, m) (omega int_laws)
moved-step false true qty rest moved delta d m = rw m (omega int_laws)
moved-step true false qty rest moved delta d m = rw m (omega int_laws)
moved-step false false qty rest moved delta d m = rw m (omega int_laws)

moved-nil : (here : Bool) → pos 0 ≡ (if here then negate (pos 0) else pos 0)
moved-nil true = omega int_laws
moved-nil false = refl

room-step :
    (hit more : Bool) (qty rest room left left' : ℤ)
    → (hit ≡ true → room ≡ left)
    → qty ≤ℤ room
    → left' ≡ (if hit then room -ℤ qty else left)
    → (more ≡ true → rest ≤ℤ left')
    → (more ≡ false → rest ≡ pos 0)
    → ((hit || more) ≡ true → (if hit then qty else pos 0) +ℤ rest ≤ℤ left)
      × ((hit || more) ≡ false → (if hit then qty else pos 0) +ℤ rest ≡ pos 0)
room-step true true qty rest room left left' same fits next some_left none_left =
    (λ h. omega (int_laws, eq_parts (same refl), eq_parts next, some_left refl, fits), λ h. cc)
room-step true false qty rest room left left' same fits next some_left none_left =
    (λ h. omega (int_laws, eq_parts (same refl), eq_parts (none_left refl), fits), λ h. cc)
room-step false true qty rest room left left' same fits next some_left none_left =
    (λ h. omega (int_laws, eq_parts next, some_left refl), λ h. cc)
room-step false false qty rest room left left' same fits next some_left none_left =
    (λ h. cc, λ h. omega (int_laws, eq_parts (none_left refl)))

module _ (new_id : ℕ → String) (s : Store) (branch_id : String) (now : ℤ) where
  -- What is left of a product, as the loop reads it.
  abbrev left_of : Dict ℤ → String → ℤ
  left_of left k = available_of (lookup k left) (on_hand s k branch_id)

  left_of-insert :
      (left : Dict ℤ) (k j : String) (v : ℤ)
      → left_of (insert k v left) j ≡ (if str_eq k j then v else left_of left j)
  left_of-insert left k j v = elim (Bool-cases (str_eq k j)) [
    | inl h ↦ rw (lookup-insert k j v left, h) refl
    | inr h ↦ rw (lookup-insert k j v left, h) refl
  ]

  -- The goods that the loop takes of a product in its branch; none in another. Where it takes any,
  -- there is as much left.
  take_stock-takes :
      (k b : String) (ps : List Priced) (n : ℕ) (left : Dict ℤ) (ms : List StockMovement)
      (sale_id : String)
      → take_stock new_id s branch_id now n left ps ≡ ok ms
      → (sum_where (stock_at k b) (λ (m : StockRow). m.qty_delta) (map (move_row new_id sale_id) ms)
          ≡ (if str_eq branch_id b then negate (sum_where (line_takes k) line_qty ps) else pos 0))
        × (any (line_takes k) ps ≡ true → sum_where (line_takes k) line_qty ps ≤ℤ left_of left k)
        × (any (line_takes k) ps ≡ false → sum_where (line_takes k) line_qty ps ≡ pos 0)
  unfolding take_stock
  take_stock-takes k b [] n left ms sale_id h =
      rw (← ok_inj h) (moved-nil (str_eq branch_id b), λ e. cc, λ e. refl)
  take_stock-takes k b (p ∷ ps) n left ms sale_id h = elim (Bool-cases p.product.track_stock) [
    | inl t ↦
        let pid = p.line.product_id in
        let q = p.line.qty_minor in
        let room = left_of left pid in
        let left' = insert pid (room -ℤ q) left in
        let (m, e, h1) =
          >>=-eq-ok (sell_from_stock (new_id n) pid branch_id q room now) _ (rw t at h) in
        let (rest, e1, h2) = >>=-eq-ok (take_stock new_id s branch_id now (suc n) left' ps) _ h1 in
        let (fits, of_product, of_branch, delta) = sell-taken _ pid branch_id q room now m e in
        let (moved, some_left, none_left) = take_stock-takes k b ps (suc n) left' rest sale_id e1 in
        let hit = str_eq pid k in
        let (some_here, none_here) =
          room-step hit (any (line_takes k) ps) q (sum_where (line_takes k) line_qty ps) room
            (left_of left k) (left_of left' k) (λ same. ap (left_of left) (str_eq→eq pid k same))
            fits (left_of-insert left pid k (room -ℤ q)) some_left none_left in
        rw
          (
            ← ok_inj h2,
            line_takes-tracked k p t,
            stock_at-row new_id k b sale_id m,
            of_product,
            of_branch,
          )
          (
            moved-step hit (str_eq branch_id b) q (sum_where (line_takes k) line_qty ps) _
                m.qty_delta delta moved,
            some_here,
            none_here,
          )
    | inr t ↦
        let (moved, some_left, none_left) = take_stock-takes k b ps n left ms sale_id (rw t at h) in
        rw (line_takes-untracked k p t, zero-+ℤ (sum_where (line_takes k) line_qty ps))
          (moved, some_left, none_left)
  ]

on_hand-post :
    (new_id : ℕ → String) (number : ℕ → String) (s : Store) (c : Settled) (k b : String)
    → on_hand (post_sale new_id number s c) k b
      ≡ on_hand s k b
        +ℤ sum_where
            (stock_at k b)
            (λ (m : StockRow). m.qty_delta)
            (map (move_row new_id (sale_id_of new_id s c)) c.moves)
unfolding on_hand post_sale
on_hand-post new_id number s c k b =
    sum_where-append (stock_at k b) (λ (m : StockRow). m.qty_delta) s.moves _

less :
    (here : Bool) (stock qty : ℤ)
    → stock +ℤ (if here then negate qty else pos 0) ≡ stock -ℤ (if here then qty else pos 0)
less true stock qty = omega int_laws
less false stock qty = omega int_laws

room_left : (stock qty : ℤ) → qty ≤ℤ stock → pos 0 ≤ℤ stock +ℤ negate qty
room_left stock qty h = omega (int_laws, h)

module _ (new_id : ℕ → String) (number : ℕ → String) (s : Store) (actor : User) (branch_id : String)
    (items : List SaleLineInput) (discount : ℤ) (payments : List PaymentInput)
    (shift_id customer_id : Option String) (now : ℤ) where
  passed-goods :
      (c : Settled) (k b sale_id : String)
      → Passes new_id s actor branch_id items discount payments shift_id customer_id now c
      → (sum_where
            (stock_at k b)
            (λ (m : StockRow). m.qty_delta)
            (map (move_row new_id sale_id) c.moves)
          ≡ (if str_eq branch_id b then negate (taken_qty s k items) else pos 0))
        × (any (takes s k) items ≡ true → taken_qty s k items ≤ℤ on_hand s k branch_id)
  unfolding lookup
  passed-goods c k b sale_id p =
      let (taken, anys) = price_lines-qty s k items p.lines p.found in
      let moves : p.moves ≡ c.moves = ap (λ (x : Settled). x.moves) p.same in
      let (moved, enough, none_left) =
        take_stock-takes new_id s branch_id now k b p.lines s.next [] p.moves sale_id p.goods in
      rw (← moves, ← taken, ← anys) (moved, enough)

  -- A settled sale takes from its branch what its lines sell of each product whose stock is
  -- tracked, and nothing of any other product or from any other branch. Of a product that it takes,
  -- the branch had enough: its stock does not fall below zero.
  pub settle_sale-on_hand :
      (after : Store) (product_id b : String)
      → settle_sale new_id number s actor branch_id items discount payments shift_id customer_id now
        ≡ ok after
      → (on_hand after product_id b
          ≡ on_hand s product_id b
            -ℤ (if str_eq branch_id b then taken_qty s product_id items else pos 0))
        × (any (takes s product_id) items ≡ true → pos 0 ≤ℤ on_hand after product_id branch_id)
  settle_sale-on_hand after k b h =
      let (c, p, e) =
        settle_sale-Passes new_id s actor branch_id items discount payments shift_id customer_id now
          number after h in
      let (here, enough) = passed-goods c k b (sale_id_of new_id s c) p in
      let (own, _) = passed-goods c k branch_id (sale_id_of new_id s c) p in
      rw
        (
          ← e,
          on_hand-post new_id number s c k b,
          on_hand-post new_id number s c k branch_id,
          here,
          own,
          eq_refl branch_id,
        )
        (
          less (str_eq branch_id b) (on_hand s k b) (taken_qty s k items),
          λ some_line. room_left (on_hand s k branch_id) (taken_qty s k items) (enough some_line),
        )
