-- ===== src/SalesService/Refunds/Goods.antt =====
-- What a return puts back into stock.
use dukan_pro.Prelude.{
  ℕ, suc, String, ◌≡◌, refl, ap, sym, ◌∙◌, inl, inr, Bool, true, false, ◌&&◌, Option, some, List,
  [], ◌∷◌, any, Bool-cases, if◌then◌else◌,
}
use dukan_pro.Prelude.Int.{ℤ, pos, ◌+ℤ◌, ◌-ℤ◌, int_laws, zero-+ℤ, +ℤ_assoc, +ℤ-zero}
use dukan_pro.Prelude.Text.{str_eq, str_eq→eq}
use dukan_pro.Prelude.Dict.{Dict, lookup, insert}
use dukan_pro.Errors.{ok}
use dukan_pro.Domain.Identity.{User}
use dukan_pro.Store.{Store, Sale, StockRow, LineRow}
use dukan_pro.Store.Queries.{sum_where, get_or_zero, stock_at, on_hand, first, sale_with}
use dukan_pro.Store.Sums.{sum_where-append}
use dukan_pro.SalesService.Refunds.{
  RefundLineInput, tally_wanted, took, refund_moves, Refund, post_refund, refund_sale,
}
use dukan_pro.SalesService.Refunds.Passed.{refund_sale-Returns}

abbrev pub wants : String → RefundLineInput → Bool
wants product_id i = str_eq i.product_id product_id

-- How much of a product the return wants back.
abbrev pub wanted_qty : String → List RefundLineInput → ℤ
wanted_qty product_id items =
    sum_where (wants product_id) (λ (i : RefundLineInput). i.qty_minor) items

abbrev keyed : String → String × ℤ → Bool
keyed k e = str_eq e.0 k

abbrev total_under : String → Dict ℤ → ℤ
total_under k d = sum_where (keyed k) (λ (e : String × ℤ). e.1) d

swap : (a b c : ℤ) → a +ℤ (b +ℤ c) ≡ b +ℤ (a +ℤ c)
swap a b c = omega int_laws

change : (old added : ℤ) → old +ℤ added -ℤ old ≡ added
change old added = omega int_laws

first_one :
    (own : Bool) (w : ℤ)
    → (if own then w else pos 0) +ℤ pos 0 ≡ (if own then w -ℤ pos 0 else pos 0) +ℤ pos 0
first_one true w = omega int_laws
first_one false w = refl

replaced :
    (own : Bool) (old w rest : ℤ)
    → (if own then w else pos 0) +ℤ rest
      ≡ (if own then w -ℤ old else pos 0) +ℤ ((if own then old else pos 0) +ℤ rest)
replaced true old w rest = omega int_laws
replaced false old w rest = omega int_laws

-- A new value changes the total under its key by the difference, and no other.
total_under-insert :
    (k j : String) (w : ℤ) (d : Dict ℤ)
    → total_under k (insert j w d)
      ≡ (if str_eq j k then w -ℤ get_or_zero j d else pos 0) +ℤ total_under k d
unfolding insert lookup
total_under-insert k j w [] = first_one (str_eq j k) w
total_under-insert k j w ((i, v) ∷ d) = elim (Bool-cases (str_eq i j)) [
  | inl same ↦ rw (same, str_eq→eq i j same) (replaced (str_eq j k) v w (total_under k d))
  | inr other ↦ rw other (
      ap (λ n. (if str_eq i k then v else pos 0) +ℤ n) (total_under-insert k j w d)
      ∙ swap (if str_eq i k then v else pos 0) (if str_eq j k then w -ℤ get_or_zero j d else pos 0)
          (total_under k d))
]

tally_wanted-qty :
    (k : String) (d : Dict ℤ) (items : List RefundLineInput)
    → total_under k (tally_wanted d items) ≡ wanted_qty k items +ℤ total_under k d
unfolding tally_wanted
tally_wanted-qty k d [] = sym (zero-+ℤ (total_under k d))
tally_wanted-qty k d (i ∷ items) =
    tally_wanted-qty k (insert i.product_id (get_or_zero i.product_id d +ℤ i.qty_minor) d) items
    ∙ (rw
        (
          total_under-insert k i.product_id (get_or_zero i.product_id d +ℤ i.qty_minor) d,
          change (get_or_zero i.product_id d) i.qty_minor,
        )
        (swap (wanted_qty k items) (if wants k i then i.qty_minor else pos 0) (total_under k d)
          ∙ sym (
              +ℤ_assoc (if wants k i then i.qty_minor else pos 0) (wanted_qty k items)
                (total_under k d))))

abbrev delta : StockRow → ℤ
delta m = m.qty_delta

-- The sale took the product from stock, and from the branch.
abbrev pub took_in : Store → Sale → String → String → Bool
took_in s sale product_id branch_id =
    any (took sale.id product_id) s.moves && str_eq sale.branch_id branch_id

comes_back :
    (own took here : Bool) (q rest : ℤ)
    → (own ≡ true → took ≡ true)
    → (if own && here && true then q else pos 0) +ℤ (if took && here then rest else pos 0)
      ≡ (if took && here then (if own then q else pos 0) +ℤ rest else pos 0)
comes_back true true true q rest h = refl
comes_back true true false q rest h = zero-+ℤ (pos 0)
comes_back true false here q rest h = let e = h refl in cc
comes_back false true true q rest h = refl
comes_back false true false q rest h = zero-+ℤ (pos 0)
comes_back false false here q rest h = zero-+ℤ (pos 0)

stays_away :
    (own took here : Bool) (q rest : ℤ)
    → (own ≡ true → took ≡ false)
    → (if took && here then rest else pos 0)
      ≡ (if took && here then (if own then q else pos 0) +ℤ rest else pos 0)
stays_away own false here q rest h = refl
stays_away own true false q rest h = refl
stays_away false true true q rest h = sym (zero-+ℤ rest)
stays_away true true true q rest h = let e = h refl in cc

nothing_under : (took : Bool) → pos 0 ≡ (if took then pos 0 else pos 0)
nothing_under true = refl
nothing_under false = refl

refund_moves-sum :
    (new_id : ℕ → String) (n : ℕ) (refund_id : String) (s : Store) (sale : Sale) (k b : String)
    (wanted : Dict ℤ)
    → sum_where (stock_at k b) delta (refund_moves new_id n refund_id s sale wanted)
      ≡ (if took_in s sale k b then total_under k wanted else pos 0)
unfolding refund_moves
refund_moves-sum new_id n refund_id s sale k b [] = nothing_under (took_in s sale k b)
refund_moves-sum new_id n refund_id s sale k b ((p, q) ∷ wanted) =
    elim (Bool-cases (any (took sale.id p) s.moves)) [
      | inl moved ↦
          rw (moved, refund_moves-sum new_id (suc n) refund_id s sale k b wanted)
            (comes_back (str_eq p k) (any (took sale.id k) s.moves) (str_eq sale.branch_id b) q
              (total_under k wanted)
              (λ own. ap (λ j. any (took sale.id j) s.moves) (sym (str_eq→eq p k own)) ∙ moved))
      | inr kept ↦
          rw (kept, refund_moves-sum new_id n refund_id s sale k b wanted)
            (stays_away (str_eq p k) (any (took sale.id k) s.moves) (str_eq sale.branch_id b) q
              (total_under k wanted)
              (λ own. ap (λ j. any (took sale.id j) s.moves) (sym (str_eq→eq p k own)) ∙ kept))
    ]

on_hand-post :
    (new_id number : ℕ → String) (s : Store) (r : Refund) (lines : List LineRow) (k b : String)
    → on_hand (post_refund new_id number s r lines) k b
      ≡ on_hand s k b +ℤ (if took_in s r.sale k b then total_under k r.wanted else pos 0)
unfolding on_hand post_refund
on_hand-post new_id number s r lines k b =
    sum_where-append (stock_at k b) delta s.moves _
    ∙ ap (λ n. on_hand s k b +ℤ n) (refund_moves-sum new_id _ (new_id s.next) s r.sale k b r.wanted)

-- A return puts back into the sale's branch what it wants back of each product that the sale took
-- from stock, and nothing of any other product or anywhere else.
pub refund_sale-on_hand :
    (new_id number : ℕ → String) (s after : Store) (actor : User) (sale_id : String)
    (items : List RefundLineInput) (reason method : String) (shift_id : Option String)
    → refund_sale new_id number s actor sale_id items reason method shift_id ≡ ok after
    → (sale : Sale) × (first (sale_with sale_id) s.sales ≡ some sale)
      × ((product_id branch_id : String)
          → on_hand after product_id branch_id
            ≡ on_hand s product_id branch_id
              +ℤ (if took_in s sale product_id branch_id
                  then wanted_qty product_id items
                  else pos 0))
refund_sale-on_hand new_id number s after actor sale_id items reason method shift_id h =
    let (r, lines, p, e) =
      refund_sale-Returns new_id number s after actor sale_id items reason method shift_id h in
    let qty = λ (k : String). tally_wanted-qty k [] items ∙ +ℤ-zero (wanted_qty k items) in
    (
      r.sale,
      p.stored,
      λ k b. rw (← e, ← qty k, ← p.wants) (on_hand-post new_id number s r lines k b),
    )
