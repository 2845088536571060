-- ===== src/Domain/Sales/Returns.antt =====
-- `returned_value_minor` and `refund_total_minor`: the shares of a return.
use mathlib.Core.Path.{ap₂}
use native.Mathlib.Decide.{dec_lt}
use native.Mathlib.Nat.{mul-le-mul_left, mul-le-mul_right}
use dukan_pro.Prelude.{ℕ, zero, suc, ◌+◌, ◌*◌, ◌/◌, ◌≤◌, ◌<◌, ◌≡◌, ap, arith}
use dukan_pro.Prelude.Int.{ℤ, pos, negsuc, ◌*ℤ◌, ◌-ℤ◌, ◌≤ℤ◌, ◌<ℤ◌, abs, pos_part, int_laws}
use dukan_pro.Domain.Sales.{div_round_half_up, returned_value_minor, refund_total_minor}
use dukan_pro.Domain.Sales.Rounding.{IsRounded, half_up_bounds, bounded}

pos-* : (a b : ℕ) → pos a *ℤ pos b ≡ pos (a * b)
unfolding ◌*ℤ◌
pos-* a b = ground arith

-- A rounded quotient that is at least `k` exactly is at least `k`.
reached : (r m s k : ℕ) → 0 < s → IsRounded r m s → k * s ≤ m → k ≤ r
reached r m s k p h le = elim (dec_lt r k) [
  | yes less ↦ absurd (omega (arith, mul-le-mul_right s less))
  | no more ↦ omega arith
]

div_round_half_up-pos :
    (m s : ℕ) → 0 < s → (r : ℕ) × (div_round_half_up (pos m) s ≡ pos r) × IsRounded r m s
unfolding div_round_half_up
div_round_half_up-pos m s p = ((2 * m + s) / (2 * s), ground arith, half_up_bounds m s p)

abs-pos : (n : ℕ) → abs (pos n) ≡ n
abs-pos n = omega arith

-- A rounded quotient that comes out even.
exact : (r m s k : ℕ) → 0 < s → IsRounded r m s → m ≡ k * s → pos r ≡ pos k
exact r m s k p b e =
    ap pos (omega (arith, bounded r m s k p b (omega arith), reached r m s k p b (omega arith)))

returned_value_minor-pos :
    (t s q : ℕ)
    → 0 < s
    → (r : ℕ) × (returned_value_minor (pos t) (pos s) (pos q) ≡ pos r) × IsRounded r (t * q) s
unfolding returned_value_minor
returned_value_minor-pos t s q p =
    let (r, e, b) = div_round_half_up-pos (t * q) s p in
    (r, rw (pos-* t q, abs-pos s) (ground (arith, e)), b)

-- A part of the goods is worth the same part of the line's money, rounded half up: never less than
-- nothing or more than the line, and all of them are worth the line exactly.
pub returned_value_minor-bounds :
    (total sold returned : ℤ)
    → pos 0 ≤ℤ total
    → pos 0 <ℤ sold
    → pos 0 ≤ℤ returned
    → returned ≤ℤ sold
    → let v = returned_value_minor total sold returned in
      (pos 0 ≤ℤ v)
      × (v ≤ℤ total)
      × IsRounded (abs v) (abs total * abs returned) (abs sold)
      × (returned ≡ sold → v ≡ total)
returned_value_minor-bounds (pos t) (pos s) (pos q) ht hs hq le =
    let p : 0 < s = omega arith in
    let (r, e, b) = returned_value_minor-pos t s q p in
    let part : t * q ≤ t * s = mul-le-mul_left t (omega arith) in
    rw e (
      omega arith,
      omega (arith, bounded r (t * q) s t p b part),
      (omega arith, omega arith),
      λ same. exact r (t * q) s t p b (ap (λ (x : ℤ). t * pos_part x) same),
    )
returned_value_minor-bounds (negsuc t) s q ht hs hq le = absurd (omega arith)
returned_value_minor-bounds (pos t) (negsuc s) q ht hs hq le = absurd (omega arith)
returned_value_minor-bounds (pos t) (pos s) (negsuc q) ht hs hq le = absurd (omega arith)

minus_zero : (g : ℕ) → pos g ≡ pos g -ℤ pos 0
unfolding ◌-ℤ◌
minus_zero g = ground arith

share-eq : (g r : ℕ) → r ≤ g → abs (pos g -ℤ (pos g -ℤ pos r)) ≡ r
unfolding ◌-ℤ◌
share-eq g r le = ground arith

refund_total_minor-pos :
    (g s d : ℕ)
    → 0 < s
    → (share : ℕ) × (refund_total_minor (pos g) (pos s) (pos d) ≡ pos g -ℤ pos share)
      × IsRounded share (d * g) s
unfolding refund_total_minor
refund_total_minor-pos g s zero p = (0, ground (arith, minus_zero g), omega arith)
refund_total_minor-pos g s (suc d) p =
    let (r, e, b) = div_round_half_up-pos (suc d * g) s p in
    (r, rw (pos-* (suc d) g, abs-pos s) (ground (arith, e)), b)

-- A return gives back its goods' value less their share of the sale's discount: never less than
-- nothing or more than the value, and the whole sale's return gives back what the sale cost.
pub refund_total_minor-bounds :
    (gross subtotal discount : ℤ)
    → pos 0 ≤ℤ gross
    → gross ≤ℤ subtotal
    → pos 0 <ℤ subtotal
    → pos 0 ≤ℤ discount
    → discount ≤ℤ subtotal
    → let back = refund_total_minor gross subtotal discount in
      (pos 0 ≤ℤ back)
      × (back ≤ℤ gross)
      × IsRounded (abs (gross -ℤ back)) (abs discount * abs gross) (abs subtotal)
      × (gross ≡ subtotal → back ≡ subtotal -ℤ discount)
refund_total_minor-bounds (pos g) (pos s) (pos d) hg le hs hd ld =
    let p : 0 < s = omega arith in
    let (r, e, b) = refund_total_minor-pos g s d p in
    let most : d * g ≤ s * g = mul-le-mul_right g (omega arith) in
    let capped : r ≤ g = bounded r (d * g) s g p b (omega arith) in
    rw e (
      omega int_laws,
      omega int_laws,
      rw (share-eq g r capped) (omega arith, omega arith),
      λ same. ap₂ ◌-ℤ◌ same (exact r (d * g) s d p b (ap (λ (x : ℤ). d * pos_part x) same)),
    )
refund_total_minor-bounds (negsuc g) s d hg le hs hd ld = absurd (omega arith)
refund_total_minor-bounds (pos g) (negsuc s) d hg le hs hd ld = absurd (omega arith)
refund_total_minor-bounds (pos g) (pos s) (negsuc d) hg le hs hd ld = absurd (omega arith)
