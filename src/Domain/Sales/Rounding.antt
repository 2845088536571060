-- ===== src/Domain/Sales/Rounding.antt =====
-- `line_total_minor`, `line_total_fits` and the shares of a return: each amount is the exact
-- quotient rounded half away from zero.
use dukan_pro.Prelude.{
  ℕ, zero, suc, ◌+◌, ◌*◌, ◌/◌, ◌≤◌, ◌<◌, ◌≡◌, refl, ◌⊎◌, inl, inr, Bool, true, arith, leb→le,
}
use dukan_pro.Prelude.Int.{ℤ, pos, ◌*ℤ◌, ◌≤ℤ◌, negate, abs, ltb_ℤ}
use native.Mathlib.Decide.{dec_lt}
use native.Mathlib.Nat.{mul-le-mul_right, pow-suc, div-mul-le_self, div-add-mod', mod-lt}
use dukan_pro.Domain.Limits.{money_max_ℕ}
use dukan_pro.Domain.Sales.{scale, signed_as, line_total_minor, line_total_fits}

pub abs-signed_as : (b : Bool) (m : ℕ) → abs (signed_as b m) ≡ m
unfolding negate
abs-signed_as b m = ground arith

-- 10 ^ d is positive, and it is 1 or even.
pub scale_pos : (d : ℕ) → 0 < scale d
scale_pos zero = omega arith
scale_pos (suc d) = grind (arith, scale_pos d)

pub scale_half : (d : ℕ) → (scale d ≡ 1) ⊎ (2 * (scale d / 2) ≡ scale d)
scale_half zero = inl refl
scale_half (suc d) = inr (omega (arith, pow-suc 10 d))

-- What division by a positive number gives.
pub quotient_bounds : (x s : ℕ) → 0 < s → (x / s * s ≤ x) × (x < (x / s + 1) * s)
quotient_bounds x s p = (div-mul-le_self x s, omega (arith, div-add-mod' x s, mod-lt x p))

-- ⌊(m + ⌊s / 2⌋) / s⌋ is m / s rounded half up.
pub round_bounds :
    (m s : ℕ)
    → 0 < s
    → (s ≡ 1) ⊎ (2 * (s / 2) ≡ s)
    → (2 * ((m + s / 2) / s) * s ≤ 2 * m + s) × (2 * m < (2 * ((m + s / 2) / s) + 1) * s)
round_bounds m s p (inl one) = rw one (omega arith)
round_bounds m s p (inr even) = omega (arith, quotient_bounds (m + s / 2) s p)

-- ⌊(2 m + s) / (2 s)⌋ is m / s rounded half up, for every s.
pub half_up_bounds :
    (m s : ℕ)
    → 0 < s
    → let r = (2 * m + s) / (2 * s) in (2 * r * s ≤ 2 * m + s) × (2 * m < (2 * r + 1) * s)
half_up_bounds m s p = omega (arith, quotient_bounds (2 * m + s) (2 * s) (omega arith))

-- `r` is the quotient of `m` by `s`, rounded half up.
abbrev pub IsRounded : ℕ → ℕ → ℕ → Type 0
IsRounded r m s = (2 * r * s ≤ 2 * m + s) × (2 * m < (2 * r + 1) * s)

pub bounded : (r m s k : ℕ) → 0 < s → IsRounded r m s → m ≤ k * s → r ≤ k
bounded r m s k p h le = elim (dec_lt k r) [
  | yes more ↦ absurd (omega (arith, mul-le-mul_right s more))
  | no few ↦ omega arith
]

-- A line's money is price times quantity over the unit's scale, rounded half away from zero, with
-- the sign of the product.
pub line_total_minor-IsRounded :
    (price qty : ℤ) (places : ℕ)
    → let t = line_total_minor price qty places in
      IsRounded (abs t) (abs (price *ℤ qty)) (scale places)
      × (pos 0 ≤ℤ price *ℤ qty → pos 0 ≤ℤ t)
      × (price *ℤ qty ≤ℤ pos 0 → t ≤ℤ pos 0)
unfolding line_total_minor negate
line_total_minor-IsRounded price qty places = ground (
  arith,
  bounded ((abs (price *ℤ qty) + scale places / 2) / scale places) (abs (price *ℤ qty))
      (scale places) 0 (scale_pos places),
  round_bounds (abs (price *ℤ qty)) (scale places) (scale_pos places) (scale_half places),
  abs-signed_as (ltb_ℤ (price *ℤ qty) (pos 0))
      ((abs (price *ℤ qty) + scale places / 2) / scale places),
)

-- The rounded money of a line that `line_total_fits` accepts is at most MONEY_MAX either way.
pub line_total_fits-bounds :
    (price qty : ℤ) (places : ℕ)
    → line_total_fits price qty places ≡ true
    → abs (line_total_minor price qty places) ≤ money_max_ℕ
unfolding line_total_fits
line_total_fits-bounds price qty places fits =
    bounded (abs (line_total_minor price qty places)) (abs (price *ℤ qty)) (scale places)
      money_max_ℕ (scale_pos places) (line_total_minor-IsRounded price qty places).0
      (leb→le (abs (price *ℤ qty)) (money_max_ℕ * scale places) fits)
