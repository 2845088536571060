-- ===== src/Domain/Numbers/RoundTrip.antt =====
-- `parse_scaled` reads back what `format_quantity` prints.
use mathlib.Core.List.{append-nil}
use native.Mathlib.Nat.{div-add-mod', mod-lt, one-le-pow}
use dukan_pro.Prelude.{
  ℕ, zero, suc, ◌-◌, ◌/◌, ◌%◌, ◌^◌, ◌≤◌, ◌≡◌, refl, ap, ◌∙◌, ◌≢◌, Bool, true, false, ◌||◌, Option,
  none, some, List, [], ◌∷◌, ◌++◌, map, arith, ◌==◌, length, all, if◌then◌else◌,
}
use dukan_pro.Prelude.Int.{ℤ, pos, negsuc, negate, abs}
use dukan_pro.Domain.Limits.{money_max_ℕ}
use dukan_pro.Domain.Numbers.{
  Parsed, value, is_digit, to_ascii, is_trimmed, strip_start, strip_end, normalize_digits,
  take_sign, split_point, match_whole, match_frac, int_from, scaled, parse_groups, parse_scaled,
  decimal, rjust_zeros, minus_if, format_magnitude, format_quantity,
}
use dukan_pro.Domain.Numbers.Digits.{
  IsDigits, int_from-append, int_from-shift, int_from-decimal, IsDigits-decimal, decimal-ne_nil,
  length-rjust_zeros, int_from-rjust_zeros, IsDigits-rjust_zeros,
}

-- The characters that are printed: digits, the point and the minus.
is_plain : ℕ → Bool
unfolding is_digit
is_plain c = is_digit c || (c == b'.') || (c == b'-')

plain-to_ascii : (c : ℕ) → is_plain c ≡ true → to_ascii c ≡ c
unfolding is_plain to_ascii
plain-to_ascii c h = ground arith

plain-is_trimmed : (c : ℕ) → is_plain c ≡ true → is_trimmed c ≡ false
unfolding is_plain is_trimmed
plain-is_trimmed c h = ground arith

digit-plain : (c : ℕ) → is_digit c ≡ true → is_plain c ≡ true
unfolding is_plain
digit-plain c h = ground arith

IsPlain : List ℕ → Type 0
IsPlain s = all is_plain s ≡ true

digits-IsPlain : (s rest : List ℕ) → IsDigits s → IsPlain rest → IsPlain (s ++ rest)
unfolding IsPlain
digits-IsPlain [] rest h k = k
digits-IsPlain (c ∷ s) rest h k = ground (arith, digit-plain c, digits-IsPlain s rest)

strip_end-plain : (s : List ℕ) → IsPlain s → strip_end is_trimmed s ≡ s
unfolding IsPlain strip_end
strip_end-plain [] h = refl
strip_end-plain (c ∷ s) h = ground (arith, plain-is_trimmed c, strip_end-plain s)

map-to_ascii : (s : List ℕ) → IsPlain s → map to_ascii s ≡ s
unfolding IsPlain
map-to_ascii [] h = refl
map-to_ascii (c ∷ s) h = ground (arith, plain-to_ascii c, map-to_ascii s)

strip_start-plain : (s : List ℕ) → IsPlain s → strip_start is_trimmed s ≡ s
unfolding IsPlain strip_start
strip_start-plain [] h = refl
strip_start-plain (c ∷ s) h = ground (arith, plain-is_trimmed c)

normalize_digits-plain : (s : List ℕ) → IsPlain s → normalize_digits s ≡ s
unfolding normalize_digits
normalize_digits-plain s h = rw (strip_start-plain s h, strip_end-plain s h) (map-to_ascii s h)

digit-ne_point : (c : ℕ) → is_digit c ≡ true → (c == b'.') ≡ false
unfolding is_digit
digit-ne_point c h = ground arith

digit-ne_minus : (c : ℕ) → is_digit c ≡ true → (c == b'-') ≡ false
unfolding is_digit
digit-ne_minus c h = ground arith

-- The text behind the digits of the whole part.
point_and : Option (List ℕ) → List ℕ
point_and none = []
point_and (some frac) = b'.' ∷ frac

split_point-digits :
    (s : List ℕ) (behind : Option (List ℕ))
    → IsDigits s
    → split_point (s ++ point_and behind) ≡ (s, behind)
unfolding split_point point_and
split_point-digits [] none h = refl
split_point-digits [] (some frac) h = refl
split_point-digits (c ∷ s) behind h =
    let p : is_digit c ≡ true = ground arith in
    let q : IsDigits s = ground arith in rw (digit-ne_point c p, split_point-digits s behind q)

take_sign-minus_if :
    (negative : Bool) (c : ℕ) (s : List ℕ)
    → is_digit c ≡ true
    → take_sign (minus_if negative (c ∷ s)) ≡ (negative, c ∷ s)
unfolding take_sign
take_sign-minus_if true c s h = refl
take_sign-minus_if false c s h = rw (digit-ne_minus c h)

IsPlain-minus_if : (negative : Bool) (s : List ℕ) → IsPlain s → IsPlain (minus_if negative s)
unfolding IsPlain is_plain
IsPlain-minus_if true s h = h
IsPlain-minus_if false s h = h

IsPlain-digits : (s : List ℕ) → IsDigits s → IsPlain s
unfolding IsPlain
IsPlain-digits [] h = refl
IsPlain-digits (c ∷ s) h = ground (arith, digit-plain c, IsPlain-digits s)

IsPlain-point_and : (s : List ℕ) → IsDigits s → IsPlain (point_and (some s))
unfolding IsPlain is_plain point_and is_digit
IsPlain-point_and s h = unfold IsPlain in IsPlain-digits s h

-- How a printed text is read: its sign, its whole part and what stands behind.
parse-printed :
    (negative : Bool) (c : ℕ) (s : List ℕ) (behind : Option (List ℕ)) (places : ℕ)
    → IsDigits (c ∷ s)
    → IsPlain (point_and behind)
    → parse_scaled (minus_if negative (c ∷ (s ++ point_and behind))) places
      ≡ parse_groups negative (match_whole (c ∷ s)) (match_frac behind) places
unfolding parse_scaled
parse-printed negative c s behind places h k =
    let first : is_digit c ≡ true = ground arith in
    rw (
      normalize_digits-plain (minus_if negative (c ∷ (s ++ point_and behind))) (
          IsPlain-minus_if negative (c ∷ (s ++ point_and behind))
            (digits-IsPlain (c ∷ s) (point_and behind) h k)),
      take_sign-minus_if negative c (s ++ point_and behind) first,
      split_point-digits (c ∷ s) behind h,
    )

-- The magnitude that is read, with its sign.
abbrev signed_value : Bool → ℕ → Parsed
signed_value negative m = value (if negative then negate (pos m) else pos m)

scaled-in_range :
    (negative : Bool) (c : ℕ) (s frac : List ℕ)
    → int_from 0 ((c ∷ s) ++ frac) ≤ money_max_ℕ
    → scaled negative (c ∷ s) frac (length frac)
      ≡ signed_value negative (int_from 0 ((c ∷ s) ++ frac))
unfolding scaled
scaled-in_range negative c s frac le =
    let all_typed : length frac - length frac ≡ 0 = omega arith in
    rw (all_typed, append-nil) (ground (arith, le))

-- A printed whole number, and a printed number with as many digits behind the point as its unit
-- has places, read back.
read_whole :
    (negative : Bool) (whole : List ℕ)
    → whole ≢ []
    → IsDigits whole
    → int_from 0 whole ≤ money_max_ℕ
    → parse_scaled (minus_if negative whole) 0 ≡ signed_value negative (int_from 0 whole)
unfolding point_and match_whole match_frac parse_groups IsPlain
read_whole negative [] ne h le = absurd (ne refl)
read_whole negative (c ∷ s) ne h le =
    rw append-nil at (parse-printed negative c s none 0 h refl)
    ∙ rw h ((rw append-nil at (scaled-in_range negative c s [] (rw append-nil le))))

read_point :
    (negative : Bool) (whole frac : List ℕ) (places : ℕ)
    → whole ≢ []
    → frac ≢ []
    → IsDigits whole
    → IsDigits frac
    → length frac ≡ places
    → int_from 0 (whole ++ frac) ≤ money_max_ℕ
    → parse_scaled (minus_if negative (whole ++ (b'.' ∷ frac))) places
      ≡ signed_value negative (int_from 0 (whole ++ frac))
unfolding point_and match_whole match_frac parse_groups
read_point negative [] frac places ne nf h k e le = absurd (ne refl)
read_point negative (c ∷ s) [] places ne nf h k e le = absurd (nf refl)
read_point negative (c ∷ s) (d ∷ frac) places ne nf h k e le =
    parse-printed negative c s (some (d ∷ frac)) places h (IsPlain-point_and (d ∷ frac) k)
    ∙ rw (h, k, ← e) (scaled-in_range negative c s (d ∷ frac) le)

-- Whole part and fraction, put together, read as the magnitude.
joined_parts :
    (m p : ℕ)
    → length (rjust_zeros (decimal (m % 10 ^ suc p)) (suc p)) ≡ suc p
    → int_from 0 (decimal (m / 10 ^ suc p) ++ rjust_zeros (decimal (m % 10 ^ suc p)) (suc p)) ≡ m
joined_parts m p long =
    int_from-append 0 (decimal (m / 10 ^ suc p)) (rjust_zeros (decimal (m % 10 ^ suc p)) (suc p))
    ∙ rw
        (
          int_from-decimal (m / 10 ^ suc p),
          int_from-shift,
          long,
          int_from-rjust_zeros (m % 10 ^ suc p) (suc p),
        )
        (div-add-mod' m (10 ^ suc p))

format_magnitude-parse :
    (negative : Bool) (m places : ℕ)
    → m ≤ money_max_ℕ
    → parse_scaled (format_magnitude negative m places) places ≡ signed_value negative m
unfolding format_magnitude
format_magnitude-parse negative m zero le = rw (int_from-decimal m) at (
    read_whole negative (decimal m) (decimal-ne_nil m) (IsDigits-decimal m)
      (rw (int_from-decimal m) le))
format_magnitude-parse negative m (suc p) le =
    let whole = decimal (m / 10 ^ suc p) in
    let frac = rjust_zeros (decimal (m % 10 ^ suc p)) (suc p) in
    let long : length frac ≡ suc p =
      length-rjust_zeros (m % 10 ^ suc p) p (mod-lt m (one-le-pow (suc p) 10 (omega arith))) in
    let joined : int_from 0 (whole ++ frac) ≡ m = joined_parts m p long in
    rw joined at (
      read_point negative whole frac (suc p) (decimal-ne_nil (m / 10 ^ suc p))
        (λ e. absurd (omega (arith, ap (length {A = ℕ}) e, long)))
        (IsDigits-decimal (m / 10 ^ suc p)) (IsDigits-rjust_zeros (m % 10 ^ suc p) (suc p)) long
        (rw joined le))

negate-suc : (n : ℕ) → negate (pos (suc n)) ≡ negsuc n
unfolding negate
negate-suc n = ground arith

-- A quantity that `format_quantity` prints, with as many places as its unit has, reads back as
-- itself: no amount up to MONEY_MAX, of either sign, is changed by being shown and typed again.
pub format_quantity-parse :
    (minor : ℤ) (places : ℕ)
    → abs minor ≤ money_max_ℕ
    → parse_scaled (format_quantity minor places) places ≡ value minor
unfolding format_quantity
format_quantity-parse (pos n) places le = format_magnitude-parse false n places (omega arith)
format_quantity-parse (negsuc n) places le =
    format_magnitude-parse true (suc n) places (omega arith) ∙ ap value (negate-suc n)
