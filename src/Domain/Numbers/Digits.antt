-- ===== src/Domain/Numbers/Digits.antt =====
-- Decimal digits: what `decimal` prints is made of digits, reads back, and is no longer than its
-- number needs.
use native.Mathlib.Nat.{pow-suc}
use dukan_pro.Prelude.{
  ℕ, zero, suc, ◌+◌, ◌-◌, ◌*◌, ◌/◌, ◌%◌, ◌^◌, ◌≤◌, ◌<◌, ◌≡◌, refl, ap, ◌∙◌, ◌≢◌, true, List, [],
  ◌∷◌, ◌++◌, arith, ltb, length, replicate, all, Bool-cases, inl, inr, length-append,
  length-replicate,
}
use dukan_pro.Domain.Numbers.{is_digit, int_from, decimal_on, decimal, rjust_zeros}

abbrev pub IsDigits : List ℕ → Type 0
IsDigits s = all is_digit s ≡ true

pub IsDigits-append : (a b : List ℕ) → IsDigits a → IsDigits b → IsDigits (a ++ b)
IsDigits-append [] b h k = k
IsDigits-append (c ∷ a) b h k = ground (arith, IsDigits-append a b)

pub IsDigits-replicate : (n : ℕ) → IsDigits (replicate n b'0')
unfolding is_digit
IsDigits-replicate zero = refl
IsDigits-replicate (suc n) = IsDigits-replicate n

digit_of : (n : ℕ) → n < 10 → is_digit (b'0' + n) ≡ true
unfolding is_digit
digit_of n h = ground arith

IsDigits-decimal_on : (f n : ℕ) (acc : List ℕ) → IsDigits acc → IsDigits (decimal_on f n acc)
unfolding decimal_on
IsDigits-decimal_on zero n acc h = h
IsDigits-decimal_on (suc f) n acc h =
    ground
      (arith, digit_of n, digit_of (n % 10), IsDigits-decimal_on f (n / 10) ((b'0' + n % 10) ∷ acc))

pub IsDigits-decimal : (n : ℕ) → IsDigits (decimal n)
unfolding decimal
IsDigits-decimal n = IsDigits-decimal_on (suc n) n [] refl

pub int_from-append : (n : ℕ) (a b : List ℕ) → int_from n (a ++ b) ≡ int_from (int_from n a) b
unfolding int_from
int_from-append n [] b = refl
int_from-append n (c ∷ a) b = int_from-append (n * 10 + (c - b'0')) a b

pub int_from-replicate : (k : ℕ) → int_from 0 (replicate k b'0') ≡ 0
unfolding int_from
int_from-replicate zero = refl
int_from-replicate (suc k) = int_from-replicate k

shifted : (n d p r : ℕ) → (n * 10 + d) * p + r ≡ n * (p * 10) + ((0 * 10 + d) * p + r)
shifted n d p r = omega arith

-- Reading on from `n` shifts `n` by the digits read.
pub int_from-shift : (n : ℕ) (s : List ℕ) → int_from n s ≡ n * 10 ^ length s + int_from 0 s
unfolding int_from
int_from-shift n [] = omega arith
int_from-shift n (c ∷ s) =
    let d = c - b'0' in
    let here : int_from (n * 10 + d) s ≡ (n * 10 + d) * 10 ^ length s + int_from 0 s =
      int_from-shift (n * 10 + d) s in
    let first : int_from (0 * 10 + d) s ≡ (0 * 10 + d) * 10 ^ length s + int_from 0 s =
      int_from-shift (0 * 10 + d) s in
    rw (here, first, pow-suc) (shifted n d (10 ^ length s) (int_from 0 s))

int_from-decimal_on :
    (f n : ℕ) (acc : List ℕ) → n < f → int_from 0 (decimal_on f n acc) ≡ int_from n acc
unfolding decimal_on int_from
int_from-decimal_on zero n acc h = elim h [ ]
int_from-decimal_on (suc f) n acc h = elim (Bool-cases (ltb n 10)) [
  | inl last ↦ rw last (ap (λ (k : ℕ). int_from k acc) (omega arith))
  | inr more ↦ rw more (
      int_from-decimal_on f (n / 10) ((b'0' + n % 10) ∷ acc) (ground arith)
      ∙ ap (λ (k : ℕ). int_from k acc) (omega arith))
]

-- `int(str(n)) == n`
pub int_from-decimal : (n : ℕ) → int_from 0 (decimal n) ≡ n
unfolding decimal int_from
int_from-decimal n = int_from-decimal_on (suc n) n [] (omega arith)

length-decimal_on :
    (f n k : ℕ) (acc : List ℕ) → n < 10 ^ suc k → length (decimal_on f n acc) ≤ length acc + suc k
unfolding decimal_on
length-decimal_on zero n k acc h = omega arith
length-decimal_on (suc f) n zero acc h = ground arith
length-decimal_on (suc f) n (suc k) acc h = ground (
  arith,
  length-decimal_on f (n / 10) k ((b'0' + n % 10) ∷ acc) (omega (arith, pow-suc 10 (suc k))),
)

pub length-decimal : (n k : ℕ) → n < 10 ^ suc k → length (decimal n) ≤ suc k
unfolding decimal
length-decimal n k h = omega (arith, length-decimal_on (suc n) n k [] h)

decimal_on-ne_nil : (f n : ℕ) (acc : List ℕ) → acc ≢ [] → decimal_on f n acc ≢ []
unfolding decimal_on
decimal_on-ne_nil zero n acc h = h
decimal_on-ne_nil (suc f) n acc h = elim (Bool-cases (ltb n 10)) [
  | inl last ↦ rw last (λ e. cc)
  | inr more ↦ rw more (decimal_on-ne_nil f (n / 10) ((b'0' + n % 10) ∷ acc) (λ e. cc))
]

pub decimal-ne_nil : (n : ℕ) → decimal n ≢ []
unfolding decimal decimal_on
decimal-ne_nil n = elim (Bool-cases (ltb n 10)) [
  | inl last ↦ rw last (λ e. cc)
  | inr more ↦ rw more (decimal_on-ne_nil n (n / 10) ((b'0' + n % 10) ∷ []) (λ e. cc))
]

-- A number below 10 ^ width, padded to the width, has that length and still reads as itself.
pub length-rjust_zeros :
    (n k : ℕ) → n < 10 ^ suc k → length (rjust_zeros (decimal n) (suc k)) ≡ suc k
unfolding rjust_zeros
length-rjust_zeros n k h =
    let zeros = suc k - length (decimal n) in
    omega (
      arith,
      length-append {A = ℕ} (replicate zeros b'0') (decimal n),
      length-replicate {A = ℕ} zeros b'0',
      length-decimal n k h,
    )

pub int_from-rjust_zeros : (n width : ℕ) → int_from 0 (rjust_zeros (decimal n) width) ≡ n
unfolding rjust_zeros
int_from-rjust_zeros n width =
    int_from-append 0 (replicate (width - length (decimal n)) b'0') (decimal n)
    ∙ ap (λ (z : ℕ). int_from z (decimal n)) (int_from-replicate (width - length (decimal n)))
    ∙ int_from-decimal n

pub IsDigits-rjust_zeros : (n width : ℕ) → IsDigits (rjust_zeros (decimal n) width)
unfolding rjust_zeros
IsDigits-rjust_zeros n width =
    IsDigits-append (replicate (width - length (decimal n)) b'0') (decimal n)
      (IsDigits-replicate (width - length (decimal n))) (IsDigits-decimal n)
