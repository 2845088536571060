-- ===== src/Prelude/Quantifiers.antt =====
-- The Boolean quantifiers over lists: what they imply, and lists that were appended.
use mathlib.Core.Path.{◌≡◌, refl}
use mathlib.Core.Logic.{◌⊎◌, inl, inr}
use mathlib.Core.Bool.{Bool, true, false, ◌&&◌, ◌||◌}
use mathlib.Core.List.{List, [], ◌∷◌, ◌++◌}
use dukan_pro.Prelude.Lists.{any, all}

pub and_parts : (a b : Bool) → (a && b) ≡ true → (a ≡ true) × (b ≡ true)
and_parts true b h = (refl, h)
and_parts false b h = cc

pub and_true : {a b : Bool} → a ≡ true → b ≡ true → (a && b) ≡ true
and_true h k = rw (h, k) refl

pub or_cases : (a b : Bool) → (a || b) ≡ true → (a ≡ true) ⊎ (b ≡ true)
or_cases true b h = inl refl
or_cases false b h = inr h

pub or_false : (a : Bool) {b : Bool} → (a || b) ≡ false → (a ≡ false) × (b ≡ false)
or_false true h = cc
or_false false h = (refl, h)

pub or_right : (a : Bool) {b : Bool} → b ≡ true → (a || b) ≡ true
or_right true h = refl
or_right false h = h

module _ {ℓ} {A : Type ℓ} where
  pub any_mono :
      (p q : A → Bool) (xs : List A)
      → ((x : A) → p x ≡ true → q x ≡ true)
      → any p xs ≡ true
      → any q xs ≡ true
  any_mono p q [] h e = e
  any_mono p q (x ∷ xs) h e = elim (or_cases (p x) (any p xs) e) [
    | inl here ↦ rw (h x here) refl
    | inr there ↦ or_right (q x) (any_mono p q xs h there)
  ]

  pub all_mono :
      (p q : A → Bool) (xs : List A)
      → ((x : A) → p x ≡ true → q x ≡ true)
      → all p xs ≡ true
      → all q xs ≡ true
  all_mono p q [] h e = e
  all_mono p q (x ∷ xs) h e =
      let (here, there) = and_parts (p x) (all p xs) e in
      and_true (h x here) (all_mono p q xs h there)

  pub any-append_left : (p : A → Bool) (xs ys : List A) → any p xs ≡ true → any p (xs ++ ys) ≡ true
  any-append_left p [] ys e = cc
  any-append_left p (x ∷ xs) ys e = elim (or_cases (p x) (any p xs) e) [
    | inl here ↦ rw here refl
    | inr there ↦ or_right (p x) (any-append_left p xs ys there)
  ]

  pub any-append_right : (p : A → Bool) (xs ys : List A) → any p ys ≡ true → any p (xs ++ ys) ≡ true
  any-append_right p [] ys e = e
  any-append_right p (x ∷ xs) ys e = or_right (p x) (any-append_right p xs ys e)

  pub all-append :
      (p : A → Bool) (xs ys : List A) → all p xs ≡ true → all p ys ≡ true → all p (xs ++ ys) ≡ true
  all-append p [] ys e f = f
  all-append p (x ∷ xs) ys e f =
      let (here, there) = and_parts (p x) (all p xs) e in and_true here (all-append p xs ys there f)
