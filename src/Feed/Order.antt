-- ===== src/Feed/Order.antt =====
-- Pages of a feed that is in the order of seq: where one ends, the next begins.
use dukan_pro.Prelude.{
  take, last, ℕ, zero, suc, ◌≡◌, refl, ap, sym, ◌∙◌, inl, inr, true, false, some, List, [], ◌∷◌,
  ◌++◌, arith, All, Bool-cases, ltb→lt, ◌⊎◌,
}
use mathlib.Core.Option.{some_inj}
use mathlib.Core.Path.{subst}
use dukan_pro.Prelude.Int.{ℤ, pos, ltb_ℤ, eqb_ℤ, ◌<ℤ◌, ◌≤ℤ◌}
use dukan_pro.Feed.{Change, after, change_at}

-- The feed is in the order of seq, which counts from 1.
abbrev pub Ascending : List Change → Type 0
Ascending [] = Unit
Ascending (r ∷ feed) = (pos 0 <ℤ r.seq) × All (λ s. r.seq <ℤ s.seq) feed × Ascending feed

eqb_ℤ_refl : (a : ℤ) → eqb_ℤ a a ≡ true
eqb_ℤ_refl a = ground arith

eqb_ℤ-lt : (a b : ℤ) → a <ℤ b → eqb_ℤ a b ≡ false
eqb_ℤ-lt a b h = ground arith

All-zip {ℓ κ μ} :
    (P : Change → Type ℓ) (Q : Change → Type κ) (R : Change → Type μ) (rows : List Change)
    → ((r : Change) → P r → Q r → R r)
    → All P rows
    → All Q rows
    → All R rows
All-zip P Q R [] f a b = tt
All-zip P Q R (r ∷ rows) f a b = (f r a.0 b.0, All-zip P Q R rows f a.1 b.1)

pub All-positive : (feed : List Change) → Ascending feed → All (λ r. pos 0 <ℤ r.seq) feed
All-positive [] w = tt
All-positive (r ∷ feed) (p, _, w) = (p, All-positive feed w)

pub All-after {ℓ} :
    (P : Change → Type ℓ) (since : ℤ) (feed : List Change) → All P feed → All P (after since feed)
unfolding after
All-after P since [] a = tt
All-after P since (r ∷ feed) a = elim (Bool-cases (ltb_ℤ since r.seq)) [
  | inl h ↦ rw h (a.0, All-after P since feed a.1)
  | inr h ↦ rw h (All-after P since feed a.1)
]

pub All-last_take {ℓ} :
    (P : Change → Type ℓ) (n : ℕ) (rows : List Change) {r : Change}
    → All P rows
    → last (take n rows) ≡ some r
    → P r
All-last_take P zero rows a e = cc
All-last_take P (suc n) [] a e = cc
All-last_take P (suc zero) (x ∷ rows) a e = subst P (some_inj.0 e) a.0
All-last_take P (suc (suc n)) (x ∷ []) a e = subst P (some_inj.0 e) a.0
All-last_take P (suc (suc n)) (x ∷ y ∷ rows) a e = All-last_take P (suc n) (y ∷ rows) a.1 e

pub after-Ascending :
    (since : ℤ) (feed : List Change) → Ascending feed → Ascending (after since feed)
unfolding after
after-Ascending since [] w = tt
after-Ascending since (r ∷ feed) (p, a, w) = elim (Bool-cases (ltb_ℤ since r.seq)) [
  | inl h ↦ rw h (p, All-after (λ s. r.seq <ℤ s.seq) since feed a, after-Ascending since feed w)
  | inr h ↦ rw h (after-Ascending since feed w)
]

ltb_ℤ-lt : (a b : ℤ) → a <ℤ b → ltb_ℤ a b ≡ true
ltb_ℤ-lt a b h = ground arith

ltb_ℤ-le : (a b : ℤ) → b ≤ℤ a → ltb_ℤ a b ≡ false
ltb_ℤ-le a b h = ground arith

after-keep :
    (since : ℤ) (r : Change) (feed : List Change)
    → since <ℤ r.seq
    → after since (r ∷ feed) ≡ r ∷ after since feed
unfolding after
after-keep since r feed h = rw (ltb_ℤ-lt since r.seq h) refl

after-skip :
    (since : ℤ) (r : Change) (feed : List Change)
    → r.seq ≤ℤ since
    → after since (r ∷ feed) ≡ after since feed
unfolding after
after-skip since r feed h = rw (ltb_ℤ-le since r.seq h) refl

since-cases : (since later : ℤ) → (since <ℤ later) ⊎ (later ≤ℤ since)
since-cases since later = elim (Bool-cases (ltb_ℤ since later)) [
  | inl h ↦ inl (ltb→lt _ _ h)
  | inr h ↦ inr (ground arith)
]

pub All-since : (since : ℤ) (feed : List Change) → All (λ r. since <ℤ r.seq) (after since feed)
unfolding after
All-since since [] = tt
All-since since (r ∷ feed) = elim (Bool-cases (ltb_ℤ since r.seq)) [
  | inl h ↦ rw h (ltb→lt _ _ h, All-since since feed)
  | inr h ↦ rw h (All-since since feed)
]

after-All :
    (since : ℤ) (rows : List Change) → All (λ r. since <ℤ r.seq) rows → after since rows ≡ rows
unfolding after
after-All since [] a = refl
after-All since (r ∷ rows) a =
    after-keep since r rows a.0 ∙ ap (λ l. r ∷ l) (after-All since rows a.1)

-- What comes after a later seq comes after an earlier one.
pub after-after :
    (since later : ℤ) (feed : List Change)
    → since <ℤ later
    → after later (after since feed) ≡ after later feed
unfolding after
after-after since later [] h = refl
after-after since later (r ∷ feed) h = elim (since-cases since r.seq) [
  | inl e ↦ ap (after later) (after-keep since r feed e) ∙ (elim (since-cases later r.seq) [
    | inl f ↦
        after-keep later r (after since feed) f
        ∙ ap (λ l. r ∷ l) (after-after since later feed h)
        ∙ sym (after-keep later r feed f)
    | inr f ↦
        after-skip later r (after since feed) f
        ∙ after-after since later feed h
        ∙ sym (after-skip later r feed f)
  ])
  | inr e ↦
      ap (after later) (after-skip since r feed e)
      ∙ after-after since later feed h
      ∙ sym (after-skip later r feed (omega (arith, e, h)))
]

after-own :
    (r : Change) (rows : List Change)
    → All (λ s. r.seq <ℤ s.seq) rows
    → after r.seq (r ∷ rows) ≡ rows
after-own r rows a = after-skip r.seq r rows (omega arith) ∙ after-All r.seq rows a

-- Behind the last row of a page, rows that are in order go on.
pub page-rest :
    (n : ℕ) (rows : List Change) (r : Change)
    → Ascending rows
    → last (take n rows) ≡ some r
    → take n rows ++ after r.seq rows ≡ rows
page-rest zero rows r w e = cc
page-rest (suc n) [] r w e = cc
page-rest (suc zero) (x ∷ rows) r (p, a, w) e =
    subst (λ s. x ∷ after s.seq (x ∷ rows) ≡ x ∷ rows) (some_inj.0 e)
      (ap (λ l. x ∷ l) (after-own x rows a))
page-rest (suc (suc n)) (x ∷ []) r (p, a, w) e =
    subst (λ s. x ∷ after s.seq (x ∷ []) ≡ x ∷ []) (some_inj.0 e)
      (ap (λ l. x ∷ l) (after-own x [] a))
page-rest (suc (suc n)) (x ∷ y ∷ rows) r (p, a, w) e =
    let later = All-last_take (λ s. x.seq <ℤ s.seq) (suc n) (y ∷ rows) a e in
    ap (λ l. x ∷ l)
      (ap (λ l. take (suc n) (y ∷ rows) ++ l) (after-skip r.seq x (y ∷ rows) (omega (arith, later)))
        ∙ page-rest (suc n) (y ∷ rows) r w e)

-- A seq of the feed is found in it.
change_at-skip :
    (since : ℤ) (r : Change) (feed : List Change)
    → r.seq <ℤ since
    → change_at since (r ∷ feed) ≡ change_at since feed
unfolding change_at
change_at-skip since r feed h = rw (eqb_ℤ-lt r.seq since h) refl

change_at-own : (r : Change) (feed : List Change) → change_at r.seq (r ∷ feed) ≡ some r
unfolding change_at
change_at-own r feed = rw (eqb_ℤ_refl r.seq) refl

pub change_at-found :
    (feed : List Change) → Ascending feed → All (λ r. change_at r.seq feed ≡ some r) feed
change_at-found [] w = tt
change_at-found (r ∷ feed) (p, a, w) = (
  change_at-own r feed,
  All-zip (λ s. r.seq <ℤ s.seq) (λ s. change_at s.seq feed ≡ some s)
      (λ s. change_at s.seq (r ∷ feed) ≡ some s) feed
      (λ s later found. change_at-skip s.seq r feed later ∙ found) a (change_at-found feed w),
)
