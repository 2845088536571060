-- ===== src/Push/Grouping.antt =====
-- Where a push is split into groups: at each change of the transaction, and only there.
use dukan_pro.Prelude.{
  last, get_elem?, ℕ, suc, ◌+◌, ◌≡◌, ◌≢◌, refl, ap, sym, ◌∙◌, inl, inr, String, true, false, Option,
  none, some, List, [], ◌∷◌, ◌++◌, arith, All, Bool-cases, Option-cases,
}
use mathlib.Core.Path.{subst}
use mathlib.Core.Option.{some_inj}
use dukan_pro.Prelude.Text.{eq_refl, str_eq→eq}
use dukan_pro.Push.{tx_of, continues, joins, append_to_last, place, group_from, transactions}
use dukan_pro.Sync.Types.{OpInput}

-- A group is one operation, or several that carry one transaction's id.
abbrev pub Transaction : List OpInput → List ℕ → Type 0
Transaction ops [] = ⊥
Transaction ops (i ∷ []) = Unit
Transaction ops (i ∷ j ∷ group) = (tx : String) × All (λ k. tx_of ops k ≡ some tx) (i ∷ j ∷ group)

-- The last operation of a group and the first of the next are of no common transaction.
abbrev pub Apart : List OpInput → List ℕ → List ℕ → Type 0
Apart ops group [] = Unit
Apart ops group (j ∷ next) =
    (i : ℕ) (tx : String) → last group ≡ some i → tx_of ops i ≡ some tx → tx_of ops j ≢ some tx

abbrev pub Grouped : List OpInput → List (List ℕ) → Type 0
Grouped ops [] = Unit
Grouped ops (g ∷ []) = Transaction ops g
Grouped ops (g ∷ h ∷ gs) = Transaction ops g × Apart ops g h × Grouped ops (h ∷ gs)

All-last {ℓ} : (P : ℕ → Type ℓ) (xs : List ℕ) (j : ℕ) → All P xs → last xs ≡ some j → P j
All-last P [] j a e = cc
All-last P (x ∷ []) j a e = subst P (some_inj.0 e) a.0
All-last P (x ∷ y ∷ xs) j a e = All-last P (y ∷ xs) j a.1 e

All-snoc {ℓ} : (P : ℕ → Type ℓ) (xs : List ℕ) (i : ℕ) → All P xs → P i → All P (xs ++ (i ∷ []))
All-snoc P [] i a p = (p, tt)
All-snoc P (x ∷ xs) i a p = (a.0, All-snoc P xs i a.1 p)

-- An operation that continues another's group carries an id, which is the other's too.
continues-eq :
    (ops : List OpInput) (j : ℕ) (tx : Option String)
    → continues ops j tx ≡ true
    → (t : String) × (tx ≡ some t) × (tx_of ops j ≡ some t)
unfolding continues
continues-eq ops j none h = cc
continues-eq ops j (some t) h = elim (Option-cases (tx_of ops j)) [
  | inl e ↦ ground arith
  | inr (s, e) ↦ (t, refl, e ∙ ap some (str_eq→eq s t (ground (arith, e, h))))
]

module _ (ops : List OpInput) (i : ℕ) where
  Transaction-extend :
      (g : List ℕ) (j : ℕ) (t : String)
      → Transaction ops g
      → last g ≡ some j
      → tx_of ops j ≡ some t
      → tx_of ops i ≡ some t
      → Transaction ops (g ++ (i ∷ []))
  Transaction-extend [] j t w l ej ei = elim w [ ]
  Transaction-extend (k ∷ []) j t w l ej ei = (t, (ap (tx_of ops) (some_inj.0 l) ∙ ej, (ei, tt)))
  Transaction-extend (k ∷ m ∷ g) j t w l ej ei = (
    w.0,
    All-snoc (λ n. tx_of ops n ≡ some w.0) (k ∷ m ∷ g) i w.1
        (ei ∙ sym ej ∙ All-last (λ n. tx_of ops n ≡ some w.0) (k ∷ m ∷ g) j w.1 l),
  )

  Apart-append : (g h : List ℕ) → Transaction ops h → Apart ops g h → Apart ops g (h ++ (i ∷ []))
  Apart-append g [] w a = elim w [ ]
  Apart-append g (j ∷ h) w a = a

  appended-Grouped :
      (gs : List (List ℕ))
      → Grouped ops gs
      → joins ops gs (tx_of ops i) ≡ true
      → Grouped ops (append_to_last gs i)
  unfolding joins append_to_last
  appended-Grouped [] w h = cc
  appended-Grouped (g ∷ []) w h = elim (Option-cases (last g)) [
    | inl e ↦ ground arith
    | inr (j, e) ↦
        let (t, ei, ej) = continues-eq ops j (tx_of ops i) (ground arith) in
        Transaction-extend g j t w e ej ei
  ]
  appended-Grouped (g ∷ h ∷ []) (w, a, v) e =
      (w, Apart-append g h v a, appended-Grouped (h ∷ []) v e)
  appended-Grouped (g ∷ h ∷ k ∷ gs) (w, a, v) e = (w, a, appended-Grouped (h ∷ k ∷ gs) v e)

  added-Apart : (g : List ℕ) → joins ops (g ∷ []) (tx_of ops i) ≡ false → Apart ops g (i ∷ [])
  unfolding joins continues
  added-Apart g h j t l ej ei = ground (arith, eq_refl t)

  added-Grouped :
      (gs : List (List ℕ))
      → Grouped ops gs
      → joins ops gs (tx_of ops i) ≡ false
      → Grouped ops (gs ++ ((i ∷ []) ∷ []))
  unfolding joins
  added-Grouped [] w h = tt
  added-Grouped (g ∷ []) w h = (w, added-Apart g h, tt)
  added-Grouped (g ∷ h ∷ gs) (w, a, v) e = (w, a, added-Grouped (h ∷ gs) v e)

  place-Grouped : (gs : List (List ℕ)) → Grouped ops gs → Grouped ops (place ops gs i (tx_of ops i))
  unfolding place
  place-Grouped gs w = elim (Bool-cases (joins ops gs (tx_of ops i))) [
    | inl h ↦ rw h (appended-Grouped gs w h)
    | inr h ↦ rw h (added-Grouped gs w h)
  ]

tx_of-at :
    (ops : List OpInput) (i : ℕ) (op : OpInput) → get_elem? ops i ≡ some op → tx_of ops i ≡ op.tx_id
unfolding tx_of
tx_of-at ops i op h = ground (arith, h)

group_from-Grouped :
    (ops : List OpInput) (gs : List (List ℕ)) (i : ℕ) (rest : List OpInput)
    → ((k p : ℕ) → p ≡ i + k → get_elem? ops p ≡ get_elem? rest k)
    → Grouped ops gs
    → Grouped ops (group_from ops gs i rest)
unfolding group_from
group_from-Grouped ops gs i [] at w = w
group_from-Grouped ops gs i (op ∷ rest) at w =
    group_from-Grouped ops (place ops gs i op.tx_id) (suc i) rest
      (λ k p e. at (suc k) p (omega (arith, e)))
      (subst (λ tx. Grouped ops (place ops gs i tx)) (tx_of-at ops i op (at 0 i (omega arith)))
        (place-Grouped ops i gs w))

-- Each group of a push is one operation, or several that carry one transaction's id; and the last
-- operation of a group and the first of the next one never carry the same id.
pub transactions-Grouped : (ops : List OpInput) → Grouped ops (transactions ops)
unfolding transactions
transactions-Grouped ops =
    group_from-Grouped ops [] 0 ops (λ k p e. ap (get_elem? ops) (omega (arith, e))) tt
