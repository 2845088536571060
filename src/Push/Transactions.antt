-- ===== src/Push/Transactions.antt =====
-- The positions that the groups of a push hold.
use dukan_pro.Prelude.{
  ℕ, zero, suc, ◌≡◌, refl, ap, sym, ◌∙◌, inl, inr, String, Option, List, [], ◌∷◌, ◌++◌, Bool-cases,
  length,
}
use mathlib.Core.List.{flatten, append_assoc, append-nil}
use dukan_pro.Push.{joins, append_to_last, place, group_from, transactions}
use dukan_pro.Sync.Types.{OpInput}

-- The positions from the first on, as many as that.
abbrev pub range : ℕ → ℕ → List ℕ
range first zero = []
range first (suc count) = first ∷ range (suc first) count

flatten-append_to_last :
    (g : List ℕ) (gs : List (List ℕ)) (i : ℕ)
    → flatten (append_to_last (g ∷ gs) i) ≡ flatten (g ∷ gs) ++ (i ∷ [])
unfolding flatten append_to_last
flatten-append_to_last g [] i =
    append-nil (g ++ (i ∷ [])) ∙ ap (λ l. l ++ (i ∷ [])) (sym (append-nil g))
flatten-append_to_last g (h ∷ gs) i =
    ap (λ l. g ++ l) (flatten-append_to_last h gs i)
    ∙ sym (append_assoc g (flatten (h ∷ gs)) (i ∷ []))

flatten-snoc :
    (gs : List (List ℕ)) (i : ℕ) → flatten (gs ++ ((i ∷ []) ∷ [])) ≡ flatten gs ++ (i ∷ [])
unfolding flatten
flatten-snoc [] i = refl
flatten-snoc (g ∷ gs) i =
    ap (λ l. g ++ l) (flatten-snoc gs i) ∙ sym (append_assoc g (flatten gs) (i ∷ []))

flatten-place :
    (ops : List OpInput) (gs : List (List ℕ)) (i : ℕ) (tx : Option String)
    → flatten (place ops gs i tx) ≡ flatten gs ++ (i ∷ [])
unfolding place joins
flatten-place ops [] i tx = flatten-snoc [] i
flatten-place ops (g ∷ gs) i tx = elim (Bool-cases (joins ops (g ∷ gs) tx)) [
  | inl h ↦ rw h (flatten-append_to_last g gs i)
  | inr h ↦ rw h (flatten-snoc (g ∷ gs) i)
]

flatten-group_from :
    (ops : List OpInput) (gs : List (List ℕ)) (i : ℕ) (rest : List OpInput)
    → flatten (group_from ops gs i rest) ≡ flatten gs ++ range i (length rest)
unfolding group_from
flatten-group_from ops gs i [] = sym (append-nil (flatten gs))
flatten-group_from ops gs i (op ∷ rest) =
    flatten-group_from ops (place ops gs i op.tx_id) (suc i) rest
    ∙ ap (λ l. l ++ range (suc i) (length rest)) (flatten-place ops gs i op.tx_id)
    ∙ append_assoc (flatten gs) (i ∷ []) (range (suc i) (length rest))

-- Each operation of a push is in exactly one group, and the groups keep the order in which the
-- device sent them: one after another, they are the positions from 0 on.
pub flatten-transactions : (ops : List OpInput) → flatten (transactions ops) ≡ range 0 (length ops)
unfolding transactions flatten
flatten-transactions ops = flatten-group_from ops [] 0 ops
