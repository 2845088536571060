-- ===== src/SyncService/Results.antt =====
-- The results of a push by position: which positions have one, and whether it names the operation
-- there.
use dukan_pro.Prelude.{
  ℕ, suc, ◌+◌, Bool, true, not, ◌≡◌, refl, ap, sym, ◌∙◌, inl, inr, some, is_some, List, [], ◌∷◌,
  ◌++◌, map, length, ◌==◌, get_elem?, Bool-cases, Option-cases, arith,
}
use mathlib.Core.Option.{some_inj}
use dukan_pro.Store.Queries.{select, first}
use dukan_pro.Sync.Types.{OpInput}
use dukan_pro.Push.Transactions.{range}
use dukan_pro.SyncService.{Progress, ops_at, noted_at, take_answers, is_at, answers_from}
use dukan_pro.SyncService.Applying.{OpResult}
use dukan_pro.SyncService.Named.{op_id_of, answered_id}

abbrev pub Results : Type 0
Results = List (ℕ × OpResult)

abbrev pub Good : List OpInput → Results → Type 0
Good ops rs =
    (i : ℕ) (e : ℕ × OpResult) (op : OpInput)
    → first (is_at i) rs ≡ some e
    → get_elem? ops i ≡ some op
    → e.1.op_id ≡ op.op_id

abbrev pub Found : Results → ℕ → Type 0
Found rs i = is_some (first (is_at i) rs) ≡ true

abbrev pub AllFound : Results → List ℕ → Type 0
AllFound rs [] = Unit
AllFound rs (i ∷ is) = Found rs i × AllFound rs is

abbrev pub Valid : List OpInput → List ℕ → Type 0
Valid ops [] = Unit
Valid ops (i ∷ is) = (is_some (get_elem? ops i) ≡ true) × Valid ops is

pub Good-cons :
    (ops : List OpInput) (rs : Results) (i : ℕ) (op : OpInput) (r : OpResult)
    → Good ops rs
    → get_elem? ops i ≡ some op
    → r.op_id ≡ op.op_id
    → Good ops ((i, r) ∷ rs)
Good-cons ops rs i op r good here named j e op' h k = elim (Bool-cases (i == j)) [
  | inl same ↦
      let ij : i ≡ j = ground arith in
      let h1 : some (i, r) ≡ some e = rw same at h in
      let k1 : get_elem? ops i ≡ some op' = rw ij k in
      let ops1 : op ≡ op' = some_inj.0 (sym here ∙ k1) in
      ap (λ (x : ℕ × OpResult). x.1.op_id) (sym (some_inj.0 h1))
      ∙ named
      ∙ ap (λ (o : OpInput). o.op_id) ops1
  | inr other ↦ good j e op' (rw other at h) k
]

pub Found-more : (rs : Results) (i : ℕ) (r : OpResult) (j : ℕ) → Found rs j → Found ((i, r) ∷ rs) j
Found-more rs i r j h = elim (Bool-cases (i == j)) [ inl e ↦ rw e refl | inr e ↦ rw e h ]

pub same_number : (i : ℕ) → (i == i) ≡ true
same_number i = ground arith

pub Found-new : (rs : Results) (i : ℕ) (r : OpResult) → Found ((i, r) ∷ rs) i
Found-new rs i r = rw (same_number i) refl

pub AllFound-more :
    (rs ss : Results) (is : List ℕ)
    → ((j : ℕ) → Found rs j → Found ss j)
    → AllFound rs is
    → AllFound ss is
AllFound-more rs ss [] more h = tt
AllFound-more rs ss (i ∷ is) more (h, hs) = (more i h, AllFound-more rs ss is more hs)

pub AllFound-append :
    (rs : Results) (is js : List ℕ) → AllFound rs is → AllFound rs js → AllFound rs (is ++ js)
AllFound-append rs [] js h k = k
AllFound-append rs (i ∷ is) js (h, hs) k = (h, AllFound-append rs is js hs k)

pub AllFound-merge :
    (rs : Results) (p : ℕ → Bool) (is : List ℕ)
    → AllFound rs (select p is)
    → AllFound rs (select (λ (i : ℕ). not (p i)) is)
    → AllFound rs is
AllFound-merge rs p [] h k = tt
AllFound-merge rs p (i ∷ is) h k = elim (Bool-cases (p i)) [
  | inl e ↦ (let (h1, hs) = rw e at h in let k1 = rw e at k in (h1, AllFound-merge rs p is hs k1))
  | inr e ↦ (let hs = rw e at h in let (k1, ks) = rw e at k in (k1, AllFound-merge rs p is hs ks))
]

pub Valid-left : (ops : List OpInput) (is js : List ℕ) → Valid ops (is ++ js) → Valid ops is
Valid-left ops [] js h = tt
Valid-left ops (i ∷ is) js (h, hs) = (h, Valid-left ops is js hs)

pub Valid-right : (ops : List OpInput) (is js : List ℕ) → Valid ops (is ++ js) → Valid ops js
Valid-right ops [] js h = h
Valid-right ops (i ∷ is) js (h, hs) = Valid-right ops is js hs

pub Valid-select :
    (ops : List OpInput) (p : ℕ → Bool) (is : List ℕ) → Valid ops is → Valid ops (select p is)
Valid-select ops p [] h = tt
Valid-select ops p (i ∷ is) (h, hs) = elim (Bool-cases (p i)) [
  | inl e ↦ rw e (h, Valid-select ops p is hs)
  | inr e ↦ rw e (Valid-select ops p is hs)
]

-- The operations from a position on.
abbrev pub From : List OpInput → ℕ → List OpInput → Type 0
From ops k rest = (j p : ℕ) → p ≡ k + j → get_elem? ops p ≡ get_elem? rest j

pub From-next :
    (ops : List OpInput) (k : ℕ) (op : OpInput) (rest : List OpInput)
    → From ops k (op ∷ rest)
    → From ops (suc k) rest
From-next ops k op rest h j p e = h (suc j) p (omega arith)

pub Valid-range :
    (ops : List OpInput) (k : ℕ) (rest : List OpInput)
    → From ops k rest
    → Valid ops (range k (length rest))
Valid-range ops k [] h = tt
Valid-range ops k (op ∷ rest) h =
    (rw (h 0 k (omega arith)) refl, Valid-range ops (suc k) rest (From-next ops k op rest h))

pub answers_from-ids :
    (ops : List OpInput) (rs : Results) (k : ℕ) (rest : List OpInput)
    → Good ops rs
    → From ops k rest
    → AllFound rs (range k (length rest))
    → map answered_id (answers_from rs k rest) ≡ map op_id_of rest
unfolding answers_from
answers_from-ids ops rs k [] good from found = refl
answers_from-ids ops rs k (op ∷ rest) good from (here, found) =
    elim (Option-cases (first (is_at k) rs)) [
      | inl e ↦ (let no = rw e at here in cc)
      | inr (x, e) ↦
          let named = good k x op e (from 0 k (omega arith)) in
          let others =
            answers_from-ids ops rs (suc k) rest good (From-next ops k op rest from) found in
          rw (e, answers_from, named, others) refl
    ]

pub take_answers-Found :
    (ops : List OpInput) (g : Progress) (is : List ℕ) (answers : List OpResult) (j : ℕ)
    → Found g.results j
    → Found (take_answers ops g is answers).results j
unfolding take_answers
take_answers-Found ops g [] answers j h = h
take_answers-Found ops g (i ∷ is) [] j h = h
take_answers-Found ops g (i ∷ is) (r ∷ answers) j h =
    take_answers-Found ops
      (record g { failed = noted_at ops g.failed i r; results = (i, r) ∷ g.results }) is answers j
      (Found-more g.results i r j h)

-- The answers are those of the operations at the positions.
abbrev pub Match : List OpInput → List ℕ → List OpResult → Type 0
Match ops is answers = map answered_id answers ≡ map op_id_of (ops_at ops is)

pub Match-parts :
    (ops : List OpInput) (i : ℕ) (is : List ℕ) (r : OpResult) (answers : List OpResult)
    (op : OpInput)
    → get_elem? ops i ≡ some op
    → Match ops (i ∷ is) (r ∷ answers)
    → (r.op_id ≡ op.op_id) × Match ops is answers
Match-parts ops i is r answers op e h = (let k = rw (e, ops_at) at h in (cc, cc))

pub take_answers-Good :
    (ops : List OpInput) (g : Progress) (is : List ℕ) (answers : List OpResult)
    → Valid ops is
    → Match ops is answers
    → Good ops g.results
    → Good ops (take_answers ops g is answers).results
unfolding take_answers
take_answers-Good ops g [] answers v m good = good
take_answers-Good ops g (i ∷ is) [] v m good = good
take_answers-Good ops g (i ∷ is) (r ∷ answers) (v, vs) m good =
    elim (Option-cases (get_elem? ops i)) [
      | inl e ↦ (let no = rw e at v in cc)
      | inr (op, e) ↦
          let (named, rest) = Match-parts ops i is r answers op e m in
          take_answers-Good ops
            (record g { failed = noted_at ops g.failed i r; results = (i, r) ∷ g.results }) is
            answers vs rest (Good-cons ops g.results i op r good e named)
    ]

pub take_answers-AllFound :
    (ops : List OpInput) (g : Progress) (is : List ℕ) (answers : List OpResult)
    → Valid ops is
    → Match ops is answers
    → AllFound (take_answers ops g is answers).results is
unfolding take_answers
take_answers-AllFound ops g [] answers v m = tt
take_answers-AllFound ops g (i ∷ is) [] (v, vs) m = elim (Option-cases (get_elem? ops i)) [
  | inl e ↦ (let no = rw e at v in cc)
  | inr (op, e) ↦ (let no = rw (e, ops_at) at m in cc)
]
take_answers-AllFound ops g (i ∷ is) (r ∷ answers) (v, vs) m =
    elim (Option-cases (get_elem? ops i)) [
      | inl e ↦ (let no = rw e at v in cc)
      | inr (op, e) ↦
          let (named, rest) = Match-parts ops i is r answers op e m in
          let g1 : Progress = record g {
            failed = noted_at ops g.failed i r;
            results = (i, r) ∷ g.results;
          } in
          (
            take_answers-Found ops g1 is answers i (Found-new g.results i r),
            take_answers-AllFound ops g1 is answers vs rest,
          )
    ]
