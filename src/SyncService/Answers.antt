-- ===== src/SyncService/Answers.antt =====
-- A push answers every operation: group by group, each position gets a result.
use dukan_pro.Prelude.{
  ℕ, String, true, not, ◌≡◌, ap, inl, inr, Option, is_some, List, [], ◌∷◌, map, length, ltb,
  get_elem?, Bool-cases, Option-cases, arith,
}
use mathlib.Core.List.{flatten}
use dukan_pro.Prelude.Int.{ℤ}
use dukan_pro.Domain.Identity.{User}
use dukan_pro.Store.Queries.{select}
use dukan_pro.Sync.Types.{OpInput}
use dukan_pro.Push.{transactions}
use dukan_pro.Push.Transactions.{flatten-transactions}
use dukan_pro.SyncService.{
  Progress, is_ledger, ops_at, single_at, singles, push_group, push_groups, push,
}
use dukan_pro.SyncService.Applying.{Database, Tables}
use dukan_pro.SyncService.Transacting.{push_together}
use dukan_pro.SyncService.Named.{op_id_of, answered_id, push_single-op_id, push_together-ids}
use dukan_pro.SyncService.Results.{
  Good, Found, AllFound, Valid, Good-cons, Found-more, Found-new, AllFound-more, AllFound-append,
  AllFound-merge, Valid-left, Valid-right, Valid-select, From, Valid-range, answers_from-ids,
  take_answers-Found, take_answers-Good, take_answers-AllFound,
}

module _ (db : Database) (now : ℤ) (actor : User) (device_id : String)
    (branch_id : Option String) where
  single_at-Found :
      (ops : List OpInput) (g : Progress) (i j : ℕ)
      → Found g.results j
      → Found (single_at db now actor device_id branch_id ops g i).results j
  unfolding single_at
  single_at-Found ops g i j h = elim (Option-cases (get_elem? ops i)) [
    | inl e ↦ rw (e, single_at) h
    | inr (op, e) ↦ rw (e, single_at) (Found-more g.results i _ j h)
  ]

  single_at-Good :
      (ops : List OpInput) (g : Progress) (i : ℕ)
      → Good ops g.results
      → Good ops (single_at db now actor device_id branch_id ops g i).results
  unfolding single_at
  single_at-Good ops g i good = elim (Option-cases (get_elem? ops i)) [
    | inl e ↦ rw (e, single_at) good
    | inr (op, e) ↦
        rw (e, single_at)
          (Good-cons ops g.results i op _ good e
            (push_single-op_id db now actor device_id branch_id g.after g.failed op))
  ]

  single_at-new :
      (ops : List OpInput) (g : Progress) (i : ℕ)
      → is_some (get_elem? ops i) ≡ true
      → Found (single_at db now actor device_id branch_id ops g i).results i
  unfolding single_at
  single_at-new ops g i v = elim (Option-cases (get_elem? ops i)) [
    | inl e ↦ (let no = rw e at v in cc)
    | inr (op, e) ↦ rw (e, single_at) (Found-new g.results i _)
  ]

  singles-Found :
      (ops : List OpInput) (g : Progress) (is : List ℕ) (j : ℕ)
      → Found g.results j
      → Found (singles db now actor device_id branch_id ops g is).results j
  unfolding singles
  singles-Found ops g [] j h = h
  singles-Found ops g (i ∷ is) j h =
      singles-Found ops (single_at db now actor device_id branch_id ops g i) is j
        (single_at-Found ops g i j h)

  singles-Good :
      (ops : List OpInput) (g : Progress) (is : List ℕ)
      → Good ops g.results
      → Good ops (singles db now actor device_id branch_id ops g is).results
  unfolding singles
  singles-Good ops g [] good = good
  singles-Good ops g (i ∷ is) good =
      singles-Good ops (single_at db now actor device_id branch_id ops g i) is
        (single_at-Good ops g i good)

  singles-AllFound :
      (ops : List OpInput) (g : Progress) (is : List ℕ)
      → Valid ops is
      → AllFound (singles db now actor device_id branch_id ops g is).results is
  unfolding singles
  singles-AllFound ops g [] v = tt
  singles-AllFound ops g (i ∷ is) (v, vs) =
      let g1 = single_at db now actor device_id branch_id ops g i in
      (singles-Found ops g1 is i (single_at-new ops g i v), singles-AllFound ops g1 is vs)

  -- What a group leaves: the results before it are kept, and each of its positions has one.
  abbrev Answered : List OpInput → Progress → List ℕ → Progress → Type 0
  Answered ops g group done =
      (Good ops g.results → Good ops done.results)
      × ((j : ℕ) → Found g.results j → Found done.results j)
      × AllFound done.results group

  push_group-Answered :
      (ops : List OpInput) (g : Progress) (group : List ℕ)
      → Valid ops group
      → Answered ops g group (push_group db now actor device_id branch_id ops g group)
  unfolding push_group
  push_group-Answered ops g group v =
      let ledger = select (is_ledger ops) group in
      let others = select (λ (i : ℕ). not (is_ledger ops i)) group in
      let alone = singles db now actor device_id branch_id ops g others in
      let p = push_together db now actor device_id branch_id alone.after (ops_at ops ledger) in
      let g1 : Progress = record alone { after = p.after } in
      let match =
        push_together-ids db now actor device_id branch_id alone.after (ops_at ops ledger) in
      let valid = Valid-select ops (is_ledger ops) group v in
      let valid' = Valid-select ops (λ (i : ℕ). not (is_ledger ops i)) group v in
      elim (Bool-cases (ltb 1 (length ledger))) [
        | inl many ↦ rw many (
          (λ good.
              take_answers-Good ops g1 ledger p.answer valid match
                (singles-Good ops g others good)),
          (λ j h. take_answers-Found ops g1 ledger p.answer j (singles-Found ops g others j h)),
          AllFound-merge _ (is_ledger ops) group
              (take_answers-AllFound ops g1 ledger p.answer valid match)
              (AllFound-more alone.results _ others
                (λ j h. take_answers-Found ops g1 ledger p.answer j h)
                (singles-AllFound ops g others valid')),
        )
        | inr few ↦
            rw few
              (singles-Good ops g group, singles-Found ops g group, singles-AllFound ops g group v)
      ]

  push_groups-Answered :
      (ops : List OpInput) (g : Progress) (groups : List (List ℕ))
      → Valid ops (flatten groups)
      → Answered ops g (flatten groups) (push_groups db now actor device_id branch_id ops g groups)
  unfolding push_groups flatten
  push_groups-Answered ops g [] v = ((λ good. good), (λ j h. h), tt)
  push_groups-Answered ops g (group ∷ groups) v =
      let (good1, found1, all1) =
        push_group-Answered ops g group (Valid-left ops group (flatten groups) v) in
      let g1 = push_group db now actor device_id branch_id ops g group in
      let done = push_groups db now actor device_id branch_id ops g1 groups in
      let (good2, found2, all2) =
        push_groups-Answered ops g1 groups (Valid-right ops group (flatten groups) v) in
      (
        (λ good. good2 (good1 good)),
        (λ j h. found2 j (found1 j h)),
        AllFound-append done.results group (flatten groups)
            (AllFound-more g1.results done.results group found2 all1) all2,
      )

  -- A push answers every operation, in the order in which they were sent.
  pub push-answers_all :
      (s : Tables) (ops : List OpInput)
      → map answered_id (push db now actor device_id branch_id s ops).answer ≡ map op_id_of ops
  unfolding push
  push-answers_all s ops =
      let from : From ops 0 ops = λ j p e. ap (get_elem? ops) (omega (arith, e)) in
      let start : Progress = record { after = s; failed = []; results = [] } in
      let (good, found, all) =
        push_groups-Answered ops start (transactions ops)
          (rw (flatten-transactions ops) (Valid-range ops 0 ops from)) in
      answers_from-ids ops
        (push_groups db now actor device_id branch_id ops start (transactions ops)).results 0 ops
        (good (λ i e op h k. cc)) from (rw (flatten-transactions ops) at all)
