-- ===== src/SyncService/Groups.antt =====
-- The records of applied operations through the groups of a push: one device transaction at a
-- time, applied together or aborted.
use dukan_pro.Prelude.{
  ℕ, String, ◌≡◌, refl, ◌∙◌, inl, inr, true, not, Option, none, some, is_some, List, [], ◌∷◌, any,
  length, ltb, ◌-◌, get_elem?, Bool-cases, Option-cases,
}
use dukan_pro.Prelude.Int.{ℤ}
use dukan_pro.Errors.{Result-cases}
use dukan_pro.Domain.Identity.{User}
use dukan_pro.Store.Queries.{select}
use dukan_pro.Sync.Types.{OpInput}
use dukan_pro.Sync.Fields.{is_uuid}
use dukan_pro.Push.{transactions}
use dukan_pro.SyncService.Applying.{Database, Tables, ProcessedOp, OpResult, apply, Applied}
use dukan_pro.SyncService.Settling.{is_applied, prior_of}
use dukan_pro.SyncService.Transacting.{
  apply_all, Together, all_applied, failed_at, and_before, has_twin, finish_together, push_together,
  verdict_or_invalid,
}
use dukan_pro.SyncService.{
  Progress, is_ledger, single_at, singles, ops_at, noted_at, take_answers, push_group, push_groups,
  push,
}
use dukan_pro.SyncService.Once.{Keeps, Keeps-same, Keeps-then, Keeps-more, apply-processed}
use dukan_pro.SyncService.Kept.{
  push_single-Keeps, push_each-Keeps, abort-Keeps, abort_invalid-Keeps,
}

module _ (db : Database) (now : ℤ) (actor : User) (device_id : String)
    (branch_id : Option String) where
  -- A transaction that was applied has recorded nothing yet.
  abbrev Unrecorded : Tables → Together → Type 0
  Unrecorded s (all_applied after answers) = after.processed ≡ s.processed
  Unrecorded s (failed_at i verdict) = Unit

  and_before-Unrecorded :
      (s t : Tables) (a : Applied) (g : Together)
      → t.processed ≡ s.processed
      → Unrecorded t g
      → Unrecorded s (and_before a g)
  and_before-Unrecorded s t a (all_applied after answers) e h = h ∙ e
  and_before-Unrecorded s t a (failed_at i verdict) e h = h

  apply_all-Unrecorded :
      (s : Tables) (ops : List OpInput)
      → Unrecorded s (apply_all db now actor device_id branch_id s ops)
  unfolding apply_all
  apply_all-Unrecorded s [] = refl
  apply_all-Unrecorded s (op ∷ ops) = elim (Result-cases (apply db now s actor branch_id op)) [
    | inl (a, e) ↦
        rw (e, apply_all)
          (and_before-Unrecorded s a.after a _ (apply-processed db now s actor branch_id op a e)
            (apply_all-Unrecorded a.after ops))
    | inr (x, e) ↦ rw (e, apply_all) tt
  ]

  finish_together-Keeps :
      (s : Tables) (ops : List OpInput) (g : Together)
      → Unrecorded s g
      → Keeps s.processed (finish_together db now actor device_id branch_id s ops g).after.processed
  unfolding finish_together
  finish_together-Keeps s ops (failed_at i verdict) h =
      abort-Keeps db now actor device_id branch_id s (some i) (verdict_or_invalid verdict) ops
  finish_together-Keeps s ops (all_applied after answers) h = elim (Bool-cases (has_twin ops)) [
    | inl twin ↦ rw twin (
        abort-Keeps db now actor device_id branch_id s (some (length ops - 1))
          (verdict_or_invalid none) ops)
    | inr apart ↦ rw (apart, h) (Keeps-more s.processed _)
  ]

  push_together-Keeps :
      (s : Tables) (ops : List OpInput)
      → Keeps s.processed (push_together db now actor device_id branch_id s ops).after.processed
  unfolding push_together
  push_together-Keeps s ops = elim (Bool-cases (any (λ (o : OpInput). not (is_uuid o.op_id)) ops)) [
    | inl bad ↦ rw bad (abort_invalid-Keeps db now actor device_id branch_id s ops)
    | inr fine ↦ elim (Bool-cases (any (λ (o : OpInput). is_some (prior_of s o.op_id)) ops)) [
      | inl known ↦ rw (fine, known) (push_each-Keeps db now actor device_id branch_id s ops)
      | inr fresh ↦ rw (fine, fresh) (finish_together-Keeps s ops _ (apply_all-Unrecorded s ops))
    ]
  ]

  single_at-Keeps :
      (ops : List OpInput) (g : Progress) (i : ℕ)
      → Keeps g.after.processed (single_at db now actor device_id branch_id ops g i).after.processed
  unfolding single_at
  single_at-Keeps ops g i = elim (Option-cases (get_elem? ops i)) [
    | inl e ↦ rw (e, single_at) (Keeps-same g.after.processed _ refl)
    | inr (op, e) ↦
        rw (e, single_at) (push_single-Keeps db now actor device_id branch_id g.after g.failed op)
  ]

  singles-Keeps :
      (ops : List OpInput) (g : Progress) (is : List ℕ)
      → Keeps g.after.processed (singles db now actor device_id branch_id ops g is).after.processed
  unfolding singles
  singles-Keeps ops g [] = Keeps-same g.after.processed _ refl
  singles-Keeps ops g (i ∷ is) =
      Keeps-then g.after.processed
        (single_at db now actor device_id branch_id ops g i).after.processed _
        (single_at-Keeps ops g i)
        (singles-Keeps ops (single_at db now actor device_id branch_id ops g i) is)

  take_answers-after :
      (ops : List OpInput) (g : Progress) (is : List ℕ) (answers : List OpResult)
      → (take_answers ops g is answers).after ≡ g.after
  unfolding take_answers
  take_answers-after ops g [] answers = refl
  take_answers-after ops g (i ∷ is) [] = refl
  take_answers-after ops g (i ∷ is) (r ∷ answers) =
      take_answers-after ops
        (record g { failed = noted_at ops g.failed i r; results = (i, r) ∷ g.results }) is answers

  push_group-Keeps :
      (ops : List OpInput) (g : Progress) (group : List ℕ)
      → Keeps g.after.processed
          (push_group db now actor device_id branch_id ops g group).after.processed
  unfolding push_group
  push_group-Keeps ops g group =
      let ledger = select (is_ledger ops) group in
      let others = select (λ (i : ℕ). not (is_ledger ops i)) group in
      let alone = singles db now actor device_id branch_id ops g others in
      let mine = ops_at ops ledger in
      elim (Bool-cases (ltb 1 (length ledger))) [
        | inl many ↦
            rw (many, take_answers-after)
              (Keeps-then g.after.processed alone.after.processed _ (singles-Keeps ops g others)
                (push_together-Keeps alone.after mine))
        | inr few ↦ rw few (singles-Keeps ops g group)
      ]

  push_groups-Keeps :
      (ops : List OpInput) (g : Progress) (groups : List (List ℕ))
      → Keeps g.after.processed
          (push_groups db now actor device_id branch_id ops g groups).after.processed
  unfolding push_groups
  push_groups-Keeps ops g [] = Keeps-same g.after.processed _ refl
  push_groups-Keeps ops g (group ∷ groups) =
      Keeps-then g.after.processed
        (push_group db now actor device_id branch_id ops g group).after.processed _
        (push_group-Keeps ops g group)
        (push_groups-Keeps ops (push_group db now actor device_id branch_id ops g group) groups)

  -- Whatever a push does, an operation that was recorded as applied keeps its record: its actor,
  -- its place in the feed and its version.
  pub push-keeps_applied :
      (s : Tables) (ops : List OpInput) (op_id : String) (x : ProcessedOp)
      → prior_of s op_id ≡ some x
      → is_applied x.result ≡ true
      → prior_of (push db now actor device_id branch_id s ops).after op_id ≡ some x
  unfolding push
  push-keeps_applied s ops = push_groups-Keeps ops _ (transactions ops)
