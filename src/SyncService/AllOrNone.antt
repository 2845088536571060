-- ===== src/SyncService/AllOrNone.antt =====
-- A device transaction's ledger rows: all of them, or none.
use dukan_pro.Prelude.{
  ℕ, suc, String, ◌≡◌, refl, ap, inl, inr, not, Option, none, some, is_some, List, [], ◌∷◌, ◌++◌,
  All, any, map, length, Bool, Bool-cases, true, false, arith, ◌⊎◌,
}
use dukan_pro.Prelude.Int.{ℤ}
use dukan_pro.Errors.{Result-cases, ok}
use dukan_pro.Domain.Identity.{User}
use dukan_pro.Sync.Types.{OpInput}
use dukan_pro.Sync.Fields.{is_uuid}
use dukan_pro.SyncService.Applying.{Database, Tables, OpResult, Outcome, apply, Applied}
use dukan_pro.SyncService.Settling.{prior_of, Pushed, is_applied}
use dukan_pro.SyncService.Transacting.{
  apply_all, Together, all_applied, failed_at, and_before, zip_applied, abort, has_twin,
  finish_together, push_together, answer_of, verdict_or_invalid,
}
use dukan_pro.SyncService.Replays.{Refuses, verdict_of-Refuses}
use dukan_pro.SyncService.Refusing.{
  AllUnapplied, IsRefused, fresh-AllUnapplied, verdict_or_invalid-refused, abort-refuses,
  abort_invalid-refuses,
}
use dukan_pro.SyncService.Unwritten.{Unwritten, abort-Unwritten, abort_invalid-Unwritten}

-- The id that an answer is for, and whether it says that the operation was applied.
abbrev pub decided : OpResult → String × Bool
decided r = (r.op_id, is_applied r.outcome)

abbrev pub taken : OpInput → String × Bool
taken op = (op.op_id, true)

-- Each operation is applied to the tables that the one before it left.
pub data InTurn (db : Database) (now : ℤ) (actor : User) (branch_id : Option String)
    : Tables → List OpInput → Tables → List Applied → Type 0 where
  nothing_left : {s : Tables} → InTurn db now actor branch_id s [] s []
  and_then :
      {s t : Tables} {op : OpInput} {ops : List OpInput} {a : Applied} {answers : List Applied}
      → apply db now s actor branch_id op ≡ ok a
      → InTurn db now actor branch_id a.after ops t answers
      → InTurn db now actor branch_id s (op ∷ ops) t (a ∷ answers)

module _ (db : Database) (now : ℤ) (actor : User) (device_id : String)
    (branch_id : Option String) where
  -- As many answers as operations, when all were applied.
  abbrev pub Complete : List OpInput → Together → Type 0
  Complete ops (all_applied after answers) = length answers ≡ length ops
  Complete ops (failed_at i verdict) = Unit

  and_before-Complete :
      (op : OpInput) (ops : List OpInput) (a : Applied) (g : Together)
      → Complete ops g
      → Complete (op ∷ ops) (and_before a g)
  and_before-Complete op ops a (all_applied after answers) h = ap suc h
  and_before-Complete op ops a (failed_at i verdict) h = tt

  pub apply_all-Complete :
      (s : Tables) (ops : List OpInput)
      → Complete ops (apply_all db now actor device_id branch_id s ops)
  unfolding apply_all
  apply_all-Complete s [] = refl
  apply_all-Complete s (op ∷ ops) = elim (Result-cases (apply db now s actor branch_id op)) [
    | inl (a, e) ↦
        rw (e, apply_all) (and_before-Complete op ops a _ (apply_all-Complete a.after ops))
    | inr (x, e) ↦ rw (e, apply_all) tt
  ]

  -- The answers name the operations in order, each applied.
  answers-applied :
      (ops : List OpInput) (answers : List Applied)
      → length answers ≡ length ops
      → map decided (map (answer_of) (zip_applied db now actor device_id branch_id ops answers))
        ≡ map taken ops
  answers-applied [] answers h = refl
  answers-applied (op ∷ ops) [] h = absurd (omega arith)
  answers-applied (op ∷ ops) (a ∷ answers) h =
      ap (◌∷◌ (taken op)) (answers-applied ops answers (omega arith))

  -- What was applied, one operation after the other, or the verdict of the one that failed.
  abbrev Tried : Tables → List OpInput → Together → Type 0
  Tried s ops (all_applied t answers) = InTurn db now actor branch_id s ops t answers
  Tried s ops (failed_at i verdict) = Refuses verdict

  and_before-Tried :
      (s : Tables) (op : OpInput) (ops : List OpInput) (a : Applied) (g : Together)
      → apply db now s actor branch_id op ≡ ok a
      → Tried a.after ops g
      → Tried s (op ∷ ops) (and_before a g)
  and_before-Tried s op ops a (all_applied t answers) e h = and_then e h
  and_before-Tried s op ops a (failed_at i verdict) e h = h

  apply_all-Tried :
      (s : Tables) (ops : List OpInput)
      → Tried s ops (apply_all db now actor device_id branch_id s ops)
  unfolding apply_all
  apply_all-Tried s [] = nothing_left
  apply_all-Tried s (op ∷ ops) = elim (Result-cases (apply db now s actor branch_id op)) [
    | inl (a, e) ↦ rw (e, apply_all) (and_before-Tried s op ops a _ e (apply_all-Tried a.after ops))
    | inr (x, e) ↦ rw (e, apply_all) (verdict_of-Refuses x)
  ]

  -- Nothing is written, and no answer says that its operation was applied.
  abbrev pub Untouched : Tables → Pushed (List OpResult) → Type 0
  Untouched s p = Unwritten s p.after × All IsRefused p.answer

  -- The tables are those that the operations leave when each is applied to what the one before
  -- left, with their records; and the answers say so.
  abbrev pub Whole : Tables → List OpInput → Pushed (List OpResult) → Type 0
  Whole s ops p =
      (t : Tables) × (answers : List Applied) × InTurn db now actor branch_id s ops t answers
      × (p.after ≡ record t {
        processed = t.processed ++ zip_applied db now actor device_id branch_id ops answers;
      })
      × (map decided p.answer ≡ map taken ops)

  aborted-Untouched :
      (s : Tables) (i : Option ℕ) (verdict : Option (Outcome × String)) (ops : List OpInput)
      → Refuses verdict
      → AllUnapplied s ops
      → Untouched s (abort db now actor device_id branch_id s i (verdict_or_invalid verdict) ops)
  aborted-Untouched s i verdict ops refused fresh = (
    abort-Unwritten db now actor device_id branch_id s i (verdict_or_invalid verdict) ops,
    abort-refuses db now actor device_id branch_id s i (verdict_or_invalid verdict) ops
        (verdict_or_invalid-refused verdict refused) fresh,
  )

  finish_together-all_or_none :
      (s : Tables) (ops : List OpInput) (g : Together)
      → AllUnapplied s ops
      → Complete ops g
      → Tried s ops g
      → let p = finish_together db now actor device_id branch_id s ops g in
        Untouched s p ⊎ Whole s ops p
  unfolding finish_together
  finish_together-all_or_none s ops (failed_at i verdict) fresh h refused =
      inl (aborted-Untouched s (some i) verdict ops refused fresh)
  finish_together-all_or_none s ops (all_applied after answers) fresh h in_turn =
      elim (Bool-cases (has_twin ops)) [
        | inl twin ↦ rw twin (inl (aborted-Untouched s _ none ops tt fresh))
        | inr apart ↦ rw apart (inr (after, answers, in_turn, refl, answers-applied ops answers h))
      ]

  -- Of the ledger rows of a device transaction none of whose ids was sent before, either none is
  -- written and none answered as applied: the rows, the feed and the audit trail stay as they are;
  -- or all are: the tables are what the operations leave one after the other, each with its record,
  -- and each is answered as applied.
  pub push_together-all_or_none :
      (s : Tables) (ops : List OpInput)
      → any (λ (o : OpInput). is_some (prior_of s o.op_id)) ops ≡ false
      → let p = push_together db now actor device_id branch_id s ops in
        Untouched s p ⊎ Whole s ops p
  unfolding push_together
  push_together-all_or_none s ops unsent =
      let fresh = fresh-AllUnapplied s ops unsent in
      elim (Bool-cases (any (λ (o : OpInput). not (is_uuid o.op_id)) ops)) [
        | inl bad ↦ rw bad (
            inl (
              abort_invalid-Unwritten db now actor device_id branch_id s ops,
              abort_invalid-refuses db now actor device_id branch_id s ops fresh,
            ))
        | inr fine ↦
            rw (fine, unsent)
              (finish_together-all_or_none s ops _ fresh (apply_all-Complete s ops)
                (apply_all-Tried s ops))
      ]
