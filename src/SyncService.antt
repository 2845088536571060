-- ===== src/SyncService.antt =====
-- server/dukan/infrastructure/sync_service.py: `push`, group by group.
pub mod AllOrNone
pub mod Answers
pub mod Applying
pub mod Codes
pub mod Deciding
pub mod Groups
pub mod Kept
pub mod Named
pub mod Once
pub mod Refusing
pub mod Replays
pub mod Results
pub mod Settling
pub mod Transacting
pub mod Unwritten
use dukan_pro.Prelude.{
  ℕ, suc, String, Bool, false, not, Option, none, some, List, [], ◌∷◌, length, ltb, ◌==◌, get_elem?,
  if◌then◌else◌,
}
use dukan_pro.Prelude.Int.{ℤ}
use dukan_pro.Prelude.Text.{str_mem}
use dukan_pro.Domain.Identity.{User}
use dukan_pro.Store.Queries.{select, first}
use dukan_pro.Sync.Types.{OpInput}
use dukan_pro.Sync.Dispatch.{ledger_tables}
use dukan_pro.Push.{transactions}
use dukan_pro.SyncService.Applying.{OpResult, Tables, Database}
use dukan_pro.SyncService.Settling.{Pushed}
use dukan_pro.SyncService.Deciding.{Failed, noted, push_single}
use dukan_pro.SyncService.Transacting.{push_together}

-- The loop over the groups: the tables, `failed` and `results` by position.
pub record Progress : Type 0 where
  pub after : Tables
  pub failed : Failed
  pub results : List (ℕ × OpResult)

abbrev pub is_ledger : List OpInput → ℕ → Bool
is_ledger ops i = elim (get_elem? ops i) [ none ↦ false | some op ↦ str_mem op.table ledger_tables ]

-- `[ops[i] for i in ledger]`
abbrev pub ops_at : List OpInput → List ℕ → List OpInput
ops_at ops [] = []
ops_at ops (i ∷ is) = elim (get_elem? ops i) [ none ↦ ops_at ops is | some op ↦ op ∷ ops_at ops is ]

abbrev pub noted_at : List OpInput → Failed → ℕ → OpResult → Failed
noted_at ops failed i r = elim (get_elem? ops i) [ none ↦ failed | some op ↦ noted failed op r ]

-- `zip(ledger, answers)`
unfoldable pub take_answers : List OpInput → Progress → List ℕ → List OpResult → Progress
take_answers ops g [] answers = g
take_answers ops g (i ∷ is) [] = g
take_answers ops g (i ∷ is) (r ∷ answers) =
    take_answers ops (record g { failed = noted_at ops g.failed i r; results = (i, r) ∷ g.results })
      is answers

abbrev pub is_at : ℕ → ℕ × OpResult → Bool
is_at i e = e.0 == i

-- `[results[i] for i in range(len(ops))]`
unfoldable pub answers_from : List (ℕ × OpResult) → ℕ → List OpInput → List OpResult
answers_from results i [] = []
answers_from results i (op ∷ ops) = elim (first (is_at i) results) [
  | none ↦ answers_from results (suc i) ops
  | some e ↦ e.1 ∷ answers_from results (suc i) ops
]

module _ (db : Database) (now : ℤ) (actor : User) (device_id : String)
    (branch_id : Option String) where
  unfoldable pub single_at : List OpInput → Progress → ℕ → Progress
  unfolding push_single
  single_at ops g i = elim (get_elem? ops i) [
    | none ↦ g
    | some op ↦
        let p = push_single db now actor device_id branch_id g.after g.failed op in
        record { after = p.after; failed = p.answer.1; results = (i, p.answer.0) ∷ g.results }
  ]

  unfoldable pub singles : List OpInput → Progress → List ℕ → Progress
  unfolding single_at
  singles ops g [] = g
  singles ops g (i ∷ is) = singles ops (single_at ops g i) is

  unfoldable pub push_group : List OpInput → Progress → List ℕ → Progress
  unfolding singles push_together take_answers
  push_group ops g group =
      let ledger = select (is_ledger ops) group in
      if ltb 1 (length ledger)
      then (let alone = singles ops g (select (λ (i : ℕ). not (is_ledger ops i)) group) in
          let p = push_together db now actor device_id branch_id alone.after (ops_at ops ledger) in
          take_answers ops (record alone { after = p.after }) ledger p.answer)
      else singles ops g group

  unfoldable pub push_groups : List OpInput → Progress → List (List ℕ) → Progress
  unfolding push_group
  push_groups ops g [] = g
  push_groups ops g (group ∷ groups) = push_groups ops (push_group ops g group) groups

  unfoldable pub push : Tables → List OpInput → Pushed (List OpResult)
  unfolding push_groups answers_from
  push s ops =
      let done =
        push_groups ops (record { after = s; failed = []; results = [] }) (transactions ops) in
      record { after = done.after; answer = answers_from done.results 0 ops }
