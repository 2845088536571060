-- ===== src/SyncService/Kept.antt =====
-- The records of applied operations through a whole push: chains, transactions and groups.
use dukan_pro.Prelude.{
  ℕ, zero, suc, String, refl, inl, inr, not, ◌&&◌, Option, none, some, is_some, List, [], ◌∷◌,
  Bool-cases,
}
use dukan_pro.Prelude.Int.{ℤ}
use dukan_pro.Domain.Identity.{User}
use dukan_pro.Sync.Types.{OpInput}
use dukan_pro.Sync.Fields.{is_uuid}
use dukan_pro.SyncService.Applying.{Database, Tables, OpResult, Outcome, rejected}
use dukan_pro.SyncService.Settling.{prior_of, settle}
use dukan_pro.SyncService.Deciding.{Failed, push_one, push_after, push_single, settle_as}
use dukan_pro.SyncService.Transacting.{
  push_each, abort_one, one_less, abort, invalid_one, abort_invalid,
}
use dukan_pro.SyncService.Once.{
  Keeps, Keeps-same, Keeps-then, settle-Keeps, shown-Keeps, push_one-Keeps,
}

module _ (db : Database) (now : ℤ) (actor : User) (device_id : String)
    (branch_id : Option String) where
  settle_as-Keeps :
      (s : Tables) (op : OpInput) (outcome : Outcome) (code : Option String)
      → Keeps s.processed
          (settle_as db now actor device_id branch_id s op outcome code).after.processed
  settle_as-Keeps s op outcome none = Keeps-same s.processed _ refl
  settle_as-Keeps s op outcome (some code) = settle-Keeps s actor device_id op outcome code

  push_after-Keeps :
      (s : Tables) (op : OpInput) (e : Option ((String × String) × OpResult))
      → Keeps s.processed (push_after db now actor device_id branch_id s op e).after.processed
  unfolding push_after
  push_after-Keeps s op none = push_one-Keeps db now actor device_id branch_id s op
  push_after-Keeps s op (some e) =
      elim (Bool-cases
        (is_some e.1.code && is_uuid op.op_id && not (is_some (prior_of s op.op_id)))) [
          | inl fresh ↦ rw fresh (
              shown-Keeps s.processed actor op
                (settle_as db now actor device_id branch_id s op e.1.outcome e.1.code)
                (settle_as-Keeps s op e.1.outcome e.1.code))
          | inr known ↦ rw known (push_one-Keeps db now actor device_id branch_id s op)
        ]

  pub push_single-Keeps :
      (s : Tables) (failed : Failed) (op : OpInput)
      → Keeps s.processed (push_single db now actor device_id branch_id s failed op).after.processed
  unfolding push_single
  push_single-Keeps s failed op = push_after-Keeps s op _

  pub push_each-Keeps :
      (s : Tables) (ops : List OpInput)
      → Keeps s.processed (push_each db now actor device_id branch_id s ops).after.processed
  unfolding push_each
  push_each-Keeps s [] = Keeps-same s.processed _ refl
  push_each-Keeps s (op ∷ ops) =
      Keeps-then s.processed (push_one db now actor device_id branch_id s op).after.processed _
        (push_one-Keeps db now actor device_id branch_id s op)
        (push_each-Keeps (push_one db now actor device_id branch_id s op).after ops)

  abort_one-Keeps :
      (s : Tables) (i : Option ℕ) (verdict : Outcome × String) (op : OpInput)
      → Keeps s.processed
          (abort_one db now actor device_id branch_id s i verdict op).after.processed
  unfolding abort_one
  abort_one-Keeps s none verdict op = settle-Keeps s actor device_id op rejected _
  abort_one-Keeps s (some zero) verdict op =
      shown-Keeps s.processed actor op (settle s actor device_id op verdict.0 verdict.1)
        (settle-Keeps s actor device_id op verdict.0 verdict.1)
  abort_one-Keeps s (some (suc i)) verdict op = settle-Keeps s actor device_id op rejected _

  pub abort-Keeps :
      (s : Tables) (i : Option ℕ) (verdict : Outcome × String) (ops : List OpInput)
      → Keeps s.processed (abort db now actor device_id branch_id s i verdict ops).after.processed
  unfolding abort
  abort-Keeps s i verdict [] = Keeps-same s.processed _ refl
  abort-Keeps s i verdict (op ∷ ops) =
      Keeps-then s.processed
        (abort_one db now actor device_id branch_id s i verdict op).after.processed _
        (abort_one-Keeps s i verdict op)
        (abort-Keeps (abort_one db now actor device_id branch_id s i verdict op).after (one_less i)
          verdict ops)

  invalid_one-Keeps :
      (s : Tables) (op : OpInput)
      → Keeps s.processed (invalid_one db now actor device_id branch_id s op).after.processed
  invalid_one-Keeps s op = elim (Bool-cases (is_uuid op.op_id)) [
    | inl e ↦ rw e (settle-Keeps s actor device_id op rejected "SYNC_TX_ABORTED")
    | inr e ↦ rw e (Keeps-same s.processed _ refl)
  ]

  pub abort_invalid-Keeps :
      (s : Tables) (ops : List OpInput)
      → Keeps s.processed (abort_invalid db now actor device_id branch_id s ops).after.processed
  unfolding abort_invalid
  abort_invalid-Keeps s [] = Keeps-same s.processed _ refl
  abort_invalid-Keeps s (op ∷ ops) =
      Keeps-then s.processed (invalid_one db now actor device_id branch_id s op).after.processed _
        (invalid_one-Keeps s op)
        (abort_invalid-Keeps (invalid_one db now actor device_id branch_id s op).after ops)
