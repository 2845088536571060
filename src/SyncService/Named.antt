-- ===== src/SyncService/Named.antt =====
-- Each answer names the operation that it is for.
use dukan_pro.Prelude.{
  ℕ, zero, suc, String, not, ◌≡◌, refl, ap, inl, inr, ◌&&◌, Option, none, some, is_some, List, [],
  ◌∷◌, any, map, length, Bool-cases, Option-cases, arith,
}
use dukan_pro.Prelude.Int.{ℤ}
use dukan_pro.Prelude.Text.{str_eq→eq}
use dukan_pro.Errors.{Result-cases}
use dukan_pro.Domain.Identity.{User}
use dukan_pro.Store.Queries.{first}
use dukan_pro.Sync.Types.{OpInput}
use dukan_pro.Sync.Fields.{is_uuid}
use dukan_pro.Sync.Pull.{is_cacheable}
use dukan_pro.SyncService.Applying.{
  Outcome, OpResult, Database, Tables, ProcessedOp, Applied, apply, rejected,
}
use dukan_pro.SyncService.Settling.{
  op_with, prior_of, replay, settle, decide_error, shown_conflict, is_conflict, is_applied,
  is_foreign, forget, Pushed, verdict_of,
}
use dukan_pro.SyncService.Deciding.{
  decide, push_known, push_one, settle_as, push_after, push_single, Failed,
}
use dukan_pro.SyncService.Transacting.{
  push_each, Together, all_applied, failed_at, abort_one, one_less, abort, invalid_one,
  abort_invalid, has_twin, zip_applied, answer_of, finish_together, push_together,
}
use dukan_pro.SyncService.AllOrNone.{Complete, apply_all-Complete}

abbrev pub op_id_of : OpInput → String
op_id_of op = op.op_id

abbrev pub answered_id : OpResult → String
answered_id r = r.op_id

first-with_id :
    (id : String) (xs : List ProcessedOp) (x : ProcessedOp)
    → first (op_with id) xs ≡ some x
    → x.op_id ≡ id
first-with_id id [] x h = cc
first-with_id id (y ∷ ys) x h = elim (Bool-cases (op_with id y)) [
  | inl e ↦ (let k = rw e at h in let same = str_eq→eq y.op_id id e in cc)
  | inr e ↦ first-with_id id ys x (rw e at h)
]

replay-op_id :
    (s : Tables) (x : ProcessedOp) (actor : User) (op : OpInput)
    → prior_of s op.op_id ≡ some x
    → (replay s x actor op).op_id ≡ op.op_id
unfolding replay
replay-op_id s x actor op h = elim (Bool-cases (is_conflict x.result)) [
  | inl e ↦ rw e (first-with_id op.op_id s.processed x h)
  | inr e ↦ rw e (first-with_id op.op_id s.processed x h)
]

settle-op_id :
    (s : Tables) (actor : User) (device_id : String) (op : OpInput) (outcome : Outcome)
    (code : String)
    → (settle s actor device_id op outcome code).answer.op_id ≡ op.op_id
unfolding settle
settle-op_id s actor device_id op outcome code = elim (Bool-cases (is_cacheable code)) [
  | inl e ↦ elim (Option-cases (prior_of s op.op_id)) [
    | inl f ↦ rw (e, f) refl
    | inr (x, f) ↦ rw (e, f) (replay-op_id s x actor op f)
  ]
  | inr e ↦ rw e refl
]

shown-op_id :
    (actor : User) (op : OpInput) (p : Pushed OpResult)
    → p.answer.op_id ≡ op.op_id
    → (shown_conflict actor op p).answer.op_id ≡ op.op_id
shown-op_id actor op p h = elim (Bool-cases (is_conflict p.answer.outcome)) [
  | inl e ↦ rw e h
  | inr e ↦ rw e h
]

decide_error-op_id :
    (s : Tables) (actor : User) (device_id : String) (op : OpInput) (v : Option (Outcome × String))
    → (decide_error s actor device_id op v).answer.op_id ≡ op.op_id
unfolding decide_error
decide_error-op_id s actor device_id op none = refl
decide_error-op_id s actor device_id op (some (outcome, code)) =
    elim (Bool-cases (is_conflict outcome)) [
      | inl e ↦ rw e (settle-op_id s actor device_id op outcome code)
      | inr e ↦ rw e (settle-op_id s actor device_id op outcome code)
    ]

module _ (db : Database) (now : ℤ) (actor : User) (device_id : String)
    (branch_id : Option String) where
  decide-op_id :
      (s : Tables) (op : OpInput)
      → (decide db now actor device_id branch_id s op).answer.op_id ≡ op.op_id
  unfolding decide
  decide-op_id s op = elim (Result-cases (apply db now s actor branch_id op)) [
    | inl (a, e) ↦ rw (e, decide) refl
    | inr (x, e) ↦ rw (e, decide) (decide_error-op_id s actor device_id op (verdict_of x))
  ]

  push_known-op_id :
      (s : Tables) (op : OpInput)
      → (push_known db now actor device_id branch_id s op (prior_of s op.op_id)).answer.op_id
        ≡ op.op_id
  unfolding push_known
  push_known-op_id s op = elim (Option-cases (prior_of s op.op_id)) [
    | inl e ↦ rw e (decide-op_id s op)
    | inr (x, e) ↦ elim (Bool-cases (is_foreign x actor)) [
      | inr f ↦ rw (e, f) (replay-op_id s x actor op e)
      | inl f ↦ elim (Bool-cases (is_applied x.result)) [
        | inl a ↦ rw (e, f, a) refl
        | inr a ↦ rw (e, f, a) (decide-op_id (forget s op.op_id) op)
      ]
    ]
  ]

  push_one-op_id :
      (s : Tables) (op : OpInput)
      → (push_one db now actor device_id branch_id s op).answer.op_id ≡ op.op_id
  unfolding push_one
  push_one-op_id s op = elim (Bool-cases (is_uuid op.op_id)) [
    | inl e ↦ rw e (push_known-op_id s op)
    | inr e ↦ rw e refl
  ]

  settle_as-op_id :
      (s : Tables) (op : OpInput) (outcome : Outcome) (code : Option String)
      → (settle_as db now actor device_id branch_id s op outcome code).answer.op_id ≡ op.op_id
  settle_as-op_id s op outcome none = refl
  settle_as-op_id s op outcome (some code) = settle-op_id s actor device_id op outcome code

  push_after-op_id :
      (s : Tables) (op : OpInput) (e : Option ((String × String) × OpResult))
      → (push_after db now actor device_id branch_id s op e).answer.op_id ≡ op.op_id
  unfolding push_after
  push_after-op_id s op none = push_one-op_id s op
  push_after-op_id s op (some e) =
      elim (Bool-cases
        (is_some e.1.code && is_uuid op.op_id && not (is_some (prior_of s op.op_id)))) [
          | inl fresh ↦ rw fresh (
              shown-op_id actor op
                (settle_as db now actor device_id branch_id s op e.1.outcome e.1.code)
                (settle_as-op_id s op e.1.outcome e.1.code))
          | inr known ↦ rw known (push_one-op_id s op)
        ]

  pub push_single-op_id :
      (s : Tables) (failed : Failed) (op : OpInput)
      → (push_single db now actor device_id branch_id s failed op).answer.0.op_id ≡ op.op_id
  unfolding push_single
  push_single-op_id s failed op = push_after-op_id s op _

  cons-ids :
      (r : OpResult) (rs : List OpResult) (op : OpInput) (ops : List OpInput)
      → r.op_id ≡ op.op_id
      → map answered_id rs ≡ map op_id_of ops
      → map answered_id (r ∷ rs) ≡ map op_id_of (op ∷ ops)
  cons-ids r rs op ops h k = rw (h, k) refl

  push_each-ids :
      (s : Tables) (ops : List OpInput)
      → map answered_id (push_each db now actor device_id branch_id s ops).answer ≡ map op_id_of ops
  unfolding push_each
  push_each-ids s [] = refl
  push_each-ids s (op ∷ ops) =
      let p = push_one db now actor device_id branch_id s op in
      cons-ids p.answer (push_each db now actor device_id branch_id p.after ops).answer op ops
        (push_one-op_id s op) (push_each-ids p.after ops)

  abort_one-op_id :
      (s : Tables) (i : Option ℕ) (verdict : Outcome × String) (op : OpInput)
      → (abort_one db now actor device_id branch_id s i verdict op).answer.op_id ≡ op.op_id
  unfolding abort_one
  abort_one-op_id s none verdict op = settle-op_id s actor device_id op rejected _
  abort_one-op_id s (some zero) verdict op =
      shown-op_id actor op (settle s actor device_id op verdict.0 verdict.1)
        (settle-op_id s actor device_id op verdict.0 verdict.1)
  abort_one-op_id s (some (suc i)) verdict op = settle-op_id s actor device_id op rejected _

  abort-ids :
      (s : Tables) (i : Option ℕ) (verdict : Outcome × String) (ops : List OpInput)
      → map answered_id (abort db now actor device_id branch_id s i verdict ops).answer
        ≡ map op_id_of ops
  unfolding abort
  abort-ids s i verdict [] = refl
  abort-ids s i verdict (op ∷ ops) =
      let p = abort_one db now actor device_id branch_id s i verdict op in
      cons-ids p.answer
        (abort db now actor device_id branch_id p.after (one_less i) verdict ops).answer op ops
        (abort_one-op_id s i verdict op) (abort-ids p.after (one_less i) verdict ops)

  invalid_one-op_id :
      (s : Tables) (op : OpInput)
      → (invalid_one db now actor device_id branch_id s op).answer.op_id ≡ op.op_id
  invalid_one-op_id s op = elim (Bool-cases (is_uuid op.op_id)) [
    | inl e ↦ rw e (settle-op_id s actor device_id op rejected "SYNC_TX_ABORTED")
    | inr e ↦ rw e refl
  ]

  abort_invalid-ids :
      (s : Tables) (ops : List OpInput)
      → map answered_id (abort_invalid db now actor device_id branch_id s ops).answer
        ≡ map op_id_of ops
  unfolding abort_invalid
  abort_invalid-ids s [] = refl
  abort_invalid-ids s (op ∷ ops) =
      let p = invalid_one db now actor device_id branch_id s op in
      cons-ids p.answer (abort_invalid db now actor device_id branch_id p.after ops).answer op ops
        (invalid_one-op_id s op) (abort_invalid-ids p.after ops)

  applied-ids :
      (ops : List OpInput) (answers : List Applied)
      → length answers ≡ length ops
      → map answered_id (map answer_of (zip_applied db now actor device_id branch_id ops answers))
        ≡ map op_id_of ops
  applied-ids [] answers h = refl
  applied-ids (op ∷ ops) [] h = absurd (omega arith)
  applied-ids (op ∷ ops) (a ∷ answers) h = ap (◌∷◌ op.op_id) (applied-ids ops answers (omega arith))

  finish_together-ids :
      (s : Tables) (ops : List OpInput) (g : Together)
      → Complete db now actor device_id branch_id ops g
      → map answered_id (finish_together db now actor device_id branch_id s ops g).answer
        ≡ map op_id_of ops
  unfolding finish_together
  finish_together-ids s ops (failed_at i verdict) h = abort-ids s _ _ ops
  finish_together-ids s ops (all_applied after answers) h = elim (Bool-cases (has_twin ops)) [
    | inl twin ↦ rw twin (abort-ids s _ _ ops)
    | inr apart ↦ rw apart (applied-ids ops answers h)
  ]

  pub push_together-ids :
      (s : Tables) (ops : List OpInput)
      → map answered_id (push_together db now actor device_id branch_id s ops).answer
        ≡ map op_id_of ops
  unfolding push_together
  push_together-ids s ops = elim (Bool-cases (any (λ (o : OpInput). not (is_uuid o.op_id)) ops)) [
    | inl bad ↦ rw bad (abort_invalid-ids s ops)
    | inr fine ↦ elim (Bool-cases (any (λ (o : OpInput). is_some (prior_of s o.op_id)) ops)) [
      | inl known ↦ rw (fine, known) (push_each-ids s ops)
      | inr fresh ↦
          rw (fine, fresh)
            (finish_together-ids s ops _
              (apply_all-Complete db now actor device_id branch_id s ops))
    ]
  ]
