-- ===== src/SyncService/Replays.antt =====
-- Sending an operation again: what was applied answers as it did, and writes nothing more.
use dukan_pro.Prelude.{
  String, ◌≡◌, refl, ◌∙◌, inl, inr, true, false, not, Option, none, some, List, [], ◌∷◌, Bool-cases,
  Option-cases,
}
use dukan_pro.Prelude.Int.{ℤ}
use dukan_pro.Prelude.Text.{eq_refl}
use dukan_pro.Errors.{
  AppError, Result-cases, crash, validation, not_found, conflict, permission_denied, sync_conflict,
  infrastructure, auth, rate_limited,
}
use dukan_pro.Domain.Identity.{User}
use dukan_pro.Store.Queries.{select, first}
use dukan_pro.Store.Sums.{first-append_none}
use dukan_pro.Sync.Types.{OpInput}
use dukan_pro.Sync.Fields.{is_uuid}
use dukan_pro.Sync.Pull.{is_cacheable}
use dukan_pro.SyncService.Applying.{
  Database, Tables, ProcessedOp, OpResult, Outcome, applied, conflicted, rejected, apply, Applied,
}
use dukan_pro.SyncService.Settling.{
  op_with, prior_of, plain, is_applied, is_conflict, is_foreign, forget, settle, decide_error,
  verdict_of, replay, applied_op, Pushed,
}
use dukan_pro.SyncService.Deciding.{decide, push_known, push_one}
use dukan_pro.SyncService.{push}
use dukan_pro.SyncService.Once.{apply-processed}
use dukan_pro.SyncService.Groups.{push-keeps_applied}

first-forgotten_none :
    (id : String) (xs : List ProcessedOp)
    → first (op_with id) (select (λ (x : ProcessedOp). not (op_with id x)) xs) ≡ none
first-forgotten_none id [] = refl
first-forgotten_none id (x ∷ xs) = elim (Bool-cases (op_with id x)) [
  | inl a ↦ rw a (first-forgotten_none id xs)
  | inr a ↦ rw (a, a) (first-forgotten_none id xs)
]

conflict-not_applied : (o : Outcome) → is_conflict o ≡ true → is_applied o ≡ false
conflict-not_applied conflicted e = refl
conflict-not_applied rejected e = refl
conflict-not_applied applied e = cc

abbrev pub Refuses : Option (Outcome × String) → Type 0
Refuses none = Unit
Refuses (some v) = is_applied v.0 ≡ false

pub verdict_of-Refuses : (e : AppError) → Refuses (verdict_of e)
verdict_of-Refuses (sync_conflict code) = refl
verdict_of-Refuses (validation code) = refl
verdict_of-Refuses (not_found code) = refl
verdict_of-Refuses (conflict code) = refl
verdict_of-Refuses (permission_denied code) = refl
verdict_of-Refuses (infrastructure code) = refl
verdict_of-Refuses (auth code) = refl
verdict_of-Refuses (rate_limited code) = refl
verdict_of-Refuses crash = tt

settle-outcome :
    (s : Tables) (actor : User) (device_id : String) (op : OpInput) (outcome : Outcome)
    (code : String)
    → prior_of s op.op_id ≡ none
    → (settle s actor device_id op outcome code).answer.outcome ≡ outcome
unfolding settle
settle-outcome s actor device_id op outcome code h = elim (Bool-cases (is_cacheable code)) [
  | inl e ↦ rw (e, h) refl
  | inr e ↦ rw e refl
]

decide_error-Refuses :
    (s : Tables) (actor : User) (device_id : String) (op : OpInput) (v : Option (Outcome × String))
    → Refuses v
    → prior_of s op.op_id ≡ none
    → is_applied (decide_error s actor device_id op v).answer.outcome ≡ false
unfolding decide_error
decide_error-Refuses s actor device_id op none r h = refl
decide_error-Refuses s actor device_id op (some (outcome, code)) r h =
    elim (Bool-cases (is_conflict outcome)) [
      | inl e ↦ rw (e, settle-outcome s actor device_id op outcome code h) r
      | inr e ↦ rw (e, settle-outcome s actor device_id op outcome code h) r
    ]

-- The answer is the one of an applied operation that its actor has on record.
abbrev IsOnRecord : User → OpInput → Pushed OpResult → Type 0
IsOnRecord actor op p =
    (x : ProcessedOp) × prior_of p.after op.op_id ≡ some x
    × is_applied x.result ≡ true
    × is_foreign x actor ≡ false
    × p.answer ≡ plain x.op_id x.result x.server_seq x.code x.version

module _ (db : Database) (now : ℤ) (actor : User) (device_id : String)
    (branch_id : Option String) where
  applied_op-own :
      (op : OpInput) (a : Applied) → is_foreign (applied_op op actor device_id a) actor ≡ false
  applied_op-own op a = rw (eq_refl actor.id) refl

  decide-IsOnRecord :
      (s : Tables) (op : OpInput)
      → prior_of s op.op_id ≡ none
      → is_applied (decide db now actor device_id branch_id s op).answer.outcome ≡ true
      → IsOnRecord actor op (decide db now actor device_id branch_id s op)
  unfolding decide
  decide-IsOnRecord s op h k = elim (Result-cases (apply db now s actor branch_id op)) [
    | inl (a, e) ↦
        let x = applied_op op actor device_id a in
        rw (e, decide)
          (
            x,
            rw (apply-processed db now s actor branch_id op a e) (
                first-append_none (op_with op.op_id) s.processed (x ∷ []) h
                ∙ (rw (eq_refl op.op_id) refl)),
            refl,
            applied_op-own op a,
            refl,
          )
    | inr (x, e) ↦
        let no =
          decide_error-Refuses s actor device_id op (verdict_of x) (verdict_of-Refuses x) h in
        (let k1 = rw (e, decide) at k in cc)
  ]

  replay-IsOnRecord :
      (s : Tables) (op : OpInput) (x : ProcessedOp)
      → prior_of s op.op_id ≡ some x
      → is_foreign x actor ≡ false
      → is_applied (replay s x actor op).outcome ≡ true
      → IsOnRecord actor op (record { after = s; answer = replay s x actor op })
  unfolding replay
  replay-IsOnRecord s op x h f k = elim (Bool-cases (is_conflict x.result)) [
    | inl e ↦ (let no = conflict-not_applied x.result e in let k1 = rw e at k in cc)
    | inr e ↦ (let k1 = rw e at k in rw e (x, h, k1, f, refl))
  ]

  push_known-IsOnRecord :
      (s : Tables) (op : OpInput)
      → is_applied
          (push_known db now actor device_id branch_id s op (prior_of s op.op_id)).answer.outcome
        ≡ true
      → IsOnRecord actor op (push_known db now actor device_id branch_id s op (prior_of s op.op_id))
  unfolding push_known
  push_known-IsOnRecord s op k = elim (Option-cases (prior_of s op.op_id)) [
    | inl e ↦ (let k1 = rw e at k in rw e (decide-IsOnRecord s op e k1))
    | inr (x, e) ↦ elim (Bool-cases (is_foreign x actor)) [
      | inr f ↦ (let k1 = rw (e, f) at k in rw (e, f) (replay-IsOnRecord s op x e f k1))
      | inl f ↦ elim (Bool-cases (is_applied x.result)) [
        | inl a ↦ (let k1 = rw (e, f, a) at k in cc)
        | inr a ↦
            (let k1 = rw (e, f, a) at k in
              rw (e, f, a)
                (decide-IsOnRecord (forget s op.op_id) op
                  (first-forgotten_none op.op_id s.processed) k1))
      ]
    ]
  ]

  push_one-IsOnRecord :
      (s : Tables) (op : OpInput)
      → is_applied (push_one db now actor device_id branch_id s op).answer.outcome ≡ true
      → IsOnRecord actor op (push_one db now actor device_id branch_id s op)
        × is_uuid op.op_id ≡ true
  unfolding push_one
  push_one-IsOnRecord s op k = elim (Bool-cases (is_uuid op.op_id)) [
    | inl e ↦ (let k1 = rw e at k in rw e (push_known-IsOnRecord s op k1, refl))
    | inr e ↦ (let k1 = rw e at k in cc)
  ]

  -- A recorded operation of the actor's own answers from its record.
  push_one-recorded :
      (s : Tables) (op : OpInput) (x : ProcessedOp)
      → is_uuid op.op_id ≡ true
      → prior_of s op.op_id ≡ some x
      → is_applied x.result ≡ true
      → is_foreign x actor ≡ false
      → push_one db now actor device_id branch_id s op
        ≡ record { after = s; answer = plain x.op_id x.result x.server_seq x.code x.version }
  unfolding push_one push_known replay
  push_one-recorded s op x u h a f = elim (Bool-cases (is_conflict x.result)) [
    | inl e ↦ (let no = conflict-not_applied x.result e in cc)
    | inr e ↦ rw (u, h, f, e) refl
  ]

module _ (db : Database) (now : ℤ) (device_id : String) (branch_id : Option String) (db' : Database)
    (now' : ℤ) (actor' : User) (device_id' : String) (branch_id' : Option String) where
  -- An operation that was applied is applied once: whatever any user pushes after it, the same
  -- user who sends it again, from any device, in any branch and at any time, gets the answer of
  -- the first time, and the tables stay as they are.
  pub push_one-once :
      (later : ℤ) (device : String) (branch : Option String) (s : Tables) (actor : User)
      (op : OpInput) (ops : List OpInput)
      → is_applied (push_one db now actor device_id branch_id s op).answer.outcome ≡ true
      → let p = push_one db now actor device_id branch_id s op in
        let t = (push db' now' actor' device_id' branch_id' p.after ops).after in
        push_one db later actor device branch t op ≡ record { after = t; answer = p.answer }
  push_one-once later device branch s actor op ops k =
      let ((x, found, a, own, answered), u) =
        push_one-IsOnRecord db now actor device_id branch_id s op k in
      let p = push_one db now actor device_id branch_id s op in
      let t = (push db' now' actor' device_id' branch_id' p.after ops).after in
      let kept =
        push-keeps_applied db' now' actor' device_id' branch_id' p.after ops op.op_id x found a in
      rw answered (push_one-recorded db later actor device branch t op x u kept a own)
