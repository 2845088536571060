-- ===== src/SyncService/Once.antt =====
-- An operation that was applied is applied once: its record stays, and it answers alike ever after.
use dukan_pro.Prelude.{
  String, ◌≡◌, refl, ap, sym, ◌∙◌, inl, inr, true, false, not, Option, none, some, List, [], ◌∷◌,
  ◌++◌, Bool-cases, Option-cases,
}
use mathlib.Core.Option.{some_inj}
use dukan_pro.Prelude.Int.{ℤ}
use dukan_pro.Prelude.Text.{str_eq, str_eq→eq}
use dukan_pro.Errors.{ok, >>=-eq-ok, >>-eq-ok, ok_inj, Result-cases}
use dukan_pro.Domain.Identity.{User}
use dukan_pro.Store.Queries.{select, first}
use dukan_pro.Store.Sums.{first-append_some}
use dukan_pro.Sync.Types.{OpInput, ApplyPlan}
use dukan_pro.Sync.Fields.{is_uuid}
use dukan_pro.Sync.Dispatch.{check_envelope, plan_op}
use dukan_pro.Sync.Pull.{is_cacheable}
use dukan_pro.SyncService.Applying.{
  snapshot, row_at, Database, Tables, ProcessedOp, OpResult, Outcome, Applied, inserted_row,
  to_update, write, apply,
}
use dukan_pro.SyncService.Settling.{
  verdict_of, Pushed, op_with, prior_of, is_applied, is_conflict, settle, decide_error,
  shown_conflict, is_foreign, forget,
}
use dukan_pro.SyncService.Deciding.{decide, push_known, push_one}

-- The records of applied operations stay as they are.
abbrev pub Keeps : List ProcessedOp → List ProcessedOp → Type 0
Keeps xs ys =
    (op_id : String) (x : ProcessedOp)
    → first (op_with op_id) xs ≡ some x
    → is_applied x.result ≡ true
    → first (op_with op_id) ys ≡ some x

pub Keeps-same : (xs ys : List ProcessedOp) → ys ≡ xs → Keeps xs ys
Keeps-same xs ys e i x h a = rw e h

pub Keeps-then : (xs ys zs : List ProcessedOp) → Keeps xs ys → Keeps ys zs → Keeps xs zs
Keeps-then xs ys zs h k i x e a = k i x (h i x e a) a

pub Keeps-more : (xs more : List ProcessedOp) → Keeps xs (xs ++ more)
Keeps-more xs more i x h a = first-append_some (op_with i) xs more x h

first-forgotten :
    (j k : String) (xs : List ProcessedOp)
    → str_eq j k ≡ false
    → first (op_with k) (select (λ (x : ProcessedOp). not (op_with j x)) xs) ≡ first (op_with k) xs
first-forgotten j k [] h = refl
first-forgotten j k (x ∷ xs) h = elim (Bool-cases (op_with j x)) [
  | inl gone ↦
      let same : x.op_id ≡ j = str_eq→eq x.op_id j gone in
      rw (gone, same, h) (first-forgotten j k xs h)
  | inr stays ↦ rw stays (elim (Bool-cases (op_with k x)) [
    | inl e ↦ rw e refl
    | inr e ↦ rw e (first-forgotten j k xs h)
  ])
]

-- Another user's failed attempt is forgotten.
Keeps-forget :
    (s : Tables) (op_id : String) (prior : ProcessedOp)
    → prior_of s op_id ≡ some prior
    → is_applied prior.result ≡ false
    → Keeps s.processed (forget s op_id).processed
Keeps-forget s j prior found failed k x h a = elim (Bool-cases (str_eq j k)) [
  | inl same ↦
      let e = str_eq→eq j k same in
      let both : prior ≡ x = some_inj.0 (sym found ∙ (rw e h)) in
      (let clash = rw both at failed in cc)
  | inr other ↦ first-forgotten j k s.processed other ∙ h
]

pub settle-Keeps :
    (s : Tables) (actor : User) (device_id : String) (op : OpInput) (outcome : Outcome)
    (code : String)
    → Keeps s.processed (settle s actor device_id op outcome code).after.processed
unfolding settle
settle-Keeps s actor device_id op outcome code = elim (Bool-cases (is_cacheable code)) [
  | inl final ↦ elim (Option-cases (prior_of s op.op_id)) [
    | inl none_before ↦ rw (final, none_before) (Keeps-more s.processed _)
    | inr (x, before) ↦ rw (final, before) (Keeps-same s.processed _ refl)
  ]
  | inr transient ↦ rw transient (Keeps-same s.processed _ refl)
]

pub shown-Keeps :
    (xs : List ProcessedOp) (actor : User) (op : OpInput) (p : Pushed OpResult)
    → Keeps xs p.after.processed
    → Keeps xs (shown_conflict actor op p).after.processed
shown-Keeps xs actor op p h = elim (Bool-cases (is_conflict p.answer.outcome)) [
  | inl e ↦ rw e h
  | inr e ↦ rw e h
]

decide_error-Keeps :
    (s : Tables) (actor : User) (device_id : String) (op : OpInput) (v : Option (Outcome × String))
    → Keeps s.processed (decide_error s actor device_id op v).after.processed
unfolding decide_error
decide_error-Keeps s actor device_id op none = Keeps-same s.processed _ refl
decide_error-Keeps s actor device_id op (some (outcome, code)) =
    elim (Bool-cases (is_conflict outcome)) [
      | inl e ↦ rw e (settle-Keeps s actor device_id op outcome code)
      | inr e ↦ rw e (settle-Keeps s actor device_id op outcome code)
    ]

module _ (db : Database) (now : ℤ) where
  write-processed :
      (s : Tables) (op : OpInput) (p : ApplyPlan) (a : Applied)
      → write db now s op p ≡ ok a
      → a.after.processed ≡ s.processed
  unfolding write
  write-processed s op p a h = elim (Bool-cases p.noop) [
    | inl e ↦ (let k = rw e at h in ap (λ (x : Applied). x.after.processed) (sym (ok_inj k)))
    | inr e ↦ elim (Bool-cases (str_eq op.op "insert")) [
      | inl i ↦ elim (Bool-cases (db.clashes s (inserted_row op p))) [
        | inl c ↦ (let k = rw (e, i, c) at h in cc)
        | inr c ↦
            (let k = rw (e, i, c) at h in ap (λ (x : Applied). x.after.processed) (sym (ok_inj k)))
      ]
      | inr i ↦ elim (Option-cases (first (to_update op p) s.rows)) [
        | inl c ↦ (let k = rw (e, i, c) at h in cc)
        | inr (r, c) ↦
            (let k = rw (e, i, c) at h in ap (λ (x : Applied). x.after.processed) (sym (ok_inj k)))
      ]
    ]
  ]

  pub apply-processed :
      (s : Tables) (actor : User) (branch_id : Option String) (op : OpInput) (a : Applied)
      → apply db now s actor branch_id op ≡ ok a
      → a.after.processed ≡ s.processed
  unfolding apply
  apply-processed s actor branch_id op a h =
      let (_, h1) = >>-eq-ok (check_envelope db.iso op actor) _ h in
      let (p, _, h2) =
        >>=-eq-ok
          (plan_op db.iso op actor branch_id (snapshot (first (row_at op.table op.row_id) s.rows))
            (db.reader s) now)
          (write db now s op) h1 in
      write-processed s op p a h2

  module _ (actor : User) (device_id : String) (branch_id : Option String) where
    decide-Keeps :
        (s : Tables) (op : OpInput)
        → Keeps s.processed (decide db now actor device_id branch_id s op).after.processed
    unfolding decide
    decide-Keeps s op = elim (Result-cases (apply db now s actor branch_id op)) [
      | inl (a, e) ↦
          rw (e, decide, apply-processed s actor branch_id op a e) (Keeps-more s.processed _)
      | inr (x, e) ↦ rw (e, decide) (decide_error-Keeps s actor device_id op (verdict_of x))
    ]

    push_known-Keeps :
        (s : Tables) (op : OpInput)
        → Keeps s.processed
            (push_known db now actor device_id branch_id s op (prior_of s op.op_id)).after.processed
    unfolding push_known
    push_known-Keeps s op = elim (Option-cases (prior_of s op.op_id)) [
      | inl e ↦ rw e (decide-Keeps s op)
      | inr (x, e) ↦ elim (Bool-cases (is_foreign x actor)) [
        | inr f ↦ rw (e, f) (Keeps-same s.processed _ refl)
        | inl f ↦ elim (Bool-cases (is_applied x.result)) [
          | inl a ↦ rw (e, f, a) (Keeps-same s.processed _ refl)
          | inr a ↦
              rw (e, f, a)
                (Keeps-then s.processed (forget s op.op_id).processed _
                  (Keeps-forget s op.op_id x e a) (decide-Keeps (forget s op.op_id) op))
        ]
      ]
    ]

    pub push_one-Keeps :
        (s : Tables) (op : OpInput)
        → Keeps s.processed (push_one db now actor device_id branch_id s op).after.processed
    unfolding push_one
    push_one-Keeps s op = elim (Bool-cases (is_uuid op.op_id)) [
      | inl e ↦ rw e (push_known-Keeps s op)
      | inr e ↦ rw e (Keeps-same s.processed _ refl)
    ]
