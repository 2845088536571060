-- ===== src/SyncService/Unwritten.antt =====
-- A transaction that fails writes nothing but the records of its operations.
use dukan_pro.Prelude.{
  ℕ, zero, suc, String, ◌≡◌, refl, ◌∙◌, inl, inr, Option, none, some, List, [], ◌∷◌, Bool-cases,
  Option-cases,
}
use dukan_pro.Prelude.Int.{ℤ}
use dukan_pro.Domain.Identity.{User}
use dukan_pro.Sync.Types.{OpInput}
use dukan_pro.Sync.Fields.{is_uuid}
use dukan_pro.Sync.Pull.{is_cacheable}
use dukan_pro.SyncService.Applying.{Database, Tables, OpResult, Outcome, rejected}
use dukan_pro.SyncService.Settling.{prior_of, Pushed, settle, shown_conflict, is_conflict}
use dukan_pro.SyncService.Transacting.{abort, abort_one, abort_invalid, invalid_one, one_less}

-- Nothing but the records of operations differs.
abbrev pub Unwritten : Tables → Tables → Type 0
Unwritten s t = (t.rows ≡ s.rows) × (t.feed ≡ s.feed) × (t.audit ≡ s.audit)

Unwritten-then : (s t u : Tables) → Unwritten s t → Unwritten t u → Unwritten s u
Unwritten-then s t u (a, b, c) (x, y, z) = (x ∙ a, y ∙ b, z ∙ c)

settle-Unwritten :
    (s : Tables) (actor : User) (device_id : String) (op : OpInput) (outcome : Outcome)
    (code : String)
    → Unwritten s (settle s actor device_id op outcome code).after
unfolding settle
settle-Unwritten s actor device_id op outcome code = elim (Bool-cases (is_cacheable code)) [
  | inl e ↦ elim (Option-cases (prior_of s op.op_id)) [
    | inl f ↦ rw (e, f) (refl, refl, refl)
    | inr (x, f) ↦ rw (e, f) (refl, refl, refl)
  ]
  | inr e ↦ rw e (refl, refl, refl)
]

shown-Unwritten :
    (s : Tables) (actor : User) (op : OpInput) (p : Pushed OpResult)
    → Unwritten s p.after
    → Unwritten s (shown_conflict actor op p).after
shown-Unwritten s actor op p h = elim (Bool-cases (is_conflict p.answer.outcome)) [
  | inl e ↦ rw e h
  | inr e ↦ rw e h
]

module _ (db : Database) (now : ℤ) (actor : User) (device_id : String)
    (branch_id : Option String) where
  abort_one-Unwritten :
      (s : Tables) (i : Option ℕ) (verdict : Outcome × String) (op : OpInput)
      → Unwritten s (abort_one db now actor device_id branch_id s i verdict op).after
  unfolding abort_one
  abort_one-Unwritten s none verdict op = settle-Unwritten s actor device_id op rejected _
  abort_one-Unwritten s (some zero) verdict op =
      shown-Unwritten s actor op (settle s actor device_id op verdict.0 verdict.1)
        (settle-Unwritten s actor device_id op verdict.0 verdict.1)
  abort_one-Unwritten s (some (suc i)) verdict op = settle-Unwritten s actor device_id op rejected _

  pub abort-Unwritten :
      (s : Tables) (i : Option ℕ) (verdict : Outcome × String) (ops : List OpInput)
      → Unwritten s (abort db now actor device_id branch_id s i verdict ops).after
  unfolding abort
  abort-Unwritten s i verdict [] = (refl, refl, refl)
  abort-Unwritten s i verdict (op ∷ ops) =
      let t = (abort_one db now actor device_id branch_id s i verdict op).after in
      let j = one_less i in
      Unwritten-then s t (abort db now actor device_id branch_id t j verdict ops).after
        (abort_one-Unwritten s i verdict op) (abort-Unwritten t j verdict ops)

  invalid_one-Unwritten :
      (s : Tables) (op : OpInput)
      → Unwritten s (invalid_one db now actor device_id branch_id s op).after
  invalid_one-Unwritten s op = elim (Bool-cases (is_uuid op.op_id)) [
    | inl e ↦ rw e (settle-Unwritten s actor device_id op rejected "SYNC_TX_ABORTED")
    | inr e ↦ rw e (refl, refl, refl)
  ]

  pub abort_invalid-Unwritten :
      (s : Tables) (ops : List OpInput)
      → Unwritten s (abort_invalid db now actor device_id branch_id s ops).after
  unfolding abort_invalid
  abort_invalid-Unwritten s [] = (refl, refl, refl)
  abort_invalid-Unwritten s (op ∷ ops) =
      let t = (invalid_one db now actor device_id branch_id s op).after in
      Unwritten-then s t (abort_invalid db now actor device_id branch_id t ops).after
        (invalid_one-Unwritten s op) (abort_invalid-Unwritten t ops)
