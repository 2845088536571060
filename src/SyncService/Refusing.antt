-- ===== src/SyncService/Refusing.antt =====
-- A transaction that fails answers none of its operations as applied.
use dukan_pro.Prelude.{
  ℕ, zero, suc, String, ◌≡◌, refl, inl, inr, Option, none, some, is_some, List, [], ◌∷◌, ◌++◌, any,
  All, Bool-cases, Option-cases, false, sym, ◌∙◌,
}
use mathlib.Core.Option.{some_inj}
use dukan_pro.Prelude.Int.{ℤ}
use dukan_pro.Domain.Identity.{User}
use dukan_pro.Store.Queries.{first}
use dukan_pro.Store.Sums.{first-append_some, first-append_none}
use dukan_pro.Sync.Types.{OpInput}
use dukan_pro.Sync.Fields.{is_uuid}
use dukan_pro.Sync.Pull.{is_cacheable}
use dukan_pro.SyncService.Applying.{Database, Tables, OpResult, Outcome, ProcessedOp, rejected}
use dukan_pro.SyncService.Settling.{
  op_with, prior_of, replay, Pushed, settle, settled_op, shown_conflict, is_applied, is_conflict,
}
use dukan_pro.SyncService.Transacting.{
  abort, abort_one, abort_invalid, invalid_one, one_less, verdict_or_invalid,
}
use dukan_pro.SyncService.Replays.{Refuses}

-- The operation, if it is on record, was not applied.
abbrev Unapplied : Tables → String → Type 0
Unapplied s op_id = (x : ProcessedOp) → prior_of s op_id ≡ some x → is_applied x.result ≡ false

abbrev pub AllUnapplied : Tables → List OpInput → Type 0
AllUnapplied s [] = Unit
AllUnapplied s (op ∷ ops) = Unapplied s op.op_id × AllUnapplied s ops

abbrev pub IsRefused : OpResult → Type 0
IsRefused r = is_applied r.outcome ≡ false

pub fresh-AllUnapplied :
    (s : Tables) (ops : List OpInput)
    → any (λ (o : OpInput). is_some (prior_of s o.op_id)) ops ≡ false
    → AllUnapplied s ops
fresh-AllUnapplied s [] h = tt
fresh-AllUnapplied s (op ∷ ops) h = elim (Option-cases (prior_of s op.op_id)) [
  | inl e ↦ ((λ x found. (let bad = rw e at found in cc)), fresh-AllUnapplied s ops (rw e at h))
  | inr (x, e) ↦ (let bad = rw e at h in cc)
]

replay-outcome :
    (s : Tables) (x : ProcessedOp) (actor : User) (op : OpInput)
    → (replay s x actor op).outcome ≡ x.result
unfolding replay
replay-outcome s x actor op = elim (Bool-cases (is_conflict x.result)) [
  | inl e ↦ rw e refl
  | inr e ↦ rw e refl
]

settle-IsRefused :
    (s : Tables) (actor : User) (device_id : String) (op : OpInput) (outcome : Outcome)
    (code : String)
    → is_applied outcome ≡ false
    → Unapplied s op.op_id
    → IsRefused (settle s actor device_id op outcome code).answer
unfolding settle
settle-IsRefused s actor device_id op outcome code bad before =
    elim (Bool-cases (is_cacheable code)) [
      | inl e ↦ elim (Option-cases (prior_of s op.op_id)) [
        | inl f ↦ rw (e, f) bad
        | inr (x, f) ↦ rw (e, f, replay-outcome s x actor op) (before x f)
      ]
      | inr e ↦ rw e bad
    ]

last-Unapplied :
    (op_id : String) (xs : List ProcessedOp) (y x : ProcessedOp)
    → ((z : ProcessedOp) → first (op_with op_id) xs ≡ some z → is_applied z.result ≡ false)
    → is_applied y.result ≡ false
    → first (op_with op_id) (xs ++ (y ∷ [])) ≡ some x
    → is_applied x.result ≡ false
last-Unapplied op_id xs y x before bad found = elim (Option-cases (first (op_with op_id) xs)) [
  | inr (z, e) ↦
      let same : z ≡ x =
        some_inj.0 (sym (first-append_some (op_with op_id) xs (y ∷ []) z e) ∙ found) in
      rw (← same) (before z e)
  | inl e ↦
      let alone = sym (first-append_none (op_with op_id) xs (y ∷ []) e) ∙ found in
      elim (Bool-cases (op_with op_id y)) [
        | inl mine ↦ let same : y ≡ x = some_inj.0 (rw mine at alone) in rw (← same) bad
        | inr other ↦ (let none_left = rw other at alone in cc)
      ]
]

settle-Unapplied :
    (s : Tables) (actor : User) (device_id : String) (op : OpInput) (outcome : Outcome)
    (code : String) (op_id : String)
    → is_applied outcome ≡ false
    → Unapplied s op_id
    → Unapplied (settle s actor device_id op outcome code).after op_id
unfolding settle
settle-Unapplied s actor device_id op outcome code op_id bad before =
    elim (Bool-cases (is_cacheable code)) [
      | inl e ↦ elim (Option-cases (prior_of s op.op_id)) [
        | inl f ↦
            rw (e, f)
              (λ x.
                last-Unapplied op_id s.processed (settled_op op actor device_id outcome code) x
                  before bad)
        | inr (x, f) ↦ rw (e, f) before
      ]
      | inr e ↦ rw e before
    ]

AllUnapplied-more :
    (s t : Tables) (ops : List OpInput)
    → ((op_id : String) → Unapplied s op_id → Unapplied t op_id)
    → AllUnapplied s ops
    → AllUnapplied t ops
AllUnapplied-more s t [] keep h = tt
AllUnapplied-more s t (op ∷ ops) keep (h, hs) = (keep op.op_id h, AllUnapplied-more s t ops keep hs)

-- A step after which what was not applied is still not.
abbrev Refusing : Tables → OpInput → Pushed OpResult → Type 0
Refusing s op p =
    ((op_id : String) → Unapplied s op_id → Unapplied p.after op_id)
    × (Unapplied s op.op_id → IsRefused p.answer)

settle-Refusing :
    (s : Tables) (actor : User) (device_id : String) (op : OpInput) (outcome : Outcome)
    (code : String)
    → is_applied outcome ≡ false
    → Refusing s op (settle s actor device_id op outcome code)
settle-Refusing s actor device_id op outcome code bad = (
  λ op_id. settle-Unapplied s actor device_id op outcome code op_id bad,
  settle-IsRefused s actor device_id op outcome code bad,
)

shown-Refusing :
    (s : Tables) (actor : User) (op : OpInput) (p : Pushed OpResult)
    → Refusing s op p
    → Refusing s op (shown_conflict actor op p)
shown-Refusing s actor op p h = elim (Bool-cases (is_conflict p.answer.outcome)) [
  | inl e ↦ rw e h
  | inr e ↦ rw e h
]

pub verdict_or_invalid-refused :
    (v : Option (Outcome × String)) → Refuses v → is_applied (verdict_or_invalid v).0 ≡ false
verdict_or_invalid-refused none h = refl
verdict_or_invalid-refused (some v) h = h

module _ (db : Database) (now : ℤ) (actor : User) (device_id : String)
    (branch_id : Option String) where
  abort_one-Refusing :
      (s : Tables) (i : Option ℕ) (verdict : Outcome × String) (op : OpInput)
      → is_applied verdict.0 ≡ false
      → Refusing s op (abort_one db now actor device_id branch_id s i verdict op)
  unfolding abort_one
  abort_one-Refusing s none verdict op bad = settle-Refusing s actor device_id op rejected _ refl
  abort_one-Refusing s (some zero) verdict op bad =
      shown-Refusing s actor op (settle s actor device_id op verdict.0 verdict.1)
        (settle-Refusing s actor device_id op verdict.0 verdict.1 bad)
  abort_one-Refusing s (some (suc i)) verdict op bad =
      settle-Refusing s actor device_id op rejected _ refl

  pub abort-refuses :
      (s : Tables) (i : Option ℕ) (verdict : Outcome × String) (ops : List OpInput)
      → is_applied verdict.0 ≡ false
      → AllUnapplied s ops
      → All IsRefused (abort db now actor device_id branch_id s i verdict ops).answer
  unfolding abort
  abort-refuses s i verdict [] bad h = tt
  abort-refuses s i verdict (op ∷ ops) bad (h, hs) =
      let p = abort_one db now actor device_id branch_id s i verdict op in
      let (keep, refused) = abort_one-Refusing s i verdict op bad in
      (
        refused h,
        abort-refuses p.after (one_less i) verdict ops bad
            (AllUnapplied-more s p.after ops keep hs),
      )

  invalid_one-Refusing :
      (s : Tables) (op : OpInput)
      → Refusing s op (invalid_one db now actor device_id branch_id s op)
  invalid_one-Refusing s op = elim (Bool-cases (is_uuid op.op_id)) [
    | inl e ↦ rw e (settle-Refusing s actor device_id op rejected "SYNC_TX_ABORTED" refl)
    | inr e ↦ rw e ((λ op_id h. h), (λ h. refl))
  ]

  pub abort_invalid-refuses :
      (s : Tables) (ops : List OpInput)
      → AllUnapplied s ops
      → All IsRefused (abort_invalid db now actor device_id branch_id s ops).answer
  unfolding abort_invalid
  abort_invalid-refuses s [] h = tt
  abort_invalid-refuses s (op ∷ ops) (h, hs) =
      let p = invalid_one db now actor device_id branch_id s op in
      let (keep, refused) = invalid_one-Refusing s op in
      (refused h, abort_invalid-refuses p.after ops (AllUnapplied-more s p.after ops keep hs))
