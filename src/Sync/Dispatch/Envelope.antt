-- ===== src/Sync/Dispatch/Envelope.antt =====
-- Which envelopes `check_envelope` lets through.
use dukan_pro.Prelude.{
  String, true, false, not, ◌≡◌, refl, ◌≢◌, ◌⊎◌, ◌↔◌, inl, inr, Option, none, some, arith,
  Bool-cases, Option-cases, is_some, [], ◌∷◌, if◌then◌else◌,
}
use dukan_pro.Prelude.Int.{ℤ, pos, ◌≤ℤ◌}
use dukan_pro.Prelude.Text.{str_eq, str_mem, eq_iff}
use dukan_pro.Errors.{ok, >>-eq-ok, passed}
use dukan_pro.Domain.Limits.{int32_max}
use dukan_pro.Domain.Identity.{User}
use dukan_pro.Sync.Types.{OpInput}
use dukan_pro.Sync.Fields.{is_uuid}
use dukan_pro.Sync.EventTime.{Clock, parse_recorded_at}
use dukan_pro.Sync.Dispatch.{
  check_envelope, check_base_version, handler, is_sync_table, another_actor, unreadable,
}

-- The base version of an update: a number of 32 bits, not negative.
abbrev pub Based : Option ℤ → Type 0
Based o = (n : ℤ) × (o ≡ some n) × (pos 0 ≤ℤ n) × (n ≤ℤ int32_max)

-- An operation that may be planned for the actor.
pub record WellFormed (fromisoformat : Clock) (op : OpInput) (actor : User) : Type 0 where
  pub row_is_uuid : is_uuid op.row_id ≡ true
  pub known_table : is_sync_table op.table ≡ true
  pub known_op : (op.op ≡ "insert") ⊎ (op.op ≡ "update")
  pub handled : is_some (handler fromisoformat op.table op.op) ≡ true
  pub base : op.op ≡ "update" → Based op.base_version
  pub own : (op.actor_id ≡ none) ⊎ (op.actor_id ≡ some actor.id)
  pub dated : (t : String) → op.created_at ≡ some t → parse_recorded_at fromisoformat t ≢ none

base_iff :
    (fromisoformat : Clock) (o : Option ℤ) → (check_base_version fromisoformat o ≡ ok tt) ↔ Based o
unfolding check_base_version
base_iff fromisoformat none = ((λ h. cc), λ (n, e, _, _). cc)
base_iff fromisoformat (some n) =
    ((λ h. (n, refl, ground arith, ground arith)), λ (m, e, lo, hi). ground arith)

own_iff :
    (fromisoformat : Clock) (o : Option String) (actor : User)
    → (another_actor fromisoformat o actor ≡ false) ↔ ((o ≡ none) ⊎ (o ≡ some actor.id))
own_iff fromisoformat none actor = ((λ h. inl refl), λ h. refl)
own_iff fromisoformat (some id) actor = (
  (λ h. inr (rw ((eq_iff id actor.id).0 (ground arith)) refl)),
  λ h. ground (arith, eq_iff id actor.id),
)

dated_iff :
    (fromisoformat : Clock) (o : Option String)
    → (unreadable fromisoformat o ≡ false)
      ↔ ((t : String) → o ≡ some t → parse_recorded_at fromisoformat t ≢ none)
dated_iff fromisoformat none = ((λ h t e. cc), λ h. refl)
dated_iff fromisoformat (some s) = (
  (λ h t e n. let same : s ≡ t = cc in let h = rw (same, n) at h in cc),
  λ h. elim (Option-cases (parse_recorded_at fromisoformat s)) [
    | inl n ↦ absurd (h s refl n)
    | inr (a, e) ↦ rw e refl
  ],
)

op_iff :
    (op : String)
    → (str_mem op ("insert" ∷ "update" ∷ []) ≡ true) ↔ ((op ≡ "insert") ⊎ (op ≡ "update"))
op_iff op = (
  (λ h. ground (arith, eq_iff op "insert", eq_iff op "update")),
  λ h. ground (arith, eq_iff op "insert", eq_iff op "update"),
)

envelope_sound :
    (fromisoformat : Clock) (op : OpInput) (actor : User)
    → check_envelope fromisoformat op actor ≡ ok tt
    → WellFormed fromisoformat op actor
unfolding check_envelope
envelope_sound fromisoformat op actor h =
    let (row, h) = passed (not (is_uuid op.row_id)) _ _ h in
    let (table, h) = passed (not (is_sync_table op.table)) _ _ h in
    let (known, h) = passed (not (str_mem op.op ("insert" ∷ "update" ∷ []))) _ _ h in
    let (handled, h) = passed (not (is_some (handler fromisoformat op.table op.op))) _ _ h in
    let (base, h) =
      >>-eq-ok
        (if str_eq op.op "update" then check_base_version fromisoformat op.base_version else ok tt)
        _ h in
    let (own, h) = passed (another_actor fromisoformat op.actor_id actor) _ _ h in
    record {
      row_is_uuid = ground arith;
      known_table = ground arith;
      known_op = (op_iff op.op).0 (ground arith);
      handled = ground arith;
      base = λ e.
          (base_iff fromisoformat op.base_version).0 (rw ((eq_iff op.op "update").1 e) at base);
      own = (own_iff fromisoformat op.actor_id actor).0 own;
      dated = (dated_iff fromisoformat op.created_at).0 (ground arith);
    }

envelope_complete :
    (fromisoformat : Clock) (op : OpInput) (actor : User)
    → WellFormed fromisoformat op actor
    → check_envelope fromisoformat op actor ≡ ok tt
unfolding check_envelope
envelope_complete fromisoformat op actor w =
    rw
      (
        w.row_is_uuid,
        w.known_table,
        (op_iff op.op).1 w.known_op,
        w.handled,
        (own_iff fromisoformat op.actor_id actor).1 w.own,
        (dated_iff fromisoformat op.created_at).1 w.dated,
      )
      (elim (Bool-cases (str_eq op.op "update")) [
        | inl update ↦
            rw
              (
                update,
                (base_iff fromisoformat op.base_version).1
                    (w.base ((eq_iff op.op "update").0 update)),
              )
              refl
        | inr insert ↦ rw insert refl
      ])

-- An envelope passes exactly when it is well formed: its row id is a UUID, its table and operation
-- are known and have a handler, an update is based on a version from 0 to 2^31 - 1, it was recorded
-- by the actor or names nobody, and its time can be read where it has one.
pub check_envelope_iff :
    (fromisoformat : Clock) (op : OpInput) (actor : User)
    → (check_envelope fromisoformat op actor ≡ ok tt) ↔ WellFormed fromisoformat op actor
check_envelope_iff fromisoformat op actor =
    (envelope_sound fromisoformat op actor, envelope_complete fromisoformat op actor)
