-- ===== src/Sync/Pull/View.antt =====
-- `PullScope.view` as a whole: whom a row is shown to, and what of it.
use dukan_pro.Prelude.{
  String, true, false, ◌≡◌, refl, inl, inr, Option, none, some, Bool-cases, Option-cases, is_some,
  All,
}
use dukan_pro.Prelude.Text.{str_mem}
use dukan_pro.Prelude.Dict.{lookup, lookup-key}
use dukan_pro.Errors.{ok}
use dukan_pro.Domain.Identity.{Permissions, User}
use dukan_pro.Sync.Values.{Value, Fields}
use dukan_pro.Sync.Pull.{
  PullScope, meets, cost_readers, read_permissions, read_fields, cost_fields, for_actor, perms_for,
  visible, hidden_fields, shown, view, shown_to, view_by,
}
use dukan_pro.Sync.Pull.Visible.{Shown, meets_sound, perms_for_sound, visible-lookup, shown-fields}

module _ (actor : User) (table : String) (branch_id : Option String) (row out : Fields) where
  hidden-cost :
      (perms : Permissions) (k : String)
      → str_mem k (hidden_fields perms table) ≡ false
      → str_mem k (cost_fields table) ≡ true
      → meets perms cost_readers ≡ true
  unfolding hidden_fields
  hidden-cost perms k bare cost = elim (Bool-cases (meets perms cost_readers)) [
    | inl reads ↦ reads
    | inr hides ↦ (let bare = rw hides at bare in cc)
  ]

  shown-Shown :
      (perms readers : Permissions)
      → lookup table read_permissions ≡ some readers
      → perms_for (for_actor actor) table branch_id row ≡ some perms
      → meets perms readers ≡ true
      → shown perms table row ≡ ok (some out)
      → Shown actor table branch_id row out
  shown-Shown perms readers known e m h =
      let (q, held, reads) = meets_sound perms readers m in
      let (ks, fields, made) = shown-fields perms table row out h in
      let field : (k : String) (x : Value)
          → lookup k out ≡ some x
          → (lookup k row ≡ some x)
            × (str_mem k (hidden_fields perms table) ≡ false)
            × (str_mem k ks ≡ true) =
        λ k x f. visible-lookup row (hidden_fields perms table) ks k x (rw made at f) in
      record {
        readers = readers;
        known = known;
        reads = (q, reads, perms_for_sound actor table branch_id row perms q e held);
        unchanged = λ k x f. (field k x f).0;
        readable = λ k x f. (ks, fields, (field k x f).2);
        costs = λ k x f cost.
            let (c, held, reads) =
              meets_sound perms cost_readers (hidden-cost perms k (field k x f).1 cost) in
            (c, reads, perms_for_sound actor table branch_id row perms c e held);
      }

  shown_to-Shown :
      (o : Option Permissions) (readers : Permissions)
      → lookup table read_permissions ≡ some readers
      → perms_for (for_actor actor) table branch_id row ≡ o
      → shown_to o readers table row ≡ ok (some out)
      → Shown actor table branch_id row out
  shown_to-Shown none readers known e h = cc
  shown_to-Shown (some perms) readers known e h = elim (Bool-cases (meets perms readers)) [
    | inl m ↦ shown-Shown perms readers known e m (rw m at h)
    | inr m ↦ (let h = rw m at h in cc)
  ]

  -- A pull shows a row to an actor only who holds a permission that the row's table may be read
  -- with, in the row's branch where it is a branch row. Each field that it shows is the row's,
  -- unchanged, and one of the table's readable fields; a cost only to an actor who holds
  -- product.manage or report.view, in the row's branch where it is a branch row.
  pub view-Shown :
      view (for_actor actor) table branch_id row ≡ ok (some out)
      → Shown actor table branch_id row out
  unfolding view
  view-Shown h = go (lookup table read_permissions) refl h
    where
      go :
          (o : Option Permissions)
          → lookup table read_permissions ≡ o
          → view_by o (perms_for (for_actor actor) table branch_id row) table row ≡ ok (some out)
          → Shown actor table branch_id row out
      go none r h = cc
      go (some readers) r h = shown_to-Shown _ readers r refl h

has_fields : All (λ e. is_some (lookup e.0 read_fields) ≡ true) read_permissions
unfolding read_permissions read_fields lookup
has_fields = (
  refl,
  (
    refl,
    (refl, (refl, (refl, (refl, (refl, (refl, (refl, (refl, (refl, (refl, (refl, tt))))))))))),
  ),
)

-- Every table that may be read has its readable fields.
shown-total :
    (perms readers : Permissions) (table : String) (row : Fields)
    → lookup table read_permissions ≡ some readers
    → (o : Option Fields) × (shown perms table row ≡ ok o)
unfolding shown
shown-total perms readers table row e = elim (Option-cases (lookup table read_fields)) [
  | inl n ↦
      let known =
        lookup-key (λ k. is_some (lookup k read_fields) ≡ true) read_permissions table readers
          has_fields e in
      (let known = rw n at known in cc)
  | inr (ks, f) ↦ (some (visible row (hidden_fields perms table) ks), rw f refl)
]

shown_to-total :
    (o : Option Permissions) (readers : Permissions) (table : String) (row : Fields)
    → lookup table read_permissions ≡ some readers
    → (r : Option Fields) × (shown_to o readers table row ≡ ok r)
shown_to-total none readers table row e = (none, refl)
shown_to-total (some perms) readers table row e = elim (Bool-cases (meets perms readers)) [
  | inl m ↦ let (o, s) = shown-total perms readers table row e in (o, rw m s)
  | inr m ↦ (none, rw m refl)
]

-- A pull answers for every row: it shows it or hides it, and no table that may be read lacks its
-- readable fields.
pub view-total :
    (s : PullScope) (table : String) (branch_id : Option String) (row : Fields)
    → (o : Option Fields) × (view s table branch_id row ≡ ok o)
unfolding view
view-total s table branch_id row = elim (Option-cases (lookup table read_permissions)) [
  | inl n ↦ (none, rw n refl)
  | inr (readers, e) ↦
      let (o, t) = shown_to-total (perms_for s table branch_id row) readers table row e in
      (o, rw e t)
]
