-- ===== src/Sync/Pull/Visible.antt =====
-- What a pull may show: rows to those who may read them, as they are, and costs to fewer.
use dukan_pro.Prelude.{
  String, true, false, ◌≡◌, refl, ◌⊎◌, inl, inr, Option, none, some, arith, Bool-cases, ◌&&◌, List,
  [], ◌∷◌, any,
}
use dukan_pro.Prelude.Text.{str_eq, str_mem, eq_iff}
use dukan_pro.Prelude.Dict.{lookup, lookup-cons}
use dukan_pro.Errors.{ok}
use dukan_pro.Domain.Identity.{
  Permission, Permissions, all_permissions, User, BranchAssignment, is_active, permissions_for, can,
}
use dukan_pro.Sync.Values.{Value, Fields}
use dukan_pro.Sync.Pull.{
  meets, cost_readers, read_permissions, read_fields, branch_scoped_read, cost_fields, branches_of,
  union_of, for_actor, row_branch, perms_for, visible, hidden_fields, shown, keep, shown_of,
  branch_perms, or_nothing,
}

any_meets :
    (perms readers : Permissions) (l : List Permission)
    → any (λ p. perms p && readers p) l ≡ true
    → (q : Permission) × (perms q ≡ true) × (readers q ≡ true)
any_meets perms readers [] h = cc
any_meets perms readers (q ∷ l) h = elim (Bool-cases (perms q && readers q)) [
  | inl both ↦ (q, ground arith, ground arith)
  | inr fails ↦ any_meets perms readers l (ground arith)
]

pub meets_sound :
    (perms readers : Permissions)
    → meets perms readers ≡ true
    → (q : Permission) × (perms q ≡ true) × (readers q ≡ true)
unfolding meets
meets_sound perms readers h = any_meets perms readers all_permissions h

-- A permission that the actor holds in a branch, which for a branch row is the row's.
pub record Holds (actor : User) (table : String) (branch_id : Option String) (row : Fields)
    (q : Permission) : Type 0 where
  pub branch : String
  pub may : can actor q branch ≡ true
  pub here : str_mem table branch_scoped_read ≡ true → row_branch branch_id row ≡ some branch

branches_sound :
    (actor : User) (l : List BranchAssignment) (b : String) (perms : Permissions) (q : Permission)
    → is_active actor ≡ true
    → lookup b (branches_of actor l) ≡ some perms
    → perms q ≡ true
    → can actor q b ≡ true
unfolding branches_of can lookup
branches_sound actor [] b perms q a e h = cc
branches_sound actor (x ∷ l) b perms q a e h = elim (Bool-cases (str_eq x.branch_id b)) [
  | inl same ↦
      let e = rw same at e in
      let held : permissions_for actor x.branch_id ≡ perms = cc in
      rw (a, ← (eq_iff x.branch_id b).0 same, held) h
  | inr other ↦ branches_sound actor l b perms q a (rw other at e) h
]

union_sound :
    (actor : User) (l : List BranchAssignment) (q : Permission)
    → is_active actor ≡ true
    → union_of (branches_of actor l) q ≡ true
    → (b : String) × (can actor q b ≡ true)
unfolding branches_of union_of can
union_sound actor [] q a h = cc
union_sound actor (x ∷ l) q a h = elim (Bool-cases (permissions_for actor x.branch_id q)) [
  | inl held ↦ (x.branch_id, rw (a, held) refl)
  | inr fails ↦ union_sound actor l q a (rw fails at h)
]

for_actor-branch :
    (actor : User) (b : String) (perms : Permissions) (q : Permission)
    → lookup b (for_actor actor).by_branch ≡ some perms
    → perms q ≡ true
    → can actor q b ≡ true
unfolding for_actor
for_actor-branch actor b perms q e h = elim (Bool-cases (is_active actor)) [
  | inl a ↦ branches_sound actor actor.assignments b perms q a (rw a at e) h
  | inr a ↦ (let e = rw a at e in unfold lookup in cc)
]

for_actor-any :
    (actor : User) (q : Permission)
    → (for_actor actor).any_branch q ≡ true
    → (b : String) × (can actor q b ≡ true)
unfolding for_actor
for_actor-any actor q h = elim (Bool-cases (is_active actor)) [
  | inl a ↦ union_sound actor actor.assignments q a (rw a at h)
  | inr a ↦ (let h = rw a at h in cc)
]

branch_perms_sound :
    (actor : User) (o : Option String) (perms : Permissions) (q : Permission)
    → branch_perms (for_actor actor) o ≡ some perms
    → perms q ≡ true
    → (b : String) × (o ≡ some b) × (can actor q b ≡ true)
branch_perms_sound actor none perms q e h = cc
branch_perms_sound actor (some b) perms q e h =
    let same : or_nothing (lookup b (for_actor actor).by_branch) ≡ perms = cc in
    (b, refl, held (lookup b (for_actor actor).by_branch) refl (rw same h))
  where
    held :
        (o : Option Permissions)
        → lookup b (for_actor actor).by_branch ≡ o
        → or_nothing o q ≡ true
        → can actor q b ≡ true
    held none r g = cc
    held (some p) r g = for_actor-branch actor b p q r g

pub perms_for_sound :
    (actor : User) (table : String) (branch_id : Option String) (row : Fields) (perms : Permissions)
    (q : Permission)
    → perms_for (for_actor actor) table branch_id row ≡ some perms
    → perms q ≡ true
    → Holds actor table branch_id row q
unfolding perms_for
perms_for_sound actor table branch_id row perms q e h =
    elim (Bool-cases (str_mem table branch_scoped_read)) [
      | inl scoped ↦
          let (b, here, may) =
            branch_perms_sound actor (row_branch branch_id row) perms q (rw scoped at e) h in
          record { branch = b; may = may; here = λ s. here }
      | inr shared ↦
          let e = rw shared at e in
          let all : (for_actor actor).any_branch ≡ perms = cc in
          let (b, may) = for_actor-any actor q (rw all h) in
          record { branch = b; may = may; here = λ s. cc }
    ]

-- What is kept under a key: the first, which is not hidden, or what was kept behind it.
keep-lookup :
    (hidden : List String) (j k : String) (o : Option Value) (rest : Fields) (x : Value)
    → lookup k (keep hidden j o rest) ≡ some x
    → ((o ≡ some x) × (j ≡ k) × (str_mem j hidden ≡ false)) ⊎ (lookup k rest ≡ some x)
keep-lookup hidden j k none rest x h = inr h
keep-lookup hidden j k (some y) rest x h = elim (Bool-cases (str_mem j hidden)) [
  | inl masked ↦ inr (rw masked at h)
  | inr bare ↦
      (let h = rw (bare, lookup-cons) at h in
        elim (Bool-cases (str_eq j k)) [
          | inl same ↦ inl (rw same at h, (eq_iff j k).0 same, bare)
          | inr other ↦ inr (rw other at h)
        ])
]

pub visible-lookup :
    (row : Fields) (hidden ks : List String) (k : String) (x : Value)
    → lookup k (visible row hidden ks) ≡ some x
    → (lookup k row ≡ some x) × (str_mem k hidden ≡ false) × (str_mem k ks ≡ true)
unfolding visible
visible-lookup row hidden [] k x h = unfold lookup in cc
visible-lookup row hidden (j ∷ ks) k x h =
    elim (keep-lookup hidden j k (lookup j row) (visible row hidden ks) x h) [
      | inl (e, same, bare) ↦ (rw same at e, rw same at bare, ground (arith, eq_iff k j))
      | inr behind ↦
          let (stored, bare, known) = visible-lookup row hidden ks k x behind in
          (stored, bare, ground arith)
    ]

-- A row that is shown: to an actor who holds a permission that its table may be read with, in the
-- row's branch where it is a branch row. Each field shown is the row's, unchanged and one of its
-- table's readable fields; a cost field is shown to those alone who may read costs there.
pub record Shown (actor : User) (table : String) (branch_id : Option String) (row out : Fields)
    : Type 0 where
  pub readers : Permissions
  pub known : lookup table read_permissions ≡ some readers
  pub reads : (q : Permission) × (readers q ≡ true) × Holds actor table branch_id row q
  pub unchanged : (k : String) (x : Value) → lookup k out ≡ some x → lookup k row ≡ some x
  pub readable :
      (k : String) (x : Value)
      → lookup k out ≡ some x
      → (ks : List String) × (lookup table read_fields ≡ some ks) × (str_mem k ks ≡ true)
  pub costs :
      (k : String) (x : Value)
      → lookup k out ≡ some x
      → str_mem k (cost_fields table) ≡ true
      → (q : Permission) × (cost_readers q ≡ true) × Holds actor table branch_id row q

pub shown-fields :
    (perms : Permissions) (table : String) (row out : Fields)
    → shown perms table row ≡ ok (some out)
    → (ks : List String) × (lookup table read_fields ≡ some ks)
      × (out ≡ visible row (hidden_fields perms table) ks)
unfolding shown
shown-fields perms table row out h = go (lookup table read_fields) refl h
  where
    go :
        (o : Option (List String))
        → lookup table read_fields ≡ o
        → shown_of o (hidden_fields perms table) row ≡ ok (some out)
        → (ks : List String) × (lookup table read_fields ≡ some ks)
          × (out ≡ visible row (hidden_fields perms table) ks)
    go none r h = cc
    go (some ks) r h = (ks, r, cc)
