-- ===== src/Domain/Identity/Policy.antt =====
-- Who may do what: the policy's decision, and what each built-in role grants.
use mathlib.Core.List.{Memᴰ}
use dukan_pro.Prelude.{
  String, ◌≡◌, refl, ◌↔◌, inl, inr, true, List, [], ◌∷◌, arith, All, Bool-cases,
}
use dukan_pro.Prelude.Text.{eq_iff}
use dukan_pro.Domain.Identity.{
  Permission, sale_create, BranchAssignment, User, active, is_active, role_permissions, granted,
  can,
}

-- An assignment in the branch whose role grants the permission.
pub record Grants (branch_id : String) (p : Permission) (a : BranchAssignment) : Type 0 where
  pub here : a.branch_id ≡ branch_id
  pub grants : role_permissions a.role_name p ≡ true

granted_sound :
    (l : List BranchAssignment) (branch_id : String) (p : Permission)
    → granted l branch_id p ≡ true
    → (a : BranchAssignment) × Memᴰ a l × Grants branch_id p a
unfolding granted
granted_sound [] branch_id p h = cc
granted_sound (a ∷ l) branch_id p h = elim (Bool-cases (granted l branch_id p)) [
  | inl later ↦ let (b, m, g) = granted_sound l branch_id p later in (b, Memᴰ.tail m, g)
  | inr here ↦ (a, Memᴰ.head refl, ground (arith, eq_iff a.branch_id branch_id))
]

granted_complete :
    (l : List BranchAssignment) (branch_id : String) (p : Permission) (a : BranchAssignment)
    → Memᴰ a l
    → Grants branch_id p a
    → granted l branch_id p ≡ true
unfolding granted
granted_complete [] branch_id p a m g = elim m [ ]
granted_complete (b ∷ l) branch_id p a (Memᴰ.head e) g =
    rw (← e, (eq_iff a.branch_id branch_id).1 g.here, g.grants)
granted_complete (b ∷ l) branch_id p a (Memᴰ.tail m) g =
    ground (arith, granted_complete l branch_id p a m g)

active_of : (user : User) → is_active user ≡ true → user.status ≡ active
unfolding is_active
active_of user h = ground arith

is_active_of : (user : User) → user.status ≡ active → is_active user ≡ true
unfolding is_active
is_active_of user h = ground arith

-- A user may do something in a branch exactly when the user is active and one of the user's
-- assignments is in that branch with a built-in role that grants it.
pub can_iff :
    (user : User) (p : Permission) (branch_id : String)
    → (can user p branch_id ≡ true) ↔ (
        (user.status ≡ active)
        × ((a : BranchAssignment) × Memᴰ a user.assignments × Grants branch_id p a))
unfolding can
can_iff user p branch_id = (
  (λ h. (active_of user (ground arith), granted_sound user.assignments branch_id p (ground arith))),
  λ h.
      let (a, m, g) = h.1 in
      rw (is_active_of user h.0) (granted_complete user.assignments branch_id p a m g),
)

cashier_grants : (p : Permission) → role_permissions "cashier" p ≡ true → p ≡ sale_create
unfolding role_permissions
cashier_grants sale_create h = refl
cashier_grants _ h = cc

member_role :
    {branch_id role : String} (l : List BranchAssignment) (a : BranchAssignment)
    → Memᴰ a l
    → All (λ a. a.branch_id ≡ branch_id → a.role_name ≡ role) l
    → a.branch_id ≡ branch_id
    → a.role_name ≡ role
member_role [] a m h here = elim m [ ]
member_role (b ∷ l) a (Memᴰ.head e) h here = rw e (h.0 (rw (← e) here))
member_role (b ∷ l) a (Memᴰ.tail m) h here = member_role l a m h.1 here

-- A user whose assignments in a branch are all as a cashier may do nothing there but sell.
pub cashier-sells_only :
    (user : User) (p : Permission) (branch_id : String)
    → All (λ a. a.branch_id ≡ branch_id → a.role_name ≡ "cashier") user.assignments
    → can user p branch_id ≡ true
    → p ≡ sale_create
cashier-sells_only user p branch_id h c =
    let (a, m, g) = ((can_iff user p branch_id).0 c).1 in
    cashier_grants p (rw (member_role user.assignments a m h g.here) at g.grants)
