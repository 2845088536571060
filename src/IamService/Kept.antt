-- ===== src/IamService/Kept.antt =====
-- Changes of rows that leave an owner's assignments in force.
use dukan_pro.Prelude.{
  ℕ, suc, String, ◌≡◌, refl, sym, ◌∙◌, inl, inr, Bool, true, false, ◌&&◌, some, List, [], ◌∷◌, ◌++◌,
  map, any, arith, Bool-cases, Option-cases, and_parts, or_cases, any_mono, or_right,
}
use mathlib.Core.Path.{subst}
use dukan_pro.Prelude.Text.{str_eq, str_mem, str_eq→eq, eq_refl}
use dukan_pro.Domain.Identity.{BranchAssignment, is_owner}
use dukan_pro.Store.Queries.{select, first}
use dukan_pro.Store.Sums.{first-append_some, first_sound}
use dukan_pro.Accounts.{Accounts, UserRow, AssignmentRow}
use dukan_pro.Accounts.Queries.{
  live_user, is_owner_role, is_owner_row, is_active_row, is_active_status, assigned_to,
  assignment_of, assignments_of, domain_user,
}
use dukan_pro.Accounts.Updates.{update_first, any-update_first, active-update_first}
use dukan_pro.Accounts.Owners.{holds, somewhere, IsShopOwner}
use dukan_pro.IamService.{live_assignment, new_assignment}
use dukan_pro.IamService.Branches.{owner_assignments}

-- An active user who is still one.
abbrev pub StaysActive : List UserRow → List UserRow → String → Type 0
StaysActive users after w =
    is_active_row (first (live_user w) users) ≡ true
    → is_active_row (first (live_user w) after) ≡ true

holds-users :
    (users after : List UserRow) (w : String) (q : String → Bool) (a : AssignmentRow)
    → StaysActive users after w
    → holds users w q a ≡ true
    → holds after w q a ≡ true
holds-users users after w q a keep h =
    let (row, own) = and_parts (is_owner_row users a) (str_eq a.user_id w && q a.branch_id) h in
    let (same, in_q) = and_parts (str_eq a.user_id w) (q a.branch_id) own in
    let stays = subst (StaysActive users after) (sym (str_eq→eq a.user_id w same)) keep in
    let active = stays (ground arith) in ground arith

-- The users change and w stays active; the assignments are the same, or more.
pub kept-users :
    (users after : List UserRow) (w : String) (q : String → Bool) (rows : List AssignmentRow)
    → StaysActive users after w
    → any (holds users w q) rows ≡ true
    → any (holds after w q) rows ≡ true
kept-users users after w q rows keep =
    any_mono (holds users w q) (holds after w q) rows (λ a. holds-users users after w q a keep)

pub stays-append : (users more : List UserRow) (w : String) → StaysActive users (users ++ more) w
stays-append users more w h = elim (Option-cases (first (live_user w) users)) [
  | inl nobody ↦ (let e = rw nobody at h in cc)
  | inr (m, found) ↦ rw (first-append_some (live_user w) users more m found) (rw found at h)
]

pub stays-update :
    (p : UserRow → Bool) (f : UserRow → UserRow) (users : List UserRow) (w : String)
    → ((x : UserRow) → live_user w (f x) ≡ live_user w x)
    → ((x : UserRow)
        → p x ≡ true
        → live_user w x ≡ true
        → is_active_status x.status ≡ true
        → is_active_status (f x).status ≡ true)
    → StaysActive users (update_first p f users) w
stays-update p f users w same keep = active-update_first w p f users same keep

-- An assignment changes whose user is another one, or that still is an owner's.
pub kept-update :
    (users : List UserRow) (w : String) (q : String → Bool) (f : AssignmentRow → AssignmentRow)
    (user_id branch_id : String) (rows : List AssignmentRow)
    → ((x : AssignmentRow)
        → first (live_assignment user_id branch_id) rows ≡ some x
        → holds users w q x ≡ true
        → holds users w q (f x) ≡ true)
    → any (holds users w q) rows ≡ true
    → any (holds users w q) (update_first (live_assignment user_id branch_id) f rows) ≡ true
kept-update users w q f user_id branch_id rows =
    any-update_first (live_assignment user_id branch_id) (holds users w q) f rows

-- The row found is the user's, and so of no other one.
pub found-other :
    (users : List UserRow) (w : String) (q : String → Bool) (user_id branch_id : String)
    (rows : List AssignmentRow) (x : AssignmentRow)
    → str_eq w user_id ≡ false
    → first (live_assignment user_id branch_id) rows ≡ some x
    → holds users w q x ≡ false
found-other users w q user_id branch_id rows x other found =
    let own = first_sound (live_assignment user_id branch_id) rows x found in
    let same = str_eq→eq x.user_id user_id (ground arith) in
    elim (Bool-cases (str_eq x.user_id w)) [
      | inl e ↦
          let same' : user_id ≡ w = sym same ∙ str_eq→eq x.user_id w e in
          let clash : str_eq w w ≡ false = subst (λ j. str_eq w j ≡ false) same' other in
          (let i = eq_refl w in cc)
      | inr e ↦ ground arith
    ]

owner_of :
    (w : String) (users : List UserRow) (rows : List AssignmentRow)
    → any (holds users w somewhere) rows ≡ true
    → any
        (λ (a : BranchAssignment). is_owner_role a.role_name)
        (map assignment_of (select (assigned_to w) rows))
      ≡ true
owner_of w users [] h = h
owner_of w users (a ∷ rows) h =
    elim (or_cases (holds users w somewhere a) (any (holds users w somewhere) rows) h) [
      | inl here ↦
          (let mine : assigned_to w a ≡ true = ground arith in
            let role : is_owner_role a.role_name ≡ true = ground arith in rw (mine, role) refl)
      | inr there ↦ elim (Bool-cases (assigned_to w a)) [
        | inl e ↦ rw e (or_right (is_owner_role a.role_name) (owner_of w users rows there))
        | inr e ↦ rw e (owner_of w users rows there)
      ]
    ]

-- Someone who owns no branch is no shop owner.
pub not_owner :
    (s : Accounts) (m : UserRow) (w : String)
    → is_owner (domain_user s m) ≡ false
    → IsShopOwner s w
    → str_eq w m.id ≡ false
unfolding is_owner assignments_of
not_owner s m w h owner = elim (Bool-cases (str_eq w m.id)) [
  | inl own ↦
      (let some_role = owner_of w s.users s.assignments owner.0 in
        let e = rw (str_eq→eq w m.id own) at some_role in cc)
  | inr other ↦ other
]

-- Each of the owners has an assignment in the new branch.
pub owner_assignments-holds :
    (new_id : ℕ → String) (users : List UserRow) (w branch_id : String) (owners : List String)
    (n : ℕ)
    → is_active_row (first (live_user w) users) ≡ true
    → str_mem w owners ≡ true
    → any (holds users w (λ j. str_eq j branch_id)) (owner_assignments new_id n branch_id owners)
      ≡ true
unfolding owner_assignments
owner_assignments-holds new_id users w b [] n active h = h
owner_assignments-holds new_id users w b (o ∷ owners) n active h =
    elim (or_cases (str_eq w o) (str_mem w owners) h) [
      | inl own ↦ rw (← str_eq→eq w o own, active, eq_refl w, eq_refl b) refl
      | inr there ↦
          or_right (holds users w (λ j. str_eq j b) (new_assignment (new_id n) o b "owner"))
            (owner_assignments-holds new_id users w b owners (suc n) active there)
    ]
