-- ===== src/IamService/Owners/Roles.antt =====
-- A role that is assigned or withdrawn leaves the shop an owner.
use dukan_pro.Prelude.{
  ℕ, String, ◌≡◌, refl, sym, ◌∙◌, inl, inr, Bool, true, false, not, ◌&&◌, Option, none, some, any,
  length, arith, Bool-cases, any-append_left, if◌then◌else◌,
}
use mathlib.Core.Option.{some_inj}
use mathlib.Core.Path.{subst}
use dukan_pro.Prelude.Int.{ℤ}
use dukan_pro.Prelude.Text.{str_eq, is_text}
use dukan_pro.Errors.{ok, >>=-eq-ok, >>-eq-ok, or_raise, or_raise-eq-ok, ok_inj, not_found, Code}
use dukan_pro.Access.{require_permission}
use dukan_pro.Domain.Branches.{assert_branch_active}
use dukan_pro.Domain.Identity.{assert_keeps_an_assignment, User, user_manage}
use dukan_pro.Store.Queries.{select, first}
use dukan_pro.Accounts.{Accounts, UserRow, AssignmentRow}
use dukan_pro.Accounts.Queries.{
  live_user, require_user, require_branch, domain_user, is_owner_role, unseat_owner,
  require_owner_rights_over, assert_owner_remains, assignments_of,
}
use dukan_pro.Accounts.Updates.{update_first}
use dukan_pro.Accounts.Owners.{holds, IsShopOwner, Kept-IsShopOwner, another_owner}
use dukan_pro.IamService.{require_can_grant, live_assignment}
use dukan_pro.IamService.Roles.{
  with_assigned, without_assignment, with_role, withdrawn, moved_to, first_branch, elsewhere,
  check_role, assigned, assign_role, revoke_assignment,
}
use dukan_pro.IamService.Kept.{StaysActive, kept-users, stays-update, kept-update, found-other}
use dukan_pro.IamService.Owners.{IsOwned, provided, require_user-id}

module _ (new_id : ℕ → String) (hash : String → String) (s after : Accounts) (actor : User)
    (now : ℤ) where
  -- Where an owner is unseated, an owner is left who is not that user.
  unseated :
      (m : UserRow) (branch_id w : String)
      → unseat_owner s actor m branch_id ≡ ok tt
      → IsShopOwner s w
      → (v : String) × IsShopOwner s v × (str_eq v m.id ≡ false)
  unfolding unseat_owner
  unseated m branch_id w h owner =
      let (_, h1) = >>-eq-ok (require_owner_rights_over actor (domain_user s m)) _ h in
      let (_, h2) = >>-eq-ok (assert_owner_remains s branch_id m.id) _ h1 in
      another_owner s m.id w h2 owner

  -- The assignment found is another user's, so `v` keeps those there are.
  kept-other :
      (v user_id branch_id : String) (f : AssignmentRow → AssignmentRow) (q : String → Bool)
      → str_eq v user_id ≡ false
      → any (holds s.users v q) s.assignments ≡ true
      → any (holds s.users v q) (update_first (live_assignment user_id branch_id) f s.assignments)
        ≡ true
  kept-other v user_id branch_id f q other =
      kept-update s.users v q f user_id branch_id s.assignments (λ x found mine.
        (let not_mine = found-other s.users v q user_id branch_id s.assignments x other found in
          cc))

  still-holds :
      (w role_name : String) (q : String → Bool) (x : AssignmentRow)
      → (is_owner_role x.role_name && not (is_owner_role role_name)) ≡ false
      → holds s.users w q x ≡ true
      → holds s.users w q (with_role role_name x) ≡ true
  still-holds w role_name q x h e = ground arith

  assigned-IsOwned :
      (m : UserRow) (user_id branch_id role_name w : String) (existing : Option AssignmentRow)
      → m.id ≡ user_id
      → first (live_assignment user_id branch_id) s.assignments ≡ existing
      → check_role s actor m branch_id role_name existing ≡ ok tt
      → IsShopOwner s w
      → (v : String) × IsShopOwner s v
        × ((q : String → Bool)
            → any (holds s.users v q) s.assignments ≡ true
            → any (holds s.users v q) (assigned new_id s user_id branch_id role_name existing)
              ≡ true)
  unfolding check_role
  assigned-IsOwned m user_id branch_id role_name w none same found h owner =
      (w, owner, λ q. any-append_left (holds s.users w q) s.assignments _)
  assigned-IsOwned m user_id branch_id role_name w (some x) same found h owner =
      let unseats = is_owner_role x.role_name && not (is_owner_role role_name) in
      elim (Bool-cases unseats) [
        | inl e ↦
            let checked = provided unseats (unseat_owner s actor m branch_id) h e in
            let (v, mine, not_m) = unseated m branch_id w checked owner in
            (
              v,
              mine,
              λ q. kept-other v user_id branch_id (with_role role_name) q (rw same at not_m),
            )
        | inr e ↦ (
          w,
          owner,
          λ q.
              kept-update s.users w q (with_role role_name) user_id branch_id s.assignments
                (λ y at_y.
                  let same_row : x ≡ y = some_inj.0 (sym found ∙ at_y) in
                  still-holds w role_name q y (
                    subst
                      (λ (z : AssignmentRow).
                        (is_owner_role z.role_name && not (is_owner_role role_name)) ≡ false)
                      same_row e)),
        )
      ]

  pub assign_role-IsOwned :
      (branch_id user_id target_branch_id role_name : String)
      → assign_role new_id s actor branch_id user_id target_branch_id role_name now ≡ ok after
      → IsOwned s
      → IsOwned after
  unfolding assign_role
  assign_role-IsOwned branch_id user_id target_branch_id role_name h (w, owner) =
      let (_, h1) = >>-eq-ok (require_permission actor user_manage branch_id) _ h in
      let (_, h2) = >>-eq-ok (require_can_grant actor target_branch_id role_name) _ h1 in
      let (m, found, h3) = >>=-eq-ok (require_user s user_id) _ h2 in
      let (target, _, h4) = >>=-eq-ok (require_branch s target_branch_id) _ h3 in
      let (_, h5) = >>-eq-ok (assert_branch_active target.is_active) _ h4 in
      let existing = first (live_assignment user_id target_branch_id) s.assignments in
      let (checked, h6) =
        >>-eq-ok (check_role s actor m target_branch_id role_name existing) _ h5 in
      let next = with_assigned new_id s actor user_id target_branch_id role_name existing now in
      let (v, mine, kept) =
        assigned-IsOwned m user_id target_branch_id role_name w existing
          (require_user-id new_id hash s after actor now user_id m found) refl checked owner in
      subst IsOwned (ok_inj h6) (v, Kept-IsShopOwner s next v kept (λ g e. e) mine)

  not_holds :
      (w : String) (q : String → Bool) (x : AssignmentRow)
      → is_owner_role x.role_name ≡ false
      → holds s.users w q x ≡ false
  not_holds w q x h = ground arith

  moved-stays :
      (m : UserRow) (user_id branch_id : String) (to : Option String) (v : String)
      → StaysActive s.users
          (if is_text m.default_branch_id branch_id
            then update_first (live_user user_id) (moved_to to) s.users
            else s.users)
          v
  moved-stays m user_id branch_id to v = elim (Bool-cases (is_text m.default_branch_id branch_id)) [
    | inl e ↦
        rw e (stays-update (live_user user_id) (moved_to to) s.users v (λ x. refl) (λ x e f g. g))
    | inr e ↦ rw e (λ h. h)
  ]

  pub revoke_assignment-IsOwned :
      (branch_id user_id target_branch_id : String)
      → revoke_assignment s actor branch_id user_id target_branch_id now ≡ ok after
      → IsOwned s
      → IsOwned after
  unfolding revoke_assignment
  revoke_assignment-IsOwned branch_id user_id b h (w, owner) =
      let (_, h1) = >>-eq-ok (require_permission actor user_manage branch_id) _ h in
      let (_, h2) = >>-eq-ok (require_permission actor user_manage b) _ h1 in
      let (m, found, h3) = >>=-eq-ok (require_user s user_id) _ h2 in
      let (row, at_row, h4) =
        >>=-eq-ok
          (or_raise (first (live_assignment user_id b) s.assignments)
            (not_found Code.assignment_not_found))
          _ h3 in
      let is_owner_there = is_owner_role row.role_name in
      let (checked, h5) =
        >>-eq-ok (if is_owner_there then unseat_owner s actor m b else ok tt) _ h4 in
      let remaining = select (elsewhere b) (assignments_of s user_id) in
      let (_, h6) = >>-eq-ok (assert_keeps_an_assignment (length remaining)) _ h5 in
      let next = without_assignment s actor m user_id b remaining now in
      let kept : (v : String)
          → ((q : String → Bool)
              → any (holds s.users v q) s.assignments ≡ true
              → any (holds s.users v q) next.assignments ≡ true)
          → IsShopOwner s v
          → IsOwned after =
        λ v keep mine. subst IsOwned (ok_inj h6) (
          v,
          Kept-IsShopOwner s next v
              (λ q e.
                kept-users s.users next.users v q next.assignments
                  (moved-stays m user_id b (first_branch remaining) v) (keep q e))
              (λ g e. e) mine,
        ) in
      elim (Bool-cases is_owner_there) [
        | inl e ↦
            let unseat = provided is_owner_there (unseat_owner s actor m b) checked e in
            let (v, mine, not_m) = unseated m b w unseat owner in
            let other : str_eq v user_id ≡ false =
              rw (require_user-id new_id hash s after actor now user_id m found) at not_m in
            kept v (λ q. kept-other v user_id b withdrawn q other) mine
        | inr e ↦
            kept w
              (λ q. kept-update s.users w q withdrawn user_id b s.assignments (λ y at_y mine.
                let same_row : row ≡ y = some_inj.0 (sym (or_raise-eq-ok _ _ at_row) ∙ at_y) in
                (let not_owner_row =
                    not_holds w q y (
                      subst (λ (z : AssignmentRow). is_owner_role z.role_name ≡ false) same_row
                        e) in
                  cc)))
              owner
      ]
