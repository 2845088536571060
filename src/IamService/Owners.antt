-- ===== src/IamService/Owners.antt =====
-- Each call of the service leaves the shop an owner.
pub mod Roles
use dukan_pro.Prelude.{
  ℕ, suc, String, ◌≡◌, refl, ap, sym, ◌∙◌, inl, inr, Bool, true, false, not, is_some, List, [], ◌∷◌,
  ◌++◌, any, all, length, arith, Bool-cases, any-append_left, any-append_right, all-append,
  all_mono, and_true, if◌then◌else◌,
}
use mathlib.Core.Path.{subst}
use dukan_pro.Prelude.Int.{ℤ}
use dukan_pro.Prelude.Text.{str_eq, str_mem, str_eq→eq, eq_refl}
use dukan_pro.Errors.{Checked, ok, >>=-eq-ok, >>-eq-ok, or_raise-eq-ok, ok_inj}
use dukan_pro.Access.{require_permission}
use dukan_pro.Domain.Branches.{
  assert_branch_active, assert_not_last_active_branch, assert_branch_settings_valid,
}
use dukan_pro.Domain.Identity.{
  assert_password_strong, assert_username_available, User, user_manage, branch_manage, is_owner,
}
use dukan_pro.Store.Queries.{select, first}
use dukan_pro.Store.Sums.{first_sound, select-append}
use dukan_pro.Accounts.{Accounts, UserRow, BranchRow}
use dukan_pro.Accounts.Queries.{
  live_user, live_branch, require_user, require_branch, domain_user, check_all, require_everywhere,
  shop_owners, assert_shop_owner_remains, assert_owner_remains,
}
use dukan_pro.Accounts.Updates.{update_first, all-select-update_first}
use dukan_pro.Accounts.Owners.{
  holds, somewhere, in_branch, live, owned_by, IsShopOwner, Kept, SameBranches, Kept-IsShopOwner,
  another_owner, shop_owners-IsShopOwner, shop_owner-active,
}
use dukan_pro.IamService.{require_user_admin}
use dukan_pro.IamService.Branches.{
  is_live_active, with_branch_name, with_branch_active, with_branch, owners_and, new_branch,
  renamed, switched, create_branch, rename_branch, set_branch_active,
}
use dukan_pro.IamService.Employees.{
  new_user, owned_branches, username_of, with_employee, with_employee_status, with_new_password,
  with_status, with_password, check_disable, create_employee, set_employee_status, reset_password,
}
use dukan_pro.IamService.Kept.{
  StaysActive, kept-users, stays-append, stays-update, not_owner, owner_assignments-holds,
}

abbrev pub IsOwned : Accounts → Type 0
IsOwned s = (w : String) × IsShopOwner s w

pub otherwise : (b : Bool) (c : Checked) → (if b then ok tt else c) ≡ ok tt → b ≡ false → c ≡ ok tt
otherwise true c h e = cc
otherwise false c h e = h

pub provided : (b : Bool) (c : Checked) → (if b then c else ok tt) ≡ ok tt → b ≡ true → c ≡ ok tt
provided true c h e = h
provided false c h e = cc

mem-append : (w : String) (xs ys : List String) → str_mem w xs ≡ true → str_mem w (xs ++ ys) ≡ true
mem-append w [] ys h = cc
mem-append w (x ∷ xs) ys h = elim (Bool-cases (str_eq w x)) [
  | inl e ↦ rw e refl
  | inr e ↦ rw e (mem-append w xs ys (rw e at h))
]

module _ (new_id : ℕ → String) (hash : String → String) (s after : Accounts) (actor : User)
    (now : ℤ) where
  pub create_employee-IsOwned :
      (branch_id username password display_name role_name : String)
      → create_employee new_id hash s actor branch_id username password display_name role_name now
        ≡ ok after
      → IsOwned s
      → IsOwned after
  unfolding create_employee
  create_employee-IsOwned branch_id username password display_name role_name h (w, owner) =
      let (_, h1) = >>-eq-ok _ _ h in
      let (branch, _, h2) = >>=-eq-ok (require_branch s branch_id) _ h1 in
      let (_, h3) = >>-eq-ok (assert_branch_active branch.is_active) _ h2 in
      let (_, h4) = >>-eq-ok (assert_password_strong password 8) _ h3 in
      let taken = is_some (first (username_of username) s.users) in
      let (_, h5) = >>-eq-ok (assert_username_available taken) _ h4 in
      let clash = any (λ (u : UserRow). str_eq u.username username) s.users in
      let (_, h6) = >>-eq-ok (assert_username_available clash) _ h5 in
      let added = new_user (new_id s.next) username display_name (hash password) branch_id in
      let next =
        with_employee new_id hash s actor branch_id username password display_name role_name now in
      subst IsOwned (ok_inj h6) (
        w,
        Kept-IsShopOwner s next w
            (λ q e. any-append_left (holds next.users w q) s.assignments _ (
              kept-users s.users next.users w q s.assignments (stays-append s.users (added ∷ []) w)
                e))
            (λ g e. e) owner,
      )

  -- Where a user is disabled, an owner is left who is not that user.
  left_owner :
      (m : UserRow) (w : String)
      → check_disable s (domain_user s m) ≡ ok tt
      → IsShopOwner s w
      → (v : String) × IsShopOwner s v × (str_eq v m.id ≡ false)
  unfolding check_disable
  left_owner m w h owner =
      let (_, checked) =
        >>-eq-ok
          (check_all (λ (b : String). assert_owner_remains s b m.id)
            (owned_branches (domain_user s m)))
          (if is_owner (domain_user s m) then assert_shop_owner_remains s m.id else ok tt) h in
      elim (Bool-cases (is_owner (domain_user s m))) [
        | inl e ↦ another_owner s m.id w (rw e at checked) owner
        | inr e ↦ (w, owner, not_owner s m w e owner)
      ]

  pub require_user-id :
      (user_id : String) (m : UserRow) → require_user s user_id ≡ ok m → m.id ≡ user_id
  unfolding require_user
  require_user-id user_id m h =
      let found = first_sound (live_user user_id) s.users m (or_raise-eq-ok _ _ h) in
      str_eq→eq m.id user_id (ground arith)

  -- A row that is the user's is not another one's.
  not_both :
      (user_id v : String) (x : UserRow)
      → str_eq v user_id ≡ false
      → live_user user_id x ≡ true
      → live_user v x ≡ true
      → true ≡ false
  not_both user_id v x other e f =
      let i = str_eq→eq x.id user_id (ground arith) in
      let j = str_eq→eq x.id v (ground arith) in sym (eq_refl v) ∙ ap (str_eq v) (sym j ∙ i) ∙ other

  pub set_employee_status-IsOwned :
      (branch_id user_id : String) (enable : Bool)
      → set_employee_status s actor branch_id user_id enable now ≡ ok after
      → IsOwned s
      → IsOwned after
  unfolding set_employee_status
  set_employee_status-IsOwned branch_id user_id enable h (w, owner) =
      let (_, h1) = >>-eq-ok (require_permission actor user_manage branch_id) _ h in
      let (m, found, h2) = >>=-eq-ok (require_user s user_id) _ h1 in
      let target = domain_user s m in
      let (_, h3) = >>-eq-ok (require_user_admin actor target branch_id) _ h2 in
      let (checked, h4) = >>-eq-ok (if enable then ok tt else check_disable s target) _ h3 in
      let next = with_employee_status s actor user_id enable now in
      let kept : (v : String) → StaysActive s.users next.users v → IsShopOwner s v → IsOwned after =
        λ v stays mine. subst IsOwned (ok_inj h4) (
          v,
          Kept-IsShopOwner s next v (λ q. kept-users s.users next.users v q s.assignments stays)
              (λ g e. e) mine,
        ) in
      let stays = λ (v : String).
        stays-update (live_user user_id) (with_status enable) s.users v (λ x. refl) in
      elim (Bool-cases enable) [
        | inl on ↦ kept w (stays w (λ x e f g. rw on refl)) owner
        | inr off ↦
            let (v, mine, not_m) =
              left_owner m w (otherwise enable (check_disable s target) checked off) owner in
            let other : str_eq v user_id ≡ false = rw (require_user-id user_id m found) at not_m in
            kept v (stays v (λ x e f g. (let c = not_both user_id v x other e f in cc))) mine
      ]

  pub reset_password-IsOwned :
      (branch_id user_id new_password : String)
      → reset_password hash s actor branch_id user_id new_password now ≡ ok after
      → IsOwned s
      → IsOwned after
  unfolding reset_password
  reset_password-IsOwned branch_id user_id new_password h (w, owner) =
      let (_, h1) = >>-eq-ok (require_permission actor user_manage branch_id) _ h in
      let (m, found, h2) = >>=-eq-ok (require_user s user_id) _ h1 in
      let (_, h3) = >>-eq-ok (require_user_admin actor (domain_user s m) branch_id) _ h2 in
      let (_, h4) = >>-eq-ok (assert_password_strong new_password 8) _ h3 in
      let next = with_new_password hash s actor user_id new_password now in
      let changed = with_password (hash new_password) in
      subst IsOwned (ok_inj h4) (
        w,
        Kept-IsShopOwner s next w
            (λ q.
              kept-users s.users next.users w q s.assignments
                (stays-update (live_user user_id) changed s.users w (λ x. refl) (λ x e f g. g)))
            (λ g e. e) owner,
      )

  renamed-IsOwned :
      (p : BranchRow → Bool) (f : BranchRow → BranchRow)
      → ((x : BranchRow) → (f x).id ≡ x.id)
      → ((x : BranchRow) → (f x).deleted ≡ x.deleted)
      → SameBranches s (record s { branches = update_first p f s.branches })
  renamed-IsOwned p f same_id same_deleted g e =
      all-select-update_first p live (λ (b : BranchRow). g b.id) f s.branches
        (λ x. ap not (same_deleted x)) (λ x. ap g (same_id x))
      ∙ e

  pub rename_branch-IsOwned :
      (branch_id target_branch_id name : String)
      → rename_branch s actor branch_id target_branch_id name now ≡ ok after
      → IsOwned s
      → IsOwned after
  unfolding rename_branch
  rename_branch-IsOwned branch_id target_branch_id name h (w, owner) =
      let (_, h1) = >>-eq-ok (require_permission actor branch_manage branch_id) _ h in
      let (_, h2) = >>-eq-ok (require_permission actor branch_manage target_branch_id) _ h1 in
      let (m, found, h3) = >>=-eq-ok (require_branch s target_branch_id) _ h2 in
      let next = with_branch_name s actor target_branch_id name m now in
      subst IsOwned (ok_inj h3) (
        w,
        Kept-IsShopOwner s next w (λ q e. e)
            (renamed-IsOwned (live_branch target_branch_id) (renamed name) (λ x. refl) (λ x. refl))
            owner,
      )

  pub set_branch_active-IsOwned :
      (branch_id target_branch_id : String) (on : Bool)
      → set_branch_active s actor branch_id target_branch_id on now ≡ ok after
      → IsOwned s
      → IsOwned after
  unfolding set_branch_active
  set_branch_active-IsOwned branch_id target_branch_id on h (w, owner) =
      let (_, h1) = >>-eq-ok (require_permission actor branch_manage branch_id) _ h in
      let (_, h2) = >>-eq-ok (require_permission actor branch_manage target_branch_id) _ h1 in
      let (m, found, h3) = >>=-eq-ok (require_branch s target_branch_id) _ h2 in
      let (_, h4) =
        >>-eq-ok
          (if on
            then ok tt
            else assert_not_last_active_branch (length (select is_live_active s.branches)))
          _ h3 in
      let next = with_branch_active s actor target_branch_id on m now in
      subst IsOwned (ok_inj h4) (
        w,
        Kept-IsShopOwner s next w (λ q e. e)
            (renamed-IsOwned (live_branch target_branch_id) (switched on) (λ x. refl) (λ x. refl))
            owner,
      )

  member-and :
      (owners : List String) (w actor_id : String)
      → str_mem w owners ≡ true
      → str_mem w (owners_and owners actor_id) ≡ true
  member-and owners w actor_id h = elim (Bool-cases (str_mem actor_id owners)) [
    | inl e ↦ rw e h
    | inr e ↦ rw e (mem-append w owners (actor_id ∷ []) h)
  ]

  pub create_branch-IsOwned :
      (branch_id name timezone currency : String)
      → create_branch new_id s actor branch_id name timezone currency now ≡ ok after
      → IsOwned s
      → IsOwned after
  unfolding create_branch with_branch
  create_branch-IsOwned branch_id name timezone currency h (w, owner) =
      let (_, h1) = >>-eq-ok (require_permission actor branch_manage branch_id) _ h in
      let (_, h2) = >>-eq-ok (require_everywhere s actor branch_manage) _ h1 in
      let (_, h3) = >>-eq-ok (assert_branch_settings_valid timezone currency) _ h2 in
      let owners = owners_and (shop_owners s) actor.id in
      let next = with_branch new_id s actor name timezone currency owners now in
      let added = new_branch (new_id s.next) name timezone currency in
      let member = member-and (shop_owners s) w actor.id ((shop_owners-IsShopOwner s w).1 owner) in
      let kept : Kept s next w = λ q. any-append_left (holds s.users w q) s.assignments _ in
      let mine : owned_by next w added ≡ true =
        any-append_right (holds s.users w (in_branch added.id)) s.assignments _ (
          owner_assignments-holds new_id s.users w added.id owners (suc s.next)
            (shop_owner-active s w owner) member) in
      let before : all (owned_by next w) (select live s.branches) ≡ true =
        all_mono (owned_by s w) (owned_by next w) (select live s.branches)
          (λ b. kept (in_branch b.id)) owner.1 in
      subst IsOwned (ok_inj h3) (
        w,
        (
          kept somewhere owner.0,
          rw (select-append live s.branches (added ∷ [])) (
              all-append (owned_by next w) (select live s.branches) (added ∷ []) before
                (and_true mine refl)),
        ),
      )
