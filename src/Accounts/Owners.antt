-- ===== src/Accounts/Owners.antt =====
-- The active users who own every branch of the shop.
use dukan_pro.Prelude.{
  String, ◌≡◌, refl, ◌⊎◌, sym, ◌∙◌, inl, inr, Bool, true, false, not, ◌&&◌, List, [], ◌∷◌, map, any,
  all, length, ltb, arith, Bool-cases, and_parts, or_cases, any_mono, all_mono,
}
use mathlib.Core.Path.{subst}
use dukan_pro.Prelude.Text.{str_eq, str_mem, str_eq→eq, eq_refl}
use dukan_pro.Errors.{ok, raise_if-eq-ok, conflict, Code}
use dukan_pro.Domain.Identity.{assert_shop_keeps_owner}
use dukan_pro.Store.Queries.{select, first}
use dukan_pro.Accounts.{Accounts, UserRow, BranchRow, AssignmentRow}
use dukan_pro.Accounts.Queries.{
  live_user, is_active_row, is_owner_row, active_owner_rows, users_of, owns, owns_every, is_nil,
  shop_owners, assert_shop_owner_remains,
}

-- An owner's assignment of the user `w`, in a branch that meets `q`.
abbrev pub holds : List UserRow → String → (String → Bool) → AssignmentRow → Bool
holds users w q a = is_owner_row users a && (str_eq a.user_id w && q a.branch_id)

abbrev pub in_branch : String → String → Bool
in_branch branch_id j = str_eq j branch_id

abbrev pub somewhere : String → Bool
somewhere j = true

abbrev pub live : BranchRow → Bool
live b = not b.deleted

abbrev pub owned_by : Accounts → String → BranchRow → Bool
owned_by s w b = any (holds s.users w (in_branch b.id)) s.assignments

-- An active user who holds an owner's assignment, and one in every branch.
abbrev pub IsShopOwner : Accounts → String → Type 0
IsShopOwner s w =
    (any (holds s.users w somewhere) s.assignments ≡ true)
    × (all (owned_by s w) (select live s.branches) ≡ true)

str_eq_sym : (a b : String) → str_eq a b ≡ str_eq b a
str_eq_sym a b = elim (Bool-cases (str_eq a b)) [
  | inl h ↦ rw (str_eq→eq a b h) refl
  | inr h ↦ elim (Bool-cases (str_eq b a)) [ inl k ↦ rw (str_eq→eq b a k) refl | inr k ↦ h ∙ sym k ]
]

rows-any :
    (users : List UserRow) (w : String) (q : String → Bool) (rows : List AssignmentRow)
    → any
        (λ (r : String × String). str_eq r.0 w && q r.1)
        (map (λ (a : AssignmentRow). (a.user_id, a.branch_id)) (select (is_owner_row users) rows))
      ≡ any (holds users w q) rows
rows-any users w q [] = refl
rows-any users w q (a ∷ rows) = elim (Bool-cases (is_owner_row users a)) [
  | inl e ↦ rw (e, rows-any users w q rows) refl
  | inr e ↦ rw (e, rows-any users w q rows) refl
]

abbrev named : String → String × String → Bool
named w r = str_eq r.0 w && somewhere r.1

and_self : (b : Bool) → (b && true) ≡ b
and_self true = refl
and_self false = refl

users_of-mem :
    (w : String) (rows : List (String × String)) → str_mem w (users_of rows) ≡ any (named w) rows
unfolding users_of
users_of-mem w [] = refl
users_of-mem w ((u, b) ∷ rows) = elim (Bool-cases (str_mem u (users_of rows))) [
  | inl before ↦ rw before (elim (Bool-cases (str_eq u w)) [
    | inl own ↦ rw own (rw (str_eq→eq u w own) at before)
    | inr other ↦ rw other (users_of-mem w rows)
  ])
  | inr first_time ↦
      rw (first_time, str_eq_sym w u, and_self (str_eq u w), users_of-mem w rows) refl
]

mem-select :
    (w : String) (p : String → Bool) (xs : List String)
    → str_mem w (select p xs) ≡ true
    → (str_mem w xs ≡ true) × (p w ≡ true)
mem-select w p [] h = cc
mem-select w p (x ∷ xs) h = elim (Bool-cases (p x)) [
  | inl e ↦ elim (or_cases (str_eq w x) (str_mem w (select p xs)) (rw e at h)) [
    | inl own ↦ (rw own refl, rw (str_eq→eq w x own) e)
    | inr more ↦
        let (there, holds) = mem-select w p xs more in
        (elim (Bool-cases (str_eq w x)) [ inl k ↦ rw k refl | inr k ↦ rw (k, there) refl ], holds)
  ]
  | inr e ↦
      let (there, holds) = mem-select w p xs (rw e at h) in
      (elim (Bool-cases (str_eq w x)) [ inl k ↦ rw k refl | inr k ↦ rw (k, there) refl ], holds)
]

select-mem :
    (w : String) (p : String → Bool) (xs : List String)
    → str_mem w xs ≡ true
    → p w ≡ true
    → str_mem w (select p xs) ≡ true
select-mem w p [] h k = h
select-mem w p (x ∷ xs) h k = elim (or_cases (str_eq w x) (str_mem w xs) h) [
  | inl own ↦
      let same : p x ≡ true = subst (λ j. p j ≡ true) (str_eq→eq w x own) k in rw (same, own) refl
  | inr there ↦ elim (Bool-cases (p x)) [
    | inl e ↦
        rw (e, select-mem w p xs there k)
          (elim (Bool-cases (str_eq w x)) [ inl i ↦ rw i refl | inr i ↦ rw i refl ])
    | inr e ↦ rw e (select-mem w p xs there k)
  ]
]

select-some :
    (p : String → Bool) (xs : List String)
    → ltb (length (select p xs)) 1 ≡ false
    → (v : String) × (str_mem v xs ≡ true) × (p v ≡ true)
select-some p [] h = cc
select-some p (x ∷ xs) h = elim (Bool-cases (p x)) [
  | inl e ↦ (x, rw (eq_refl x) refl, e)
  | inr e ↦
      let (v, there, holds) = select-some p xs (rw e at h) in
      (v, elim (Bool-cases (str_eq v x)) [ inl k ↦ rw k refl | inr k ↦ rw (k, there) refl ], holds)
]

owns-each :
    (s : Accounts) (w : String) (bs : List BranchRow)
    → all (λ (b : BranchRow). owns (active_owner_rows s) w b.id) bs ≡ all (owned_by s w) bs
unfolding active_owner_rows
owns-each s w [] = refl
owns-each s w (b ∷ bs) =
    rw (rows-any s.users w (in_branch b.id) s.assignments, owns-each s w bs) refl

owns-every :
    (s : Accounts) (w : String) → owns_every s w ≡ all (owned_by s w) (select live s.branches)
owns-every s w = owns-each s w (select live s.branches)

head : (xs : List String) → is_nil xs ≡ false → (w : String) × (str_mem w xs ≡ true)
head [] h = cc
head (x ∷ xs) h = (x, rw (eq_refl x) refl)

-- `shop_owners` holds exactly these users.
pub shop_owners-IsShopOwner :
    (s : Accounts) (w : String)
    → (str_mem w (shop_owners s) ≡ true → IsShopOwner s w)
      × (IsShopOwner s w → str_mem w (shop_owners s) ≡ true)
unfolding shop_owners active_owner_rows
shop_owners-IsShopOwner s w =
    let rows = active_owner_rows s in
    let member = users_of-mem w rows ∙ rows-any s.users w somewhere s.assignments in
    (
      λ h.
          (let (there, every) = mem-select w (owns_every s) (users_of rows) h in
            (sym member ∙ there, sym (owns-every s w) ∙ every)),
      λ h. select-mem w (owns_every s) (users_of rows) (member ∙ h.0) (owns-every s w ∙ h.1),
    )

not-true : (b : Bool) → not b ≡ true → b ≡ false
not-true true h = cc
not-true false h = refl

nil_or : (xs : List String) → (xs ≡ []) ⊎ (is_nil xs ≡ false)
nil_or [] = inl refl
nil_or (x ∷ xs) = inr refl

-- Where the check passes, a shop owner is left besides the one who is losing the role.
pub another_owner :
    (s : Accounts) (losing w : String)
    → assert_shop_owner_remains s losing ≡ ok tt
    → IsShopOwner s w
    → (v : String) × IsShopOwner s v × (str_eq v losing ≡ false)
unfolding assert_shop_owner_remains assert_shop_keeps_owner
another_owner s losing w h owner =
    let other = λ (u : String). not (str_eq u losing) in
    elim (nil_or (shop_owners s)) [
      | inl nobody ↦
          (let member : str_mem w [] ≡ true =
              rw nobody at ((shop_owners-IsShopOwner s w).1 owner) in
            cc)
      | inr someone ↦
          let left = raise_if-eq-ok _ (conflict Code.user_last_owner) (rw someone at h) in
          let (v, member, holds) = select-some other (shop_owners s) left in
          (v, (shop_owners-IsShopOwner s v).0 member, not-true (str_eq v losing) holds)
    ]

-- The user's assignments as an owner outlast the change.
abbrev pub Kept : Accounts → Accounts → String → Type 0
Kept s after w =
    (q : String → Bool)
    → any (holds s.users w q) s.assignments ≡ true
    → any (holds after.users w q) after.assignments ≡ true

-- What holds of the id of every branch still does.
abbrev pub SameBranches : Accounts → Accounts → Type 0
SameBranches s after =
    (g : String → Bool)
    → all (λ (b : BranchRow). g b.id) (select live s.branches) ≡ true
    → all (λ (b : BranchRow). g b.id) (select live after.branches) ≡ true

pub Kept-IsShopOwner :
    (s after : Accounts) (w : String)
    → Kept s after w
    → SameBranches s after
    → IsShopOwner s w
    → IsShopOwner after w
Kept-IsShopOwner s after w kept same h = (
  kept somewhere h.0,
  same (λ j. any (holds after.users w (in_branch j)) after.assignments)
      (all_mono (owned_by s w) (owned_by after w) (select live s.branches)
        (λ b. kept (in_branch b.id)) h.1),
)

holds-active :
    (users : List UserRow) (w : String) (rows : List AssignmentRow)
    → any (holds users w somewhere) rows ≡ true
    → is_active_row (first (live_user w) users) ≡ true
holds-active users w [] h = cc
holds-active users w (a ∷ rows) h =
    elim (or_cases (holds users w somewhere a) (any (holds users w somewhere) rows) h) [
      | inl here ↦
          let same : str_eq a.user_id w ≡ true = ground arith in
          subst (λ j. is_active_row (first (live_user j) users) ≡ true) (str_eq→eq a.user_id w same)
            (ground arith)
      | inr there ↦ holds-active users w rows there
    ]

pub shop_owner-active :
    (s : Accounts) (w : String)
    → IsShopOwner s w
    → is_active_row (first (live_user w) s.users) ≡ true
shop_owner-active s w h = holds-active s.users w s.assignments h.0

-- Someone actively owns the branch.
abbrev pub has_owner : Accounts → BranchRow → Bool
has_owner s b = any (λ (r : String × String). str_eq r.1 b.id) (active_owner_rows s)

owned_by-has_owner :
    (s : Accounts) (w : String) (b : BranchRow) → owned_by s w b ≡ true → has_owner s b ≡ true
unfolding active_owner_rows
owned_by-has_owner s w b h =
    any_mono (λ (r : String × String). str_eq r.0 w && str_eq r.1 b.id)
      (λ (r : String × String). str_eq r.1 b.id) (active_owner_rows s)
      (λ r e. (and_parts (str_eq r.0 w) (str_eq r.1 b.id) e).1)
      (rows-any s.users w (in_branch b.id) s.assignments ∙ h)

-- With a shop owner there is one, and every branch has an owner.
pub shop_owner-everywhere :
    (s : Accounts) (w : String)
    → IsShopOwner s w
    → (is_nil (shop_owners s) ≡ false) × (all (has_owner s) (select live s.branches) ≡ true)
shop_owner-everywhere s w h = (
  elim (nil_or (shop_owners s)) [
    | inl nobody ↦
        (let member : str_mem w [] ≡ true = rw nobody at ((shop_owners-IsShopOwner s w).1 h) in cc)
    | inr someone ↦ someone
  ],
  all_mono (owned_by s w) (has_owner s) (select live s.branches) (owned_by-has_owner s w) h.1,
)

pub first_owner : (s : Accounts) → is_nil (shop_owners s) ≡ false → (w : String) × IsShopOwner s w
first_owner s h =
    let (w, member) = head (shop_owners s) h in (w, (shop_owners-IsShopOwner s w).0 member)
