-- ===== src/Sync/Handlers/Parties/Credit.antt =====
-- Who may grant credit.
use dukan_pro.Prelude.{
  ap, ◌≡◌, ◌⊎◌, inl, inr, refl, arith, Bool-cases, String, Bool, true, false, none, some, [], ◌∷◌,
}
use dukan_pro.Prelude.Int.{pos}
use dukan_pro.Prelude.Dict.{insert}
use dukan_pro.Errors.{ok}
use dukan_pro.Domain.Identity.{sale_create, customer_credit, can}
use dukan_pro.Sync.Values.{Value, Fields, value_eq, pick, value_get}
use dukan_pro.Sync.Types.{Ctx, ApplyPlan}
use dukan_pro.Sync.Guards.{need, active, guard_insert}
use dukan_pro.Errors.{>>=-eq-ok, >>-eq-ok}
use dukan_pro.Sync.Guards.Passed.{need-eq-ok, active-eq-ok, guard_insert-eq-ok}
use dukan_pro.Prelude.Dict.{lookup-insert_self}
use dukan_pro.Sync.Handlers.Parties.{customers_insert, granting}

value_get-insert_self : (k : String) (x : Value) (v : Fields) → value_get k (insert k x v) ≡ x
unfolding value_get
value_get-insert_self k x v =
    ap (λ o. elim o [ none ↦ Value.null | some y ↦ y ]) (lookup-insert_self k x v)

insert-zero :
    (v : Fields)
    → value_eq
        (value_get "credit_limit_minor" (insert "credit_limit_minor" (Value.int (pos 0)) v))
        (Value.int (pos 0))
      ≡ true
unfolding value_eq
insert-zero v = rw (value_get-insert_self "credit_limit_minor" (Value.int (pos 0)) v) refl

granting-limit :
    (v after : Fields) (allowed : Bool)
    → (allowed ≡ true)
      ⊎ (value_eq (value_get "credit_limit_minor" (granting allowed v after).0) (Value.int (pos 0))
          ≡ true)
unfolding granting
granting-limit v after true = inl refl
granting-limit v after false =
    elim (Bool-cases (value_eq (value_get "credit_limit_minor" v) (Value.int (pos 0)))) [
      | inl zero_limit ↦ inr (rw zero_limit zero_limit)
      | inr other ↦ inr (rw other (insert-zero v))
    ]

-- A new customer of an actor who may not grant credit in the active branch has a credit limit of 0,
-- whatever the device asked for. The actor sells there, and the row is new.
pub customers_insert-credit :
    (ctx : Ctx) (v : Fields) (p : ApplyPlan)
    → customers_insert ctx v ≡ ok p
    → (ctx.active_branch ≡ some p.auth_branch_id)
      × (can ctx.actor sale_create p.auth_branch_id ≡ true)
      × (ctx.existing ≡ none)
      × ((can ctx.actor customer_credit p.auth_branch_id ≡ true)
          ⊎ (value_eq (value_get "credit_limit_minor" p.values) (Value.int (pos 0)) ≡ true))
unfolding customers_insert
customers_insert-credit ctx v p h =
    let (branch, b, h) = >>=-eq-ok (active ctx) _ h in
    let (may_sell, h) = >>-eq-ok (need ctx sale_create branch) _ h in
    let (fresh, h) = >>-eq-ok (guard_insert ctx) _ h in
    let after = pick v ("name" ∷ "credit_limit_minor" ∷ "currency" ∷ []) in
    let here : branch ≡ p.auth_branch_id = ground arith in
    let written : (granting (can ctx.actor customer_credit branch) v after).0 ≡ p.values =
      ground arith in
    (
      rw here at (active-eq-ok ctx b),
      rw here at (need-eq-ok ctx sale_create branch may_sell),
      guard_insert-eq-ok ctx fresh,
      rw (← here, ← written) (granting-limit v after (can ctx.actor customer_credit branch)),
    )
