-- ===== src/Sync/Handlers/Sales/Voids.antt =====
-- What a void does, and to which sales.
use dukan_pro.Prelude.{
  ap, ◌≡◌, ◌⊎◌, inl, inr, refl, arith, Bool-cases, String, true, false, not, ◌||◌, none, some, [],
  ◌∷◌, is_some,
}
use dukan_pro.Prelude.Text.{str_eq}
use dukan_pro.Prelude.Dict.{lookup}
use dukan_pro.Errors.{ok, err, crash}
use dukan_pro.Domain.Identity.{sale_void, can}
use dukan_pro.Sync.Values.{Value, Fields, as_str, str_at}
use dukan_pro.Sync.Types.{Ctx, SaleRef, ApplyPlan}
use dukan_pro.Sync.Guards.{need, sale}
use dukan_pro.Errors.{>>=-eq-ok, >>-eq-ok, passed}
use dukan_pro.Prelude.Text.{eq_iff}
use dukan_pro.Sync.Guards.Passed.{need-eq-ok, sale-eq-ok}
use dukan_pro.Access.{require_permission}
use dukan_pro.Sync.Handlers.Sales.{sales_update, void_settled}

-- A sale that may be voided: settled, no return, and nothing of it returned.
pub record Voidable (ctx : Ctx) (s : SaleRef) : Type 0 where
  pub settled : s.status ≡ "settled"
  pub no_return : s.refund_of ≡ none
  pub kept : ctx.reader.sale_has_refunds s.id ≡ false

-- A void that is accepted is of a sale that exists, in a branch where the actor may void. Of a sale
-- that was voided already it writes nothing, and says so; of any other it writes the status
-- "voided" and nothing else, and the sale was settled, is no return, and has no returns.
pub sales_update-void :
    (ctx : Ctx) (v : Fields) (p : ApplyPlan)
    → sales_update ctx v ≡ ok p
    → (s : SaleRef) × (ctx.reader.sale ctx.op.row_id ≡ some s)
      × (can ctx.actor sale_void s.branch_id ≡ true)
      × (p.auth_branch_id ≡ s.branch_id)
      × (((s.status ≡ "voided") × (p.noop ≡ true) × (p.values ≡ []))
          ⊎ (Voidable ctx s × (p.noop ≡ false) × (p.values ≡ ("status", Value.str "voided") ∷ [])))
unfolding sales_update void_settled
sales_update-void ctx v p h =
    let (s, o, h) = >>=-eq-ok (sale ctx ctx.op.row_id) _ h in
    let (may_void, h) = >>-eq-ok (need ctx sale_void s.branch_id) _ h in
    elim (Bool-cases (str_eq s.status "voided")) [
      | inl voided ↦
          let h = rw voided at h in
          (
            s,
            sale-eq-ok ctx ctx.op.row_id o,
            need-eq-ok ctx sale_void s.branch_id may_void,
            ground arith,
            inl ((eq_iff s.status "voided").0 voided, ground arith, ground arith),
          )
      | inr other ↦
          let h = rw other at h in
          let (able, h) =
            passed
              (not (str_eq s.status "settled")
                || is_some s.refund_of
                || ctx.reader.sale_has_refunds s.id)
              _ _ h in
          let (reason, r, h) = >>=-eq-ok (str_at "void_reason" v) _ h in
          (
            s,
            sale-eq-ok ctx ctx.op.row_id o,
            need-eq-ok ctx sale_void s.branch_id may_void,
            ground arith,
            inr (
              record {
                settled = ground (arith, eq_iff s.status "settled");
                no_return = ground arith;
                kept = ground arith;
              },
              ground arith,
              ground arith,
            ),
          )
    ]

str_at-missing : (k : String) (v : Fields) → lookup k v ≡ none → str_at k v ≡ err crash
unfolding str_at
str_at-missing k v n = ap (λ o. elim o [ none ↦ err crash | some x ↦ as_str x ]) n

void_settled-no_reason :
    (ctx : Ctx) (v : Fields) (s : SaleRef)
    → Voidable ctx s
    → str_at "void_reason" v ≡ err crash
    → void_settled ctx v s ≡ err crash
unfolding void_settled
void_settled-no_reason ctx v s able n =
    let status : str_eq s.status "settled" ≡ true = (eq_iff s.status "settled").1 able.settled in
    let no_return = able.no_return in let kept = able.kept in ground arith

-- A void that gives no reason, of a sale that the actor could void, is refused by no rule: the
-- handler reads the missing key, which is a KeyError.
pub sales_update-no_reason :
    (ctx : Ctx) (v : Fields) (s : SaleRef)
    → ctx.reader.sale ctx.op.row_id ≡ some s
    → can ctx.actor sale_void s.branch_id ≡ true
    → Voidable ctx s
    → lookup "void_reason" v ≡ none
    → sales_update ctx v ≡ err crash
unfolding sales_update sale need require_permission
sales_update-no_reason ctx v s e may able n =
    let broken = void_settled-no_reason ctx v s able (str_at-missing "void_reason" v n) in
    let settled = able.settled in
    let fresh : str_eq s.status "voided" ≡ false = rw settled refl in
    rw (e, may) (rw (fresh, broken) refl)
