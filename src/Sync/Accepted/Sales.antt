-- ===== src/Sync/Accepted/Sales.antt =====
-- The plans for sales and their voids.
use dukan_pro.Prelude.{sym, ◌∙◌, ◌≡◌, inl, inr, arith, Bool-cases, String, not, [], ◌∷◌}
use dukan_pro.Prelude.Text.{str_eq}
use dukan_pro.Prelude.Dict.{erase}
use dukan_pro.Errors.{ok}
use dukan_pro.Domain.Identity.{sale_create, sale_void}
use dukan_pro.Sync.Values.{Fields, str_at}
use dukan_pro.Sync.Types.{SaleRef}
use dukan_pro.Sync.Guards.{need, guard_insert, sale, is_given}
use dukan_pro.Errors.{>>=-eq-ok, >>-eq-ok, passed}
use dukan_pro.Prelude.Text.{eq_iff}
use dukan_pro.Sync.Guards.Passed.{need-eq-ok}
use dukan_pro.Sync.Plans.{Inserts, Updates}
use dukan_pro.Sync.Plans.Made.{inserted}
use dukan_pro.Sync.Handlers.Sales.{
  sales_insert, refund_insert, settled_insert, refund_reason, check_refund_of, check_not_negative,
  sales_update, void_settled,
}

in_branch :
    (v : Fields) (original : SaleRef) (branch : String) {u : Unit {0}}
    → check_refund_of v original branch ≡ ok u
    → branch ≡ original.branch_id
unfolding check_refund_of
in_branch v original branch h =
    let (same, h) = passed (not (str_eq branch original.branch_id)) _ _ h in
    ground (arith, eq_iff branch original.branch_id)

refund_insert-Inserts : Inserts refund_insert
unfolding refund_insert
refund_insert-Inserts ctx v p h =
    let (id, i, h) = >>=-eq-ok (str_at "refund_of" v) _ h in
    let (original, o, h) = >>=-eq-ok (sale ctx id) _ h in
    let (may, h) = >>-eq-ok (need ctx sale_void original.branch_id) _ h in
    let (fresh, h) = >>-eq-ok (guard_insert ctx) _ h in
    let (reason, r, h) = >>=-eq-ok (refund_reason v) _ h in
    let (_, h) = passed (str_eq reason "") _ _ h in
    let (branch, b, h) = >>=-eq-ok (str_at "branch_id" v) _ h in
    let (of, h) = >>-eq-ok (check_refund_of v original branch) _ h in
    let planned : branch ≡ p.auth_branch_id = ground arith in
    inserted ctx p sale_void original.branch_id may fresh
      (sym (in_branch v original branch of) ∙ planned)

settled_insert-Inserts : Inserts settled_insert
unfolding settled_insert
settled_insert-Inserts ctx v p h =
    let (_, h) =
      >>-eq-ok
        (check_not_negative v
          ("discount_minor" ∷ "subtotal_minor" ∷ "total_minor" ∷ "paid_minor" ∷ []))
        _ h in
    let (branch, b, h) = >>=-eq-ok (str_at "branch_id" (erase "refund_reason" v)) _ h in
    let (may, h) = >>-eq-ok (need ctx sale_create branch) _ h in
    let (fresh, h) = >>-eq-ok (guard_insert ctx) _ h in
    inserted ctx p sale_create branch may fresh (ground arith)

pub sales_insert-Inserts : Inserts sales_insert
unfolding sales_insert
sales_insert-Inserts ctx v p h = elim (Bool-cases (is_given "refund_of" v)) [
  | inl refund ↦ refund_insert-Inserts ctx v p (rw refund at h)
  | inr other ↦ settled_insert-Inserts ctx v p (rw other at h)
]

pub sales_update-Updates : Updates sales_update
unfolding sales_update void_settled
sales_update-Updates ctx v p h =
    let (s, o, h) = >>=-eq-ok (sale ctx ctx.op.row_id) _ h in
    let (may, h) = >>-eq-ok (need ctx sale_void s.branch_id) _ h in
    let here : s.branch_id ≡ p.auth_branch_id = ground arith in
    record {
      permission = sale_void;
      may = rw here at (need-eq-ok ctx sale_void s.branch_id may);
      seen = elim (Bool-cases (str_eq s.status "voided")) [
        | inl voided ↦ (let h = rw voided at h in inl (ground arith))
        | inr other ↦ (let h = rw other at h in inr (inl (ground arith)))
      ];
    }
