-- ===== src/Sync/Handlers/Shifts/Closing.antt =====
-- How a shift opens and closes.
use dukan_pro.Prelude.{
  ◌≡◌, ◌⊎◌, inl, inr, refl, arith, Bool-cases, String, true, false, not, ◌||◌, some, if◌then◌else◌,
}
use dukan_pro.Prelude.Int.{ℤ, pos, ◌-ℤ◌, ◌≤ℤ◌}
use dukan_pro.Prelude.Text.{str_eq, is_text}
use dukan_pro.Prelude.Dict.{lookup, contains}
use dukan_pro.Errors.{ok, Code}
use dukan_pro.Domain.Identity.{sale_create, sale_void, can}
use dukan_pro.Sync.Values.{Fields, str_at, int_at, str_get}
use dukan_pro.Sync.Types.{Ctx, RowSnapshot, ApplyPlan}
use dukan_pro.Sync.Guards.{need, guard_update}
use dukan_pro.Errors.{>>=-eq-ok, >>-eq-ok, passed}
use dukan_pro.Prelude.Text.{eq_iff}
use dukan_pro.Sync.Guards.Passed.{need-eq-ok, guard_update-eq-ok}
use dukan_pro.Sync.EventTime.{Clock}
use dukan_pro.Domain.Sales.{assert_shift_cash_valid}
use dukan_pro.Sync.Handlers.Shifts.{shifts_update, closing}

-- Who may close a shift: its own cashier where that user sells, or someone who may void there.
pub MayClose : Ctx → String → String → Type 0
MayClose ctx user_id branch =
    ((user_id ≡ ctx.actor.id) × (can ctx.actor sale_create branch ≡ true))
    ⊎ (can ctx.actor sale_void branch ≡ true)

may_close :
    (ctx : Ctx) (user_id branch : String) {u : Unit {0}}
    → need ctx (if str_eq user_id ctx.actor.id then sale_create else sale_void) branch ≡ ok u
    → MayClose ctx user_id branch
unfolding MayClose
may_close ctx user_id branch h = elim (Bool-cases (str_eq user_id ctx.actor.id)) [
  | inl own ↦
      inl ((eq_iff user_id ctx.actor.id).0 own, need-eq-ok ctx sale_create branch (rw own at h))
  | inr other ↦ inr (need-eq-ok ctx sale_void branch (rw other at h))
]

closing-variance :
    (fromisoformat : Clock) (ctx : Ctx) (counted expected : ℤ) (values : Fields)
    → values ≡ closing fromisoformat ctx counted expected
    → int_at "variance_minor" values ≡ ok (counted -ℤ expected)
unfolding int_at lookup
closing-variance fromisoformat ctx counted expected values e = rw e refl

-- A close that is accepted is of an open shift that is not deleted, at the version that the device
-- saw, by its cashier or by someone who may void. It writes the cash that was counted, which is not
-- negative, the cash that the server expects, and the count less the expectation as the variance.
pub shifts_update-close :
    (fromisoformat : Clock) (ctx : Ctx) (v : Fields) (p : ApplyPlan)
    → shifts_update fromisoformat ctx v ≡ ok p
    → (row : RowSnapshot) × (user_id : String) × (counted : ℤ) × (ctx.existing ≡ some row)
      × (row.deleted ≡ false)
      × (ctx.op.base_version ≡ some row.version)
      × (str_at "status" row.values ≡ ok "open")
      × (str_at "branch_id" row.values ≡ ok p.auth_branch_id)
      × (str_at "user_id" row.values ≡ ok user_id)
      × MayClose ctx user_id p.auth_branch_id
      × (int_at "counted_cash_minor" v ≡ ok counted)
      × (pos 0 ≤ℤ counted)
      × (p.values
          ≡ closing fromisoformat ctx counted (ctx.reader.shift_expected_cash ctx.op.row_id))
      × (int_at "variance_minor" p.values
          ≡ ok (counted -ℤ ctx.reader.shift_expected_cash ctx.op.row_id))
unfolding shifts_update assert_shift_cash_valid
shifts_update-close fromisoformat ctx v p h =
    let (row, g, h) = >>=-eq-ok (guard_update ctx Code.shift_not_found) _ h in
    let (branch, b, h) = >>=-eq-ok (str_at "branch_id" row.values) _ h in
    let (user_id, u, h) = >>=-eq-ok (str_at "user_id" row.values) _ h in
    let (may, h) =
      >>-eq-ok (need ctx (if str_eq user_id ctx.actor.id then sale_create else sale_void) branch) _
        h in
    let (stored, s, h) = >>=-eq-ok (str_at "status" row.values) _ h in
    let (running, h) = passed (not (str_eq stored "open")) _ _ h in
    let (status, t, h) = >>=-eq-ok (str_get "status" v) _ h in
    let (_, h) =
      passed (not (is_text status "closed") || not (contains "counted_cash_minor" v)) _ _ h in
    let (counted, c, h) = >>=-eq-ok (int_at "counted_cash_minor" v) _ h in
    let (valid, h) = >>-eq-ok (assert_shift_cash_valid counted) _ h in
    let (existing, deleted, version) = guard_update-eq-ok ctx Code.shift_not_found row g in
    let is_running : stored ≡ "open" = ground (arith, eq_iff stored "open") in
    let here : branch ≡ p.auth_branch_id = ground arith in
    let written : p.values
        ≡ closing fromisoformat ctx counted (ctx.reader.shift_expected_cash ctx.op.row_id) =
      ground arith in
    (
      row,
      user_id,
      counted,
      existing,
      deleted,
      version,
      rw is_running at s,
      rw here at b,
      u,
      rw here at (may_close ctx user_id branch may),
      c,
      ground arith,
      written,
      closing-variance fromisoformat ctx counted (ctx.reader.shift_expected_cash ctx.op.row_id)
          p.values written,
    )
