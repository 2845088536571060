-- ===== src/SalesService/Shifts.antt =====
-- `SqlSalesService.open_shift` and `close_shift`.
use dukan_pro.Prelude.{
  ℕ, suc, String, Bool, false, not, ◌&&◌, none, some, is_some, List, [], ◌∷◌, ◌++◌, if◌then◌else◌,
}
use dukan_pro.Prelude.Int.{ℤ, ◌-ℤ◌}
use dukan_pro.Prelude.Text.{str_eq}
use dukan_pro.Errors.{Result, ok, ◌>>=◌, ◌>>◌, or_raise, raise_if, not_found, conflict, Code}
use dukan_pro.Access.{require_permission}
use dukan_pro.Domain.Identity.{User, sale_create, sale_void}
use dukan_pro.Domain.Sales.{assert_shift_cash_valid}
use dukan_pro.Store.{Store, Shift, AuditEntry, logged}
use dukan_pro.Store.Queries.{first, update_where, shift_with, require_active_branch, expected_cash}

abbrev pub open_of : String → String → Shift → Bool
open_of branch_id user_id x =
    str_eq x.branch_id branch_id
    && str_eq x.user_id user_id
    && str_eq x.status "open"
    && not x.deleted

abbrev pub new_shift : String → String → String → ℤ → Shift
new_shift id branch_id user_id float = record {
  id = id;
  branch_id = branch_id;
  user_id = user_id;
  opening_float_minor = float;
  counted_cash_minor = none;
  expected_cash_minor = none;
  variance_minor = none;
  status = "open";
  version = 1;
  deleted = false;
}

abbrev audited : Store → String → String → String → List AuditEntry
audited s action actor_id id =
    s.audit ++ (record { action = action; actor_id = actor_id; entity_id = id } ∷ [])

unfoldable pub open_shift : (ℕ → String) → Store → User → String → ℤ → Result Store
open_shift new_id s actor branch_id float = do
  require_permission actor sale_create branch_id
  require_active_branch s branch_id
  assert_shift_cash_valid float
  raise_if (is_some (first (open_of branch_id actor.id) s.shifts))
      (conflict Code.shift_already_open)
  ok (record s {
    shifts = s.shifts ++ (new_shift (new_id s.next) branch_id actor.id float ∷ []);
    audit = audited s "shift.opened" actor.id (new_id s.next);
    feed = s.feed ++ (logged "shifts" "insert" (some branch_id) (new_id s.next) ∷ []);
    next = suc s.next;
  })

abbrev pub closed : ℤ → ℤ → Shift → Shift
closed expected counted x = record x {
  expected_cash_minor = some expected;
  counted_cash_minor = some counted;
  variance_minor = some (counted -ℤ expected);
  status = "closed";
  version = suc x.version;
}

unfoldable pub close_shift : Store → User → String → ℤ → Result Store
close_shift s actor shift_id counted = do
  shift ← or_raise (first (shift_with shift_id) s.shifts) (not_found Code.shift_not_found)
  require_permission actor (if str_eq shift.user_id actor.id then sale_create else sale_void)
      shift.branch_id
  raise_if (not (str_eq shift.status "open")) (conflict Code.shift_already_closed)
  assert_shift_cash_valid counted
  ok (record s {
    shifts =
        update_where (shift_with shift_id) (closed (expected_cash s shift_id) counted) s.shifts;
    audit = audited s "shift.closed" actor.id shift_id;
    feed = s.feed ++ (logged "shifts" "update" (some shift.branch_id) shift_id ∷ []);
  })
