-- ===== src/Sync/Pull.antt =====
-- What server/dukan/application/sync_policy.py says of outcomes and of pulls: `is_cacheable`,
-- `clamp_pull_limit` and `PullScope`. A set of permissions is its characteristic function.
pub mod Visible
pub mod View
use Prim.Native.Char.{Char}
use dukan_pro.Prelude.{
  ℕ, String, Bool, true, false, not, ◌||◌, ◌&&◌, Option, none, some, List, [], ◌∷◌, any,
  if◌then◌else◌,
}
use dukan_pro.Prelude.Int.{ℤ, pos, min_ℤ, max_ℤ}
use dukan_pro.Prelude.Text.{str_eq, str_mem}
use dukan_pro.Prelude.Dict.{Dict, lookup}
use dukan_pro.Errors.{Result, ok, err, crash}
use dukan_pro.Domain.Identity.{
  Permission, Permissions, no_permissions, every_permission, all_permissions, sale_create,
  report_view, debt_write_off, stock_adjust, product_manage, User, BranchAssignment, is_active,
  permissions_for,
}
use dukan_pro.Sync.Values.{Value, Fields}

-- `s.endswith(t)`
unfoldable pub ends_with : String → String → Bool
ends_with String.[] t = str_eq String.[] t
ends_with (String.◌∷◌ c s) t = str_eq (String.◌∷◌ c s) t || ends_with s t

-- `_TRANSIENT`
abbrev pub transient : List String
transient =
    "ACCESS_DENIED" ∷ "SYNC_ACTOR_MISMATCH" ∷ "BRANCH_REQUIRED" ∷ "BRANCH_INACTIVE" ∷ "ROW_INVALID"
    ∷ []

unfoldable pub is_cacheable : String → Bool
is_cacheable code = not (str_mem code transient) && not (ends_with code "_NOT_FOUND")

abbrev pub pull_limit_max : ℤ
pull_limit_max = pos 1000

unfoldable pub clamp_pull_limit : ℤ → ℤ
clamp_pull_limit limit = max_ℤ (pos 1) (min_ℤ limit pull_limit_max)

-- `perms & readers`, as a test
unfoldable pub meets : Permissions → Permissions → Bool
meets perms readers = any (λ p. perms p && readers p) all_permissions

-- `_DEBT_READERS`, `_SALE_READERS`, the readers of the suppliers and of their ledger, and
-- `_COST_READERS`.
unfoldable pub debt_readers : Permissions
debt_readers sale_create = true
debt_readers report_view = true
debt_readers debt_write_off = true
debt_readers _ = false

unfoldable pub sale_readers : Permissions
sale_readers sale_create = true
sale_readers report_view = true
sale_readers _ = false

unfoldable pub supplier_readers : Permissions
supplier_readers stock_adjust = true
supplier_readers product_manage = true
supplier_readers report_view = true
supplier_readers _ = false

unfoldable pub supplier_debt_readers : Permissions
supplier_debt_readers report_view = true
supplier_debt_readers debt_write_off = true
supplier_debt_readers _ = false

unfoldable pub cost_readers : Permissions
cost_readers product_manage = true
cost_readers report_view = true
cost_readers _ = false

-- `_READ`
unfoldable pub read_permissions : Dict Permissions
read_permissions =
    ("products", every_permission)
    ∷ ("barcodes", every_permission)
    ∷ ("units", every_permission)
    ∷ ("categories", every_permission)
    ∷ ("customers", debt_readers)
    ∷ ("customer_ledger", debt_readers)
    ∷ ("suppliers", supplier_readers)
    ∷ ("supplier_ledger", supplier_debt_readers)
    ∷ ("stock_movements", every_permission)
    ∷ ("sales", sale_readers)
    ∷ ("sale_lines", sale_readers)
    ∷ ("payments", sale_readers)
    ∷ ("shifts", sale_readers)
    ∷ []

-- `_BRANCH_SCOPED_READ`
abbrev pub branch_scoped_read : List String
branch_scoped_read = "stock_movements" ∷ "sales" ∷ "sale_lines" ∷ "payments" ∷ "shifts" ∷ []

-- `_COST_FIELDS`
unfoldable pub cost_fields : String → List String
cost_fields table =
    if str_eq table "products"
    then "cost_minor" ∷ "cost_currency" ∷ []
    else if str_eq table "sale_lines"
    then "unit_cost_minor" ∷ []
    else []

-- `READ_FIELDS`
unfoldable pub read_fields : Dict (List String)
read_fields =
    (
      "products",
      "sku" ∷ "name" ∷ "unit_id" ∷ "category_id" ∷ "sell_price_minor" ∷ "sell_currency"
          ∷ "cost_minor" ∷ "cost_currency" ∷ "track_stock" ∷ "is_active" ∷ "version" ∷ [],
    )
    ∷ (
      "barcodes",
      "product_id" ∷ "code" ∷ "symbology" ∷ "version" ∷ "deleted_at" ∷ "created_at" ∷ [],
    )
    ∷ ("units", "name" ∷ "decimal_places" ∷ "version" ∷ [])
    ∷ ("categories", "name" ∷ "parent_id" ∷ "version" ∷ [])
    ∷ (
      "customers",
      "name" ∷ "phone" ∷ "credit_limit_minor" ∷ "currency" ∷ "is_active" ∷ "version" ∷ [],
    )
    ∷ ("suppliers", "name" ∷ "phone" ∷ "currency" ∷ "is_active" ∷ "version" ∷ [])
    ∷ (
      "stock_movements",
      "product_id" ∷ "branch_id" ∷ "qty_delta" ∷ "reason" ∷ "ref_type" ∷ "ref_id" ∷ "occurred_at"
          ∷ [],
    )
    ∷ (
      "sales",
      "number" ∷ "branch_id" ∷ "shift_id" ∷ "customer_id" ∷ "status" ∷ "currency" ∷ "discount_minor"
          ∷ "subtotal_minor" ∷ "tax_minor" ∷ "total_minor" ∷ "paid_minor" ∷ "change_minor"
          ∷ "occurred_at" ∷ "refund_of" ∷ [],
    )
    ∷ (
      "sale_lines",
      "sale_id" ∷ "product_id" ∷ "name" ∷ "qty_minor" ∷ "decimal_places" ∷ "unit_price_minor"
          ∷ "unit_cost_minor" ∷ "line_total_minor" ∷ "currency" ∷ [],
    )
    ∷ (
      "payments",
      "sale_id" ∷ "method" ∷ "amount_minor" ∷ "currency" ∷ "tendered_minor" ∷ "change_minor" ∷ [],
    )
    ∷ (
      "customer_ledger",
      "customer_id" ∷ "type" ∷ "amount_minor" ∷ "currency" ∷ "ref_type" ∷ "ref_id" ∷ "occurred_at"
          ∷ "shift_id" ∷ "method" ∷ [],
    )
    ∷ (
      "supplier_ledger",
      "supplier_id" ∷ "type" ∷ "amount_minor" ∷ "currency" ∷ "ref_type" ∷ "ref_id" ∷ "occurred_at"
          ∷ "shift_id" ∷ "method" ∷ [],
    )
    ∷ (
      "shifts",
      "branch_id" ∷ "user_id" ∷ "opened_at" ∷ "opening_float_minor" ∷ "closed_at"
          ∷ "counted_cash_minor" ∷ "expected_cash_minor" ∷ "variance_minor" ∷ "status" ∷ "version"
          ∷ [],
    )
    ∷ []

pub record PullScope : Type 0 where
  pub any_branch : Permissions
  pub by_branch : Dict Permissions

-- `{a.branch_id: … for a in actor.assignments}`, in the order of the assignments
unfoldable pub branches_of : User → List BranchAssignment → Dict Permissions
branches_of actor [] = []
branches_of actor (a ∷ rest) =
    (a.branch_id, permissions_for actor a.branch_id) ∷ branches_of actor rest

unfoldable pub union_of : Dict Permissions → Permissions
union_of [] p = false
union_of ((_, perms) ∷ rest) p = perms p || union_of rest p

unfoldable pub for_actor : User → PullScope
for_actor actor =
    let by_branch = branches_of actor actor.assignments in
    if is_active actor
    then record { any_branch = union_of by_branch; by_branch = by_branch }
    else record { any_branch = no_permissions; by_branch = [] }

unfoldable pub is_empty : PullScope → Bool
is_empty s = not (any s.any_branch all_permissions)

-- The branch of a row: the log's, or where it has none the one that the row names.
abbrev legacy_branch : Option Value → Option String
legacy_branch (some (Value.str s)) = some s
legacy_branch _ = none

unfoldable pub row_branch : Option String → Fields → Option String
row_branch none row = legacy_branch (lookup "branch_id" row)
row_branch (some b) row = if str_eq b "" then legacy_branch (lookup "branch_id" row) else some b

-- `self.by_branch.get(branch, frozenset())`
abbrev pub or_nothing : Option Permissions → Permissions
or_nothing none = no_permissions
or_nothing (some perms) = perms

abbrev pub branch_perms : PullScope → Option String → Option Permissions
branch_perms s none = none
branch_perms s (some b) = some (or_nothing (lookup b s.by_branch))

-- The permissions that decide over a row: in its branch, or in any; none where a branch row has no
-- branch.
unfoldable pub perms_for : PullScope → String → Option String → Fields → Option Permissions
perms_for s table branch_id row =
    if str_mem table branch_scoped_read
    then branch_perms s (row_branch branch_id row)
    else some s.any_branch

-- `{k: data[k] for k in fields if k in data and k not in hidden}`
abbrev pub keep : List String → String → Option Value → Fields → Fields
keep hidden k none rest = rest
keep hidden k (some x) rest = if str_mem k hidden then rest else (k, x) ∷ rest

unfoldable pub visible : Fields → List String → List String → Fields
visible row hidden [] = []
visible row hidden (k ∷ ks) = keep hidden k (lookup k row) (visible row hidden ks)

unfoldable pub hidden_fields : Permissions → String → List String
hidden_fields perms table = if meets perms cost_readers then [] else cost_fields table

-- `READ_FIELDS[table]`, a KeyError where there is none.
abbrev pub shown_of : Option (List String) → List String → Fields → Result (Option Fields)
shown_of none hidden row = err crash
shown_of (some fields) hidden row = ok (some (visible row hidden fields))

unfoldable pub shown : Permissions → String → Fields → Result (Option Fields)
shown perms table row = shown_of (lookup table read_fields) (hidden_fields perms table) row

abbrev pub shown_to : Option Permissions → Permissions → String → Fields → Result (Option Fields)
shown_to none readers table row = ok none
shown_to (some perms) readers table row =
    if meets perms readers then shown perms table row else ok none

abbrev pub view_by :
    Option Permissions → Option Permissions → String → Fields → Result (Option Fields)
view_by none perms table row = ok none
view_by (some readers) perms table row = shown_to perms readers table row

unfoldable pub view : PullScope → String → Option String → Fields → Result (Option Fields)
view s table branch_id row =
    view_by (lookup table read_permissions) (perms_for s table branch_id row) table row
