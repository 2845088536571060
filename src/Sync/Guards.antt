-- ===== src/Sync/Guards.antt =====
-- The guards that the handlers of server/dukan/application/sync_policy.py share.
pub mod Passed
use dukan_pro.Prelude.{
  ℕ, String, Bool, true, false, not, ◌||◌, ◌&&◌, Option, none, some, List, [], ◌∷◌, any,
  if◌then◌else◌, is_some,
}
use dukan_pro.Prelude.Int.{ℤ, pos, eqb_ℤ}
use dukan_pro.Prelude.Text.{str_eq, str_mem, is_text}
use dukan_pro.Prelude.Dict.{Dict, lookup, insert}
use dukan_pro.Errors.{
  AppError, Result, Checked, ok, err, crash, ◌>>=◌, ◌>>◌, raise_if, validation, not_found, conflict,
  sync_conflict, Code,
}
use dukan_pro.Domain.Identity.{Permission, sale_create}
use dukan_pro.Access.{require_permission}
use dukan_pro.Sync.Values.{Value, Fields, value_get}
use dukan_pro.Sync.Types.{Ctx, RowSnapshot, ProductRef, CustomerRef, SaleRef, ShiftRef}

abbrev pub default_currency : String
default_currency = "AFN"

-- `_need`
unfoldable pub need : Ctx → Permission → String → Checked
need ctx permission branch_id = require_permission ctx.actor permission branch_id

abbrev named : Option String → Result String
named none = err (validation Code.branch_required)
named (some b) = if str_eq b "" then err (validation Code.branch_required) else ok b

-- `_active`
unfoldable pub active : Ctx → Result String
active ctx = named ctx.active_branch

abbrev pub master_tables : List String
master_tables =
    "products" ∷ "barcodes" ∷ "customers" ∷ "suppliers" ∷ "units" ∷ "categories" ∷ "shifts" ∷ []

-- `_guard_insert`
unfoldable pub guard_insert : Ctx → Checked
guard_insert ctx = raise_if (is_some ctx.existing) (
    if str_mem ctx.op.table master_tables
    then sync_conflict (Code.already_exists ctx.op.table)
    else validation Code.sync_row_exists)

abbrev same_version : Option ℤ → ℤ → Bool
same_version none version = false
same_version (some base) version = eqb_ℤ version base

abbrev current_of : Option RowSnapshot → String → Option ℤ → Code → Result RowSnapshot
current_of none table base missing = err (not_found missing)
current_of (some row) table base missing =
    if row.deleted
    then err (not_found missing)
    else if same_version base row.version
    then ok row
    else err (sync_conflict (Code.version_conflict table))

-- `_guard_update`
unfoldable pub guard_update : Ctx → Code → Result RowSnapshot
guard_update ctx missing = current_of ctx.existing ctx.op.table ctx.op.base_version missing

abbrev product_of : Option ProductRef → Bool → Result ProductRef
product_of none allow_deleted = err (not_found Code.product_not_found)
product_of (some p) allow_deleted =
    if p.deleted && not allow_deleted then err (not_found Code.product_not_found) else ok p

-- `_product`
unfoldable pub product : Ctx → String → Bool → Result ProductRef
product ctx product_id allow_deleted = product_of (ctx.reader.product product_id) allow_deleted

abbrev customer_of : Option CustomerRef → Result CustomerRef
customer_of none = err (not_found Code.customer_not_found)
customer_of (some c) = if c.deleted then err (not_found Code.customer_not_found) else ok c

-- `_customer`
unfoldable pub customer : Ctx → String → Result CustomerRef
customer ctx customer_id = customer_of (ctx.reader.customer customer_id)

abbrev or_not_found : Option SaleRef → Result SaleRef
or_not_found none = err (not_found Code.sale_not_found)
or_not_found (some s) = ok s

-- `ctx.reader.sale(id)`, and the error that follows where it is None.
unfoldable pub sale : Ctx → String → Result SaleRef
sale ctx sale_id = or_not_found (ctx.reader.sale sale_id)

-- `_own_sale`
unfoldable pub own_sale : Ctx → String → Result SaleRef
own_sale ctx sale_id = do
  s ← sale ctx sale_id
  need ctx sale_create s.branch_id
  raise_if (not (is_text s.created_by ctx.actor.id)) (validation Code.sync_ref_mismatch)
  ok s

-- `_require_complete_lines`
unfoldable pub require_complete_lines : Ctx → SaleRef → Checked
require_complete_lines ctx s =
    raise_if (not (eqb_ℤ (ctx.reader.sale_lines_total s.id) s.subtotal_minor))
      (not_found Code.sale_lines_not_found)

-- `_violates`: an error that is no conflict passes through.
unfoldable pub violates : Checked → Result Bool
violates (ok _) = ok false
violates (err (conflict c)) = ok true
violates (err (sync_conflict c)) = ok true
violates (err e) = err e

abbrev own_shift_of : Option ShiftRef → String → String → Result ShiftRef
own_shift_of none branch_id actor_id = err (not_found Code.shift_not_found)
own_shift_of (some s) branch_id actor_id = do
  raise_if (not (str_eq s.branch_id branch_id)) (validation Code.sync_ref_mismatch)
  raise_if (not (str_eq s.user_id actor_id)) (validation Code.sync_ref_mismatch)
  ok s

-- `_own_shift`
unfoldable pub own_shift : Ctx → String → String → Result ShiftRef
own_shift ctx shift_id branch_id = own_shift_of (ctx.reader.shift shift_id) branch_id ctx.actor.id

-- `shift_id is not None and _own_shift(ctx, shift_id, branch).status != "open"`
unfoldable pub after_close : Ctx → Option String → String → Result Bool
after_close ctx none branch = ok false
after_close ctx (some shift_id) branch = do
  s ← own_shift ctx shift_id branch
  ok (not (str_eq s.status "open"))

abbrev is_given_value : Value → Bool
is_given_value Value.null = false
is_given_value _ = true

-- `v.get(k) is not None`
unfoldable pub is_given : String → Fields → Bool
is_given k v = is_given_value (value_get k v)

-- `{**after, k: True}` where `b` holds.
abbrev pub flag : Bool → String → Fields → Fields
flag b k after = if b then insert k (Value.bool true) after else after
