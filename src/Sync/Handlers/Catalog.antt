-- ===== src/Sync/Handlers/Catalog.antt =====
-- The handlers of products, barcodes and units.
use dukan_pro.Prelude.{
  String, Bool, true, false, not, ◌||◌, ◌&&◌, Option, none, some, [], ◌∷◌, any, if◌then◌else◌,
}
use dukan_pro.Prelude.Int.{ℤ, pos, eqb_ℤ}
use dukan_pro.Prelude.Text.{str_eq, str_mem}
use dukan_pro.Prelude.Dict.{lookup, insert, contains}
use dukan_pro.Errors.{
  Result, Checked, ok, ◌>>=◌, ◌>>◌, raise_if, validation, permission_denied, Code,
}
use dukan_pro.Domain.Identity.{
  price_change, product_manage, purchase_cost, all_permissions, permissions_for, is_active,
}
use dukan_pro.Sync.Values.{Value, Fields, str_at, int_at, str_or, str_get, is_bool, pick, value_get}
use dukan_pro.Sync.Types.{Ctx, RowSnapshot, ApplyPlan, audit, plan}
use dukan_pro.Sync.Guards.{
  need, active, guard_insert, guard_update, product, flag, default_currency,
}
use dukan_pro.Sync.Changes.{changed_of, before_of, is_empty}
use dukan_pro.Domain.Catalog.{assert_unique_barcode}

-- `_products_insert`
unfoldable pub products_insert : Ctx → Fields → Result ApplyPlan
products_insert ctx v = do
  branch ← active ctx
  need ctx product_manage branch
  guard_insert ctx
  unit_id ← str_at "unit_id" v
  raise_if (not (ctx.reader.unit_exists unit_id)) (validation Code.unit_not_found)
  currency ← str_or "sell_currency" v default_currency
  raise_if (not (str_mem currency ctx.reader.shop_currencies))
      (validation Code.price_currency_invalid)
  sku ← str_at "sku" v
  let after = pick v (
      "sku" ∷ "name" ∷ "unit_id" ∷ "sell_price_minor" ∷ "sell_currency" ∷ "track_stock"
      ∷ "is_active" ∷ [])
  ok (
      plan v branch none
        (audit "product.created" "product" (flag (ctx.reader.sku_taken sku) "sku_taken" after)))

-- The test of a new selling currency.
unfoldable pub sell_currency_known : Ctx → Fields → Checked
sell_currency_known ctx v = do
  currency ← str_get "sell_currency" v
  raise_if
      (contains "sell_currency" v
        && not (elim currency [ none ↦ false | some c ↦ str_mem c ctx.reader.shop_currencies ]))
      (validation Code.price_currency_invalid)

-- `set(changed) == {"cost_minor"}`; a payload has each key once.
abbrev only_cost : Fields → Bool
only_cost ((k, x) ∷ []) = str_eq k "cost_minor"
only_cost _ = false

unfoldable pub update_action : Bool → Fields → String
update_action price_changed changed =
    if price_changed
    then "product.price_changed"
    else if is_bool "is_active" changed false
    then "product.deactivated"
    else if only_cost changed
    then "cost.valuation_changed"
    else "product.updated"

-- `v.get("sell_currency", current.values.get("sell_currency"))`
abbrev cost_currency : Fields → Fields → Value
cost_currency v stored = elim (lookup "sell_currency" v) [
  | none ↦ value_get "sell_currency" stored
  | some x ↦ x
]

-- A new cost: the permission that it needs, and the currency that it gets.
unfoldable pub priced : Ctx → String → Fields → Fields → Result Fields
priced ctx branch v stored =
    let costed = (do
      need ctx purchase_cost branch
      ok (insert "cost_currency" (cost_currency v stored) v)) in
    if contains "cost_minor" v then costed else ok v

-- `"sku" in changed and ctx.reader.sku_taken(v["sku"])`
unfoldable pub sku_clash : Ctx → Fields → Fields → Result Bool
sku_clash ctx changed v = elim (lookup "sku" changed) [
  | none ↦ ok false
  | some _ ↦ (do sku ← str_at "sku" v; ok (ctx.reader.sku_taken sku))
]

-- `_products_update`
unfoldable pub products_update : Ctx → Fields → Result ApplyPlan
products_update ctx v = do
  branch ← active ctx
  need ctx product_manage branch
  current ← guard_update ctx Code.product_not_found
  raise_if (is_empty v) (validation Code.sync_op_invalid)
  sell_currency_known ctx v
  let changed = changed_of v current.values
  let price_changed = contains "sell_price_minor" changed || contains "sell_currency" changed
  if price_changed then need ctx price_change branch else ok tt
  written ← priced ctx branch v current.values
  clash ← sku_clash ctx changed written
  ok (
      plan written branch none
        (record (audit (update_action price_changed changed) "product"
          (flag clash "sku_taken" changed)) { before = some (before_of changed current.values) }))

-- `_barcodes_insert`
unfoldable pub barcodes_insert : Ctx → Fields → Result ApplyPlan
barcodes_insert ctx v = do
  branch ← active ctx
  need ctx product_manage branch
  guard_insert ctx
  product_id ← str_at "product_id" v
  _ ← product ctx product_id false
  code ← str_at "code" v
  assert_unique_barcode (ctx.reader.barcode_taken code)
  ok (plan v branch none (audit "barcode.added" "barcode" (pick v ("product_id" ∷ "code" ∷ []))))

abbrev already_removed : String → RowSnapshot → ApplyPlan
already_removed branch row =
    record (plan [] branch none (
      audit "barcode.removed" "barcode" (
        ("product_id", value_get "product_id" row.values)
        ∷ ("already_removed", Value.bool true)
        ∷ []))) { noop = true }

abbrev removed : Ctx → String → RowSnapshot → ApplyPlan
removed ctx branch row = plan (("deleted_at", Value.time ctx.now) ∷ []) branch none (
    audit "barcode.removed" "barcode" (
      ("product_id", value_get "product_id" row.values)
      ∷ ("code", value_get "code" row.values)
      ∷ []))

-- The rest of a removal, by the row that the server has.
unfoldable pub remove_barcode : Ctx → String → Option RowSnapshot → Result ApplyPlan
remove_barcode ctx branch none = do
  current ← guard_update ctx Code.barcode_not_found
  ok (removed ctx branch current)
remove_barcode ctx branch (some row) =
    let go = (do
      current ← guard_update ctx Code.barcode_not_found
      ok (removed ctx branch current)) in
    if row.deleted then ok (already_removed branch row) else go

-- `_barcodes_update`
unfoldable pub barcodes_update : Ctx → Fields → Result ApplyPlan
unfolding remove_barcode
barcodes_update ctx v = do
  branch ← active ctx
  need ctx product_manage branch
  raise_if (not (is_bool "deleted" v true)) (validation Code.sync_op_invalid)
  remove_barcode ctx branch ctx.existing

-- `(name, decimal_places) in CANONICAL_UNITS`
unfoldable pub canonical_unit : String → ℤ → Bool
canonical_unit name places =
    (str_eq name "piece" && eqb_ℤ places (pos 0))
    || (str_eq name "kg" && eqb_ℤ places (pos 3))
    || (str_eq name "litre" && eqb_ℤ places (pos 3))
    || (str_eq name "dozen" && eqb_ℤ places (pos 0))
    || (str_eq name "meter" && eqb_ℤ places (pos 2))

-- The member of a branch: an active user with any permission there.
unfoldable pub branch_member : Ctx → String → Bool
branch_member ctx branch =
    is_active ctx.actor && any (permissions_for ctx.actor branch) all_permissions

-- `_units_insert`
unfoldable pub units_insert : Ctx → Fields → Result ApplyPlan
unfolding branch_member canonical_unit
units_insert ctx v = do
  branch ← active ctx
  name ← str_at "name" v
  places ← int_at "decimal_places" v
  if canonical_unit name places
      then raise_if (not (branch_member ctx branch)) (permission_denied Code.access_denied)
      else need ctx product_manage branch
  guard_insert ctx
  ok (plan v branch none (audit "unit.created" "unit" (pick v ("name" ∷ "decimal_places" ∷ []))))
