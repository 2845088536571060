-- ===== src/Sync/Dispatch/Planned.antt =====
-- What `plan_op` promises, whatever the table.
use dukan_pro.Prelude.{◌≡◌, inl, inr, refl, arith, Bool-cases, String, true, ◌&&◌, Option, some}
use dukan_pro.Prelude.Int.{ℤ}
use dukan_pro.Prelude.Text.{str_eq, str_mem}
use dukan_pro.Prelude.Dict.{lookup, insert}
use dukan_pro.Errors.{or_raise, ok, crash}
use dukan_pro.Sync.Values.{Value, Fields}
use dukan_pro.Sync.Types.{RowSnapshot, ApplyPlan}
use dukan_pro.Errors.{>>=-eq-ok, >>-eq-ok}
use dukan_pro.Prelude.Text.{eq_iff}
use dukan_pro.Sync.Plans.{Inserted, Updated, Inserts, Updates}
use dukan_pro.Prelude.{All}
use dukan_pro.Prelude.Dict.{lookup-all, lookup-insert_self}
use dukan_pro.Domain.Branches.{assert_branch_active}
use dukan_pro.Domain.Identity.{User}
use dukan_pro.Sync.Types.{OpInput, SyncReader}
use dukan_pro.Sync.EventTime.{Clock, event_time}
use dukan_pro.Sync.EventTime.Window.{InWindow, event_time-window}
use dukan_pro.Sync.Fields.{clean_fields}
use dukan_pro.Sync.Dispatch.{
  Handler, insert_handlers, update_handlers, handler, plan_op, context, dated, dated_tables,
}
use dukan_pro.Sync.Accepted.Masters.{
  products_insert-Inserts, products_update-Updates, barcodes_insert-Inserts,
  barcodes_update-Updates, units_insert-Inserts, customers_insert-Inserts, customers_update-Updates,
  suppliers_insert-Inserts, shifts_insert-Inserts, shifts_update-Updates,
}
use dukan_pro.Sync.Accepted.Goods.{stock_insert-Inserts}
use dukan_pro.Sync.Accepted.Sales.{sales_insert-Inserts, sales_update-Updates}
use dukan_pro.Sync.Accepted.Money.{sale_lines_insert-Inserts, payments_insert-Inserts}
use dukan_pro.Sync.Accepted.Ledgers.{customer_ledger_insert-Inserts, supplier_ledger_insert-Inserts}

module _ (fromisoformat : Clock) where
  insert_handlers-All : All (λ e. Inserts e.1) (insert_handlers fromisoformat)
  unfolding insert_handlers
  insert_handlers-All = (
    products_insert-Inserts,
    (
      barcodes_insert-Inserts,
      (
        units_insert-Inserts,
        (
          customers_insert-Inserts,
          (
            suppliers_insert-Inserts,
            (
              stock_insert-Inserts,
              (
                sales_insert-Inserts,
                (
                  sale_lines_insert-Inserts,
                  (
                    payments_insert-Inserts,
                    (
                      shifts_insert-Inserts fromisoformat,
                      (customer_ledger_insert-Inserts, (supplier_ledger_insert-Inserts, tt)),
                    ),
                  ),
                ),
              ),
            ),
          ),
        ),
      ),
    ),
  )

  update_handlers-All : All (λ e. Updates e.1) (update_handlers fromisoformat)
  unfolding update_handlers
  update_handlers-All = (
    products_update-Updates,
    (
      barcodes_update-Updates,
      (customers_update-Updates, (sales_update-Updates, (shifts_update-Updates fromisoformat, tt))),
    ),
  )

  handler-insert :
      (table : String) (h : Handler) → handler fromisoformat table "insert" ≡ some h → Inserts h
  unfolding handler
  handler-insert table h e =
      lookup-all Inserts (insert_handlers fromisoformat) table h insert_handlers-All e

  handler-update :
      (table : String) (h : Handler) → handler fromisoformat table "update" ≡ some h → Updates h
  unfolding handler
  handler-update table h e =
      lookup-all Updates (update_handlers fromisoformat) table h update_handlers-All e

  -- A plan of `plan_op` is one that the handler made of the cleaned payload, dated, in a branch that
  -- is active.
  plan_op-made :
      (op : OpInput) (actor : User) (active_branch : Option String) (existing : Option RowSnapshot)
      (reader : SyncReader) (now : ℤ) (p : ApplyPlan)
      → plan_op fromisoformat op actor active_branch existing reader now ≡ ok p
      → (values : Fields) × (h : Handler) × (made : ApplyPlan) × (clean_fields op.table op.op
            op.fields
          ≡ ok values)
        × (handler fromisoformat op.table op.op ≡ some h)
        × (h (context fromisoformat op actor active_branch existing reader now) values ≡ ok made)
        × (reader.branch_active made.auth_branch_id ≡ true)
        × (p ≡ dated fromisoformat op now made)
  unfolding plan_op assert_branch_active
  plan_op-made op actor active_branch existing reader now p e =
      let (values, c, e) = >>=-eq-ok (clean_fields op.table op.op op.fields) _ e in
      let (h, f, e) = >>=-eq-ok (or_raise (handler fromisoformat op.table op.op) crash) _ e in
      let (made, m, e) =
        >>=-eq-ok (h (context fromisoformat op actor active_branch existing reader now) values) _
          e in
      let (live, e) =
        >>-eq-ok (assert_branch_active (reader.branch_active made.auth_branch_id)) _ e in
      (values, h, made, c, ground arith, m, ground arith, ground arith)

  dated-branch :
      (op : OpInput) (now : ℤ) (made : ApplyPlan)
      → ((dated fromisoformat op now made).auth_branch_id ≡ made.auth_branch_id)
        × ((dated fromisoformat op now made).noop ≡ made.noop)
        × ((dated fromisoformat op now made).compare_version ≡ made.compare_version)
  dated-branch op now made =
      elim (Bool-cases (str_eq op.op "insert" && str_mem op.table dated_tables)) [
        | inl dates ↦ rw dates (refl, refl, refl)
        | inr other ↦ rw other (refl, refl, refl)
      ]

  -- An insert that is planned is in a branch that is active, where the actor holds a permission, and
  -- of a row that the server does not have.
  pub plan_op-insert :
      (op : OpInput) (actor : User) (active_branch : Option String) (existing : Option RowSnapshot)
      (reader : SyncReader) (now : ℤ) (p : ApplyPlan)
      → op.op ≡ "insert"
      → plan_op fromisoformat op actor active_branch existing reader now ≡ ok p
      → (reader.branch_active p.auth_branch_id ≡ true)
        × Inserted (context fromisoformat op actor active_branch existing reader now) p
  plan_op-insert op actor active_branch existing reader now p insert e =
      let (values, h, made, _, f, m, live, same) =
        plan_op-made op actor active_branch existing reader now p e in
      let i =
        handler-insert op.table h (rw insert at f)
          (context fromisoformat op actor active_branch existing reader now) values made m in
      let here : p.auth_branch_id ≡ made.auth_branch_id = rw same (dated-branch op now made).0 in
      (rw here live, record { permission = i.permission; may = rw here i.may; fresh = i.fresh })

  -- An update that is planned is in a branch that is active, where the actor holds a permission. It
  -- writes nothing, or is one that needs no comparison of versions, or the server has the row, not
  -- deleted, at the version that the device saw.
  pub plan_op-update :
      (op : OpInput) (actor : User) (active_branch : Option String) (existing : Option RowSnapshot)
      (reader : SyncReader) (now : ℤ) (p : ApplyPlan)
      → op.op ≡ "update"
      → plan_op fromisoformat op actor active_branch existing reader now ≡ ok p
      → (reader.branch_active p.auth_branch_id ≡ true)
        × Updated (context fromisoformat op actor active_branch existing reader now) p
  plan_op-update op actor active_branch existing reader now p update e =
      let (values, h, made, _, f, m, live, same) =
        plan_op-made op actor active_branch existing reader now p e in
      let u =
        handler-update op.table h (rw update at f)
          (context fromisoformat op actor active_branch existing reader now) values made m in
      let (branch, noop, compare) = dated-branch op now made in
      let here : p.auth_branch_id ≡ made.auth_branch_id = rw same branch in
      let idle : p.noop ≡ made.noop = rw same noop in
      let unchecked : p.compare_version ≡ made.compare_version = rw same compare in
      (
        rw here live,
        record {
          permission = u.permission;
          may = rw here u.may;
          seen = rw (idle, unchecked) u.seen;
        },
      )

  -- An insert that is planned into a table that the device dates is written at a time in the window
  -- around the server's clock, whatever the payload says.
  pub plan_op-dated :
      (op : OpInput) (actor : User) (active_branch : Option String) (existing : Option RowSnapshot)
      (reader : SyncReader) (now : ℤ) (p : ApplyPlan)
      → op.op ≡ "insert"
      → str_mem op.table dated_tables ≡ true
      → plan_op fromisoformat op actor active_branch existing reader now ≡ ok p
      → (at : ℤ) × (lookup "occurred_at" p.values ≡ some (Value.time at)) × InWindow at now
  plan_op-dated op actor active_branch existing reader now p insert table e =
      let (_, _, made, _, _, _, _, same) =
        plan_op-made op actor active_branch existing reader now p e in
      let at = event_time fromisoformat op.created_at now in
      (
        at,
        rw (same, (eq_iff op.op "insert").1 insert, table)
            (lookup-insert_self "occurred_at" (Value.time at) made.values),
        (event_time-window fromisoformat op.created_at now).0,
      )
