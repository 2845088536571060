-- ===== src/Sync/Accepted/Goods.antt =====
-- The plans for stock movements.
use dukan_pro.Prelude.{sym, ◌∙◌, ◌≡◌, arith, String, not}
use dukan_pro.Prelude.Int.{pos, leb_ℤ}
use dukan_pro.Prelude.Text.{str_eq}
use dukan_pro.Errors.{or_raise, crash}
use dukan_pro.Domain.Identity.{sale_create, stock_adjust, sale_void}
use dukan_pro.Sync.Values.{str_at, int_at}
use dukan_pro.Sync.Guards.{need, guard_insert, sale}
use dukan_pro.Errors.{>>=-eq-ok, >>-eq-ok, passed}
use dukan_pro.Prelude.Text.{eq_iff}
use dukan_pro.Sync.Plans.{Inserts}
use dukan_pro.Sync.Plans.Made.{inserted}
use dukan_pro.Domain.Inventory.{
  StockReason, purchase, adjustment, transfer_in, transfer_out, count, returned, stock_reason,
}
use dukan_pro.Sync.Handlers.Stock.{
  stock_insert, stock_by_reason, stock_sold, stock_moved, stock_returned, return_ref,
}

stock_returned-Inserts : Inserts stock_returned
unfolding stock_returned
stock_returned-Inserts ctx v p h =
    let ((ref_type, ref_id), r, h) = >>=-eq-ok (return_ref v) _ h in
    let (qty, q, h) = >>=-eq-ok (int_at "qty_delta" v) _ h in
    let (_, h) = passed (leb_ℤ qty (pos 0)) _ _ h in
    let (s, o, h) = >>=-eq-ok (sale ctx ref_id) _ h in
    let (may, h) = >>-eq-ok (need ctx sale_void s.branch_id) _ h in
    let (fresh, h) = >>-eq-ok (guard_insert ctx) _ h in
    let (branch, b, h) = >>=-eq-ok (str_at "branch_id" v) _ h in
    let (same, h) = passed (not (str_eq branch s.branch_id)) _ _ h in
    let here : branch ≡ s.branch_id = ground (arith, eq_iff branch s.branch_id) in
    let planned : branch ≡ p.auth_branch_id = ground arith in
    inserted ctx p sale_void s.branch_id may fresh (sym here ∙ planned)

stock_sold-Inserts : Inserts stock_sold
unfolding stock_sold
stock_sold-Inserts ctx v p h =
    let (branch, b, h) = >>=-eq-ok (str_at "branch_id" v) _ h in
    let (may, h) = >>-eq-ok (need ctx sale_create branch) _ h in
    let (fresh, h) = >>-eq-ok (guard_insert ctx) _ h in
    inserted ctx p sale_create branch may fresh (ground arith)

stock_moved-Inserts :
    (reason : StockReason) (action : String) → Inserts (λ ctx v. stock_moved ctx v reason action)
unfolding stock_moved
stock_moved-Inserts reason action ctx v p h =
    let (branch, b, h) = >>=-eq-ok (str_at "branch_id" v) _ h in
    let (may, h) = >>-eq-ok (need ctx stock_adjust branch) _ h in
    let (fresh, h) = >>-eq-ok (guard_insert ctx) _ h in
    inserted ctx p stock_adjust branch may fresh (ground arith)

by_reason-Inserts : (reason : StockReason) → Inserts (λ ctx v. stock_by_reason ctx v reason)
unfolding stock_by_reason
by_reason-Inserts StockReason.sale ctx v p h = stock_sold-Inserts ctx v p h
by_reason-Inserts purchase ctx v p h = stock_moved-Inserts purchase "stock.received" ctx v p h
by_reason-Inserts adjustment ctx v p h = stock_moved-Inserts adjustment "stock.adjusted" ctx v p h
by_reason-Inserts transfer_in ctx v p h = cc
by_reason-Inserts transfer_out ctx v p h = cc
by_reason-Inserts count ctx v p h = cc
by_reason-Inserts returned ctx v p h = stock_returned-Inserts ctx v p h

pub stock_insert-Inserts : Inserts stock_insert
unfolding stock_insert
stock_insert-Inserts ctx v p h =
    let (text, t, h) = >>=-eq-ok (str_at "reason" v) _ h in
    let (reason, r, h) = >>=-eq-ok (or_raise (stock_reason text) crash) _ h in
    by_reason-Inserts reason ctx v p h
