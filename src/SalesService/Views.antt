-- ===== src/SalesService/Views.antt =====
-- `SqlSalesService.get_sale` and `_view`: a sale as the app sees it.
use dukan_pro.Prelude.{String, Bool, Option, List, [], ◌∷◌, map}
use dukan_pro.Prelude.Int.{ℤ}
use dukan_pro.Prelude.Text.{str_eq}
use dukan_pro.Errors.{Result, ok, ◌>>=◌, ◌>>◌, or_raise, not_found, Code}
use dukan_pro.Access.{require_any_permission}
use dukan_pro.Domain.Identity.{User, sale_create, report_view}
use dukan_pro.Store.{Store, Sale, LineRow}
use dukan_pro.Store.Queries.{select, first, sale_with}

pub record SaleLineView : Type 0 where
  pub product_id : String
  pub name : String
  pub qty_minor : ℤ
  pub unit_price_minor : ℤ
  pub line_total_minor : ℤ

pub record SaleView : Type 0 where
  pub id : String
  pub number : String
  pub branch_id : String
  pub status : String
  pub currency : String
  pub subtotal_minor : ℤ
  pub discount_minor : ℤ
  pub total_minor : ℤ
  pub paid_minor : ℤ
  pub change_minor : ℤ
  pub customer_id : Option String
  pub lines : List SaleLineView
  pub refund_of : Option String

abbrev pub line_view : LineRow → SaleLineView
line_view l = record {
  product_id = l.product_id;
  name = l.name;
  qty_minor = l.qty_minor;
  unit_price_minor = l.unit_price_minor;
  line_total_minor = l.line_total_minor;
}

abbrev pub in_sale : String → LineRow → Bool
in_sale sale_id l = str_eq l.sale_id sale_id

abbrev pub view : Store → Sale → SaleView
view s sale = record {
  id = sale.id;
  number = sale.number;
  branch_id = sale.branch_id;
  status = sale.status;
  currency = sale.currency;
  subtotal_minor = sale.subtotal_minor;
  discount_minor = sale.discount_minor;
  total_minor = sale.total_minor;
  paid_minor = sale.paid_minor;
  change_minor = sale.change_minor;
  customer_id = sale.customer_id;
  lines = map line_view (select (in_sale sale.id) s.lines);
  refund_of = sale.refund_of;
}

unfoldable pub get_sale : Store → User → String → Result SaleView
get_sale s actor sale_id = do
  sale ← or_raise (first (sale_with sale_id) s.sales) (not_found Code.sale_not_found)
  require_any_permission actor (sale_create ∷ report_view ∷ []) sale.branch_id
  ok (view s sale)
