-- ===== src/SyncService/Codes.antt =====
-- The texts of the codes of server/dukan/shared/errors.py, as the services record and answer them.
use dukan_pro.Prelude.{String, if◌then◌else◌}
use dukan_pro.Prelude.Text.{str_eq}
use dukan_pro.Errors.{Code}

-- `op.table.upper()` of a table of master rows or of sales, which alone are updated, with what
-- follows it.
abbrev upper_with :
    String → String → String → String → String → String → String → String → String → String
upper_with table products barcodes customers suppliers units categories shifts sales =
    if str_eq table "products"
    then products
    else if str_eq table "barcodes"
    then barcodes
    else if str_eq table "customers"
    then customers
    else if str_eq table "suppliers"
    then suppliers
    else if str_eq table "units"
    then units
    else if str_eq table "categories"
    then categories
    else if str_eq table "shifts"
    then shifts
    else sales

abbrev pub code_text : Code → String
code_text Code.access_denied = "ACCESS_DENIED"
code_text Code.assignment_not_found = "ASSIGNMENT_NOT_FOUND"
code_text Code.bootstrap_already_done = "BOOTSTRAP_ALREADY_DONE"
code_text Code.invalid_credentials = "INVALID_CREDENTIALS"
code_text Code.login_locked = "LOGIN_LOCKED"
code_text Code.refresh_invalid = "REFRESH_INVALID"
code_text Code.session_revoked = "SESSION_REVOKED"
code_text Code.setup_token_invalid = "SETUP_TOKEN_INVALID"
code_text Code.token_expired = "TOKEN_EXPIRED"
code_text Code.token_invalid = "TOKEN_INVALID"
code_text Code.user_disabled = "USER_DISABLED"
code_text Code.user_not_found = "USER_NOT_FOUND"
code_text Code.barcode_duplicate = "BARCODE_DUPLICATE"
code_text Code.barcode_not_found = "BARCODE_NOT_FOUND"
code_text Code.branch_currency_invalid = "BRANCH_CURRENCY_INVALID"
code_text Code.branch_inactive = "BRANCH_INACTIVE"
code_text Code.branch_last_active = "BRANCH_LAST_ACTIVE"
code_text Code.branch_not_found = "BRANCH_NOT_FOUND"
code_text Code.branch_required = "BRANCH_REQUIRED"
code_text Code.branch_timezone_invalid = "BRANCH_TIMEZONE_INVALID"
code_text Code.catalog_price_invalid = "CATALOG_PRICE_INVALID"
code_text Code.catalog_qty_invalid = "CATALOG_QTY_INVALID"
code_text Code.catalog_unit_precision = "CATALOG_UNIT_PRECISION"
code_text Code.customer_credit_limit_invalid = "CUSTOMER_CREDIT_LIMIT_INVALID"
code_text Code.customer_inactive = "CUSTOMER_INACTIVE"
code_text Code.customer_not_found = "CUSTOMER_NOT_FOUND"
code_text Code.debt_currency_mismatch = "DEBT_CURRENCY_MISMATCH"
code_text Code.debt_overpayment = "DEBT_OVERPAYMENT"
code_text Code.debt_payment_invalid = "DEBT_PAYMENT_INVALID"
code_text Code.debt_write_off_exceeds_balance = "DEBT_WRITE_OFF_EXCEEDS_BALANCE"
code_text Code.debt_write_off_invalid = "DEBT_WRITE_OFF_INVALID"
code_text Code.grn_line_invalid = "GRN_LINE_INVALID"
code_text Code.grn_total_too_large = "GRN_TOTAL_TOO_LARGE"
code_text Code.money_amount_invalid = "MONEY_AMOUNT_INVALID"
code_text Code.money_currency_invalid = "MONEY_CURRENCY_INVALID"
code_text Code.money_currency_mismatch = "MONEY_CURRENCY_MISMATCH"
code_text Code.price_currency_invalid = "PRICE_CURRENCY_INVALID"
code_text Code.product_duplicate_sku = "PRODUCT_DUPLICATE_SKU"
code_text Code.product_not_found = "PRODUCT_NOT_FOUND"
code_text Code.product_not_stock_tracked = "PRODUCT_NOT_STOCK_TRACKED"
code_text Code.purchase_currency_mismatch = "PURCHASE_CURRENCY_MISMATCH"
code_text Code.refund_empty = "REFUND_EMPTY"
code_text Code.refund_method_invalid = "REFUND_METHOD_INVALID"
code_text Code.refund_qty_invalid = "REFUND_QTY_INVALID"
code_text Code.refund_reason_required = "REFUND_REASON_REQUIRED"
code_text Code.role_builtin_immutable = "ROLE_BUILTIN_IMMUTABLE"
code_text Code.role_unknown = "ROLE_UNKNOWN"
code_text Code.row_invalid = "ROW_INVALID"
code_text Code.sale_currency_mismatch = "SALE_CURRENCY_MISMATCH"
code_text Code.sale_discount_invalid = "SALE_DISCOUNT_INVALID"
code_text Code.sale_empty = "SALE_EMPTY"
code_text Code.sale_line_invalid_price = "SALE_LINE_INVALID_PRICE"
code_text Code.sale_line_invalid_qty = "SALE_LINE_INVALID_QTY"
code_text Code.sale_lines_not_found = "SALE_LINES_NOT_FOUND"
code_text Code.sale_not_found = "SALE_NOT_FOUND"
code_text Code.sale_not_refundable = "SALE_NOT_REFUNDABLE"
code_text Code.sale_not_voidable = "SALE_NOT_VOIDABLE"
code_text Code.sale_over_credit_limit = "SALE_OVER_CREDIT_LIMIT"
code_text Code.sale_overpaid = "SALE_OVERPAID"
code_text Code.sale_payment_invalid = "SALE_PAYMENT_INVALID"
code_text Code.sale_shift_closed = "SALE_SHIFT_CLOSED"
code_text Code.sale_total_too_large = "SALE_TOTAL_TOO_LARGE"
code_text Code.sale_underpaid = "SALE_UNDERPAID"
code_text Code.sale_void_reason_required = "SALE_VOID_REASON_REQUIRED"
code_text Code.shift_already_closed = "SHIFT_ALREADY_CLOSED"
code_text Code.shift_already_open = "SHIFT_ALREADY_OPEN"
code_text Code.shift_cash_invalid = "SHIFT_CASH_INVALID"
code_text Code.shift_not_found = "SHIFT_NOT_FOUND"
code_text Code.shift_not_open = "SHIFT_NOT_OPEN"
code_text Code.stock_insufficient = "STOCK_INSUFFICIENT"
code_text Code.stock_invalid_qty = "STOCK_INVALID_QTY"
code_text Code.supplier_not_found = "SUPPLIER_NOT_FOUND"
code_text Code.supplier_overpayment = "SUPPLIER_OVERPAYMENT"
code_text Code.supplier_payment_invalid = "SUPPLIER_PAYMENT_INVALID"
code_text Code.sync_actor_mismatch = "SYNC_ACTOR_MISMATCH"
code_text Code.sync_base_version_required = "SYNC_BASE_VERSION_REQUIRED"
code_text Code.sync_field_invalid = "SYNC_FIELD_INVALID"
code_text Code.sync_field_not_allowed = "SYNC_FIELD_NOT_ALLOWED"
code_text Code.sync_field_required = "SYNC_FIELD_REQUIRED"
code_text Code.sync_op_id_taken = "SYNC_OP_ID_TAKEN"
code_text Code.sync_op_invalid = "SYNC_OP_INVALID"
code_text Code.sync_op_unsupported = "SYNC_OP_UNSUPPORTED"
code_text Code.sync_ref_mismatch = "SYNC_REF_MISMATCH"
code_text Code.sync_row_exists = "SYNC_ROW_EXISTS"
code_text Code.sync_tx_aborted = "SYNC_TX_ABORTED"
code_text Code.sync_unavailable = "SYNC_UNAVAILABLE"
code_text Code.unit_not_found = "UNIT_NOT_FOUND"
code_text Code.unknown_table = "UNKNOWN_TABLE"
code_text Code.user_duplicate_username = "USER_DUPLICATE_USERNAME"
code_text Code.user_last_assignment = "USER_LAST_ASSIGNMENT"
code_text Code.user_last_owner = "USER_LAST_OWNER"
code_text Code.weak_password = "WEAK_PASSWORD"
code_text (Code.already_exists table) =
    upper_with table "PRODUCTS_ALREADY_EXISTS" "BARCODES_ALREADY_EXISTS" "CUSTOMERS_ALREADY_EXISTS"
      "SUPPLIERS_ALREADY_EXISTS" "UNITS_ALREADY_EXISTS" "CATEGORIES_ALREADY_EXISTS"
      "SHIFTS_ALREADY_EXISTS" "SALES_ALREADY_EXISTS"
code_text (Code.version_conflict table) =
    upper_with table "PRODUCTS_VERSION_CONFLICT" "BARCODES_VERSION_CONFLICT"
      "CUSTOMERS_VERSION_CONFLICT" "SUPPLIERS_VERSION_CONFLICT" "UNITS_VERSION_CONFLICT"
      "CATEGORIES_VERSION_CONFLICT" "SHIFTS_VERSION_CONFLICT" "SALES_VERSION_CONFLICT"
