-- ===== src/Errors.antt =====
-- server/dukan/shared/errors.py: an `AppError` is a class and a code. The context that it carries
-- for messages decides nothing and is left out.
use dukan_pro.Prelude.{Option, none, some, String, Bool, ◌≡◌, refl, ◌⊎◌, inl, inr}

-- The codes, by name. `already_exists` and `version_conflict` take the table that the code names
-- in capitals (`PRODUCTS_ALREADY_EXISTS`).
pub data Code : Type 0 where
  access_denied assignment_not_found : Code
  bootstrap_already_done invalid_credentials login_locked refresh_invalid session_revoked : Code
  setup_token_invalid token_expired token_invalid user_disabled user_not_found : Code
  barcode_duplicate barcode_not_found : Code
  branch_currency_invalid branch_inactive branch_last_active branch_not_found : Code
  branch_required branch_timezone_invalid : Code
  catalog_price_invalid catalog_qty_invalid catalog_unit_precision : Code
  customer_credit_limit_invalid customer_inactive customer_not_found : Code
  debt_currency_mismatch debt_overpayment debt_payment_invalid : Code
  debt_write_off_exceeds_balance debt_write_off_invalid : Code
  grn_line_invalid grn_total_too_large : Code
  money_amount_invalid money_currency_invalid money_currency_mismatch : Code
  price_currency_invalid product_duplicate_sku product_not_found product_not_stock_tracked : Code
  purchase_currency_mismatch : Code
  refund_empty refund_method_invalid refund_qty_invalid refund_reason_required : Code
  role_builtin_immutable role_unknown row_invalid : Code
  sale_currency_mismatch sale_discount_invalid sale_empty sale_line_invalid_price : Code
  sale_line_invalid_qty sale_lines_not_found sale_not_found sale_not_refundable : Code
  sale_not_voidable sale_over_credit_limit sale_overpaid sale_payment_invalid : Code
  sale_shift_closed sale_total_too_large sale_underpaid sale_void_reason_required : Code
  shift_already_closed shift_already_open shift_cash_invalid shift_not_found shift_not_open : Code
  stock_insufficient stock_invalid_qty : Code
  supplier_not_found supplier_overpayment supplier_payment_invalid : Code
  sync_actor_mismatch sync_base_version_required sync_field_invalid : Code
  sync_field_not_allowed sync_field_required sync_op_id_taken sync_op_invalid : Code
  sync_op_unsupported sync_ref_mismatch sync_row_exists sync_tx_aborted sync_unavailable : Code
  unit_not_found unknown_table : Code
  user_duplicate_username user_last_assignment user_last_owner weak_password : Code
  already_exists version_conflict : String → Code

-- The subclasses of `AppError` that the modelled code raises. `sync_conflict` is the policy's
-- `SyncConflict`, a `ConflictError`. `crash` is a Python exception that is no `AppError`, such as
-- the `KeyError` of a missing key.
pub data AppError : Type 0 where
  validation not_found conflict permission_denied sync_conflict infrastructure : Code → AppError
  auth rate_limited : Code → AppError
  crash : AppError

-- What a call gives back: its value, or the error that it raised.
pub data Result {ℓ} (V : Type ℓ) : Type ℓ where
  err : AppError → Result V
  ok : V → Result V

abbrev pub Checked : Type 0
Checked = Result (Unit {0})

-- `if b: raise e`
abbrev pub raise_if : Bool → AppError → Checked
raise_if Bool.true e = err e
raise_if Bool.false e = ok tt

-- `value or raise`
abbrev pub or_raise {ℓ} : {A : Type ℓ} → Option A → AppError → Result A
or_raise none e = err e
or_raise (some a) e = ok a

infixl 5 ◌>>=◌
abbrev pub ◌>>=◌ {ℓ κ} : {V : Type ℓ} {W : Type κ} → Result V → (V → Result W) → Result W
err raised >>= rest = err raised
ok v >>= rest = rest v

-- A check, and what follows it.
infixl 5 ◌>>◌
abbrev pub ◌>>◌ {κ} : {W : Type κ} → Checked → Result W → Result W
check >> rest = check >>= λ _. rest

-- The first statement of a successful block succeeded, and the rest did from its result.
pub >>=-eq-ok {ℓ κ} :
    {V : Type ℓ} {B : Type κ} (first : Result V) (rest : V → Result B) {b : B}
    → (first >>= rest) ≡ ok b
    → (v : V) × (first ≡ ok v) × (rest v ≡ ok b)
>>=-eq-ok (err raised) rest h = cc
>>=-eq-ok (ok v) rest h = (v, refl, h)

pub ok_inj {ℓ} : {A : Type ℓ} {a b : A} → ok a ≡ ok b → a ≡ b
ok_inj h = cc

pub or_raise-eq-ok {ℓ} :
    {A : Type ℓ} (o : Option A) (e : AppError) {a : A} → or_raise o e ≡ ok a → o ≡ some a
or_raise-eq-ok none e h = cc
or_raise-eq-ok (some a) e h = cc

pub Result-cases {ℓ} :
    {A : Type ℓ} (r : Result A) → ((a : A) × (r ≡ ok a)) ⊎ ((e : AppError) × (r ≡ err e))
Result-cases (ok a) = inl (a, refl)
Result-cases (err e) = inr (e, refl)

-- Both statements of a successful pair of checks succeeded.
pub >>-eq-ok {ℓ} :
    {B : Type ℓ} (m : Checked) (k : Result B) {b : B} → (m >> k) ≡ ok b → (m ≡ ok tt) × (k ≡ ok b)
>>-eq-ok (ok _) k h = (refl, h)
>>-eq-ok (err e) k h = cc

-- A check that passed raised nothing.
pub raise_if-eq-ok : (b : Bool) (e : AppError) {u : Unit {0}} → raise_if b e ≡ ok u → b ≡ Bool.false
raise_if-eq-ok Bool.true e h = cc
raise_if-eq-ok Bool.false e h = refl

-- A guard at the head of a successful block raised nothing, and the rest succeeded.
pub passed {ℓ} :
    {B : Type ℓ} (b : Bool) (e : AppError) (k : Result B) {x : B}
    → (raise_if b e >> k) ≡ ok x
    → (b ≡ Bool.false) × (k ≡ ok x)
passed Bool.true e k h = cc
passed Bool.false e k h = (refl, h)
