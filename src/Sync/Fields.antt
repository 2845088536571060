-- ===== src/Sync/Fields.antt =====
-- `clean_fields` and `_check` of server/dukan/application/sync_policy.py: a payload against the
-- allow-list of its table and operation.
pub mod Specs
pub mod Accepted
pub mod Cleaned
use dukan_pro.Prelude.{
  ℕ, zero, suc, ◌+◌, String, Bool, true, false, not, ◌&&◌, ◌||◌, Option, none, some, List, [], ◌∷◌,
  ltb, leb, ◌==◌, length, any, if◌then◌else◌, is_some,
}
use dukan_pro.Prelude.Int.{ℤ, leb_ℤ}
use dukan_pro.Prelude.Text.{str_eq, str_mem, codes, is_blank}
use dukan_pro.Prelude.Dict.{Dict, lookup}
use dukan_pro.Errors.{
  or_raise, Result, Checked, ok, err, crash, ◌>>=◌, ◌>>◌, raise_if, validation, Code,
}
use dukan_pro.Sync.Values.{Value, Fields}
use Specs.{Kind, Field, insert_spec, update_spec}

unfoldable pub is_hex : ℕ → Bool
is_hex c = (leb b'0' c && leb c b'9') || (leb b'a' c && leb c b'f')

abbrev at_dash : ℕ → Bool
at_dash i = (i == 8) || (i == 13) || (i == 18) || (i == 23)

-- `_UUID.fullmatch`, from position `i` of the text.
unfoldable pub uuid_from : ℕ → List ℕ → Bool
uuid_from i [] = i == 36
uuid_from i (c ∷ s) = (if at_dash i then c == b'-' else is_hex c) && uuid_from (suc i) s

unfoldable pub is_uuid : String → Bool
unfolding uuid_from is_hex
is_uuid s = uuid_from 0 (codes s)

abbrev is_upper : ℕ → Bool
is_upper c = leb b'A' c && leb c b'Z'

-- `_CURRENCY.fullmatch`
unfoldable pub is_currency_codes : List ℕ → Bool
is_currency_codes (a ∷ b ∷ c ∷ []) = is_upper a && is_upper b && is_upper c
is_currency_codes _ = false

unfoldable pub is_currency : String → Bool
unfolding is_currency_codes
is_currency s = is_currency_codes (codes s)

-- A text against its field: the tests behind the NUL test.
unfoldable pub check_kind : Field → Kind → String → Checked
check_kind f Kind.uuid s = raise_if (not (is_uuid s)) (validation Code.sync_field_invalid)
check_kind f Kind.currency s =
    raise_if (not (is_currency s)) (validation Code.money_currency_invalid)
check_kind f Kind.enum s = raise_if (not (str_mem s f.choices)) (validation Code.sync_field_invalid)
check_kind f _ s = do
  raise_if (ltb f.max_len (length (codes s))) (validation Code.sync_field_invalid)
  raise_if (f.required && is_blank s) (validation Code.sync_field_invalid)

unfoldable pub check_text : Field → Kind → String → Result Value
check_text f k s = do
  raise_if (any (λ c. c == 0) (codes s)) (validation Code.sync_field_invalid)
  check_kind f k s
  ok (Value.str s)

-- A value that is not null, by the field's kind.
unfoldable pub check_by : Field → Kind → Value → Result Value
check_by f Kind.null x = err (validation Code.sync_field_not_allowed)
check_by f Kind.int (Value.int n) =
    if leb_ℤ f.lo n && leb_ℤ n f.hi
    then ok (Value.int n)
    else err (validation Code.sync_field_invalid)
check_by f Kind.int _ = err (validation Code.sync_field_invalid)
check_by f Kind.bool (Value.bool b) = ok (Value.bool b)
check_by f Kind.bool _ = err (validation Code.sync_field_invalid)
check_by f k (Value.str s) = check_text f k s
check_by f _ _ = err (validation Code.sync_field_invalid)

abbrev is_null_kind : Kind → Bool
is_null_kind Kind.null = true
is_null_kind _ = false

-- `_check`
unfoldable pub check : Field → Value → Result Value
check f Value.null =
    if f.nullable || is_null_kind f.kind
    then ok Value.null
    else err (validation Code.sync_field_invalid)
check f (Value.bool b) = check_by f f.kind (Value.bool b)
check f (Value.int n) = check_by f f.kind (Value.int n)
check f (Value.str s) = check_by f f.kind (Value.str s)
check f (Value.time t) = check_by f f.kind (Value.time t)
check f Value.other = check_by f f.kind Value.other

-- The first loop: no key that the table does not know.
unfoldable pub known_keys : Dict Field → Fields → Checked
known_keys spec [] = ok tt
known_keys spec ((key, x) ∷ rest) =
    raise_if (not (is_some (lookup key spec))) (validation Code.sync_field_not_allowed)
    >> known_keys spec rest

-- The second loop, over the fields of the table, in their order. `inserting` is `op == "insert"`.
unfoldable pub collect_one : Bool → String → Field → Option Value → Result Fields → Result Fields
collect_one inserting name f none rest =
    raise_if (f.required && inserting) (validation Code.sync_field_required) >> rest
collect_one inserting name f (some x) rest = do y ← check f x; out ← rest; ok ((name, y) ∷ out)

unfoldable pub collect : Bool → Dict Field → Fields → Result Fields
unfolding collect_one
collect inserting [] given = ok []
collect inserting ((name, f) ∷ spec) given =
    collect_one inserting name f (lookup name given) (collect inserting spec given)

unfoldable pub spec_of : String → Bool → Option (Dict Field)
spec_of table inserting = if inserting then insert_spec table else update_spec table

unfoldable pub clean_fields : String → String → Fields → Result Fields
unfolding spec_of
clean_fields table op given = do
  spec ← or_raise (spec_of table (str_eq op "insert")) crash
  known_keys spec given
  collect (str_eq op "insert") spec given
