-- ===== src/Sync/Values.antt =====
-- The values of a pushed payload, of a stored row and of an audit entry, and how the handlers read
-- them out of a dictionary.
use dukan_pro.Prelude.{String, Bool, true, false, Option, none, some, List, [], ◌∷◌}
use dukan_pro.Prelude.Int.{ℤ, pos, eqb_ℤ}
use dukan_pro.Prelude.Text.{str_eq}
use dukan_pro.Prelude.Dict.{Dict, lookup}
use dukan_pro.Errors.{Result, ok, err, crash}

-- `time` is a datetime, in microseconds of UTC; `other` is any further JSON value (a float, a list
-- or an object), which no field accepts.
pub data Value : Type 0 where
  null : Value
  bool : Bool → Value
  int : ℤ → Value
  str : String → Value
  time : ℤ → Value
  other : Value

abbrev as_int : Bool → ℤ
as_int true = pos 1
as_int false = pos 0

abbrev pub bool_eq : Bool → Bool → Bool
bool_eq true b = b
bool_eq false true = false
bool_eq false false = true

-- Python's `a == b`: True equals 1. Two values of the kind `other` count as different.
unfoldable pub value_eq : Value → Value → Bool
value_eq null null = true
value_eq (bool a) (bool b) = bool_eq a b
value_eq (bool a) (int n) = eqb_ℤ (as_int a) n
value_eq (int n) (bool b) = eqb_ℤ n (as_int b)
value_eq (int n) (int m) = eqb_ℤ n m
value_eq (str s) (str t) = str_eq s t
value_eq (time s) (time t) = eqb_ℤ s t
value_eq _ _ = false

abbrev pub Fields : Type 0
Fields = Dict Value

abbrev pub as_str : Value → Result String
as_str (str s) = ok s
as_str _ = err crash

abbrev pub as_number : Value → Result ℤ
as_number (int n) = ok n
as_number _ = err crash

-- `v[k]`, used as a text or as a number. A missing key is a KeyError, and a value of another kind
-- is the TypeError of its use.
unfoldable pub str_at : String → Fields → Result String
str_at k v = elim (lookup k v) [ none ↦ err crash | some x ↦ as_str x ]

unfoldable pub int_at : String → Fields → Result ℤ
int_at k v = elim (lookup k v) [ none ↦ err crash | some x ↦ as_number x ]

-- `v.get(k, d)`
unfoldable pub str_or : String → Fields → String → Result String
str_or k v d = elim (lookup k v) [ none ↦ ok d | some x ↦ as_str x ]

unfoldable pub int_or : String → Fields → ℤ → Result ℤ
int_or k v d = elim (lookup k v) [ none ↦ ok d | some x ↦ as_number x ]

abbrev pub as_opt_str : Value → Result (Option String)
as_opt_str null = ok none
as_opt_str (str s) = ok (some s)
as_opt_str _ = err crash

abbrev pub as_opt_int : Value → Result (Option ℤ)
as_opt_int null = ok none
as_opt_int (int n) = ok (some n)
as_opt_int _ = err crash

-- `v.get(k)`, None where the key is missing or its value is null.
unfoldable pub str_get : String → Fields → Result (Option String)
str_get k v = elim (lookup k v) [ none ↦ ok none | some x ↦ as_opt_str x ]

unfoldable pub int_get : String → Fields → Result (Option ℤ)
int_get k v = elim (lookup k v) [ none ↦ ok none | some x ↦ as_opt_int x ]

-- `v.get(k) is True`, `is False`
unfoldable pub is_bool : String → Fields → Bool → Bool
is_bool k v b = elim (lookup k v) [
  | none ↦ false
  | some x ↦ (elim x [ bool c ↦ bool_eq b c | _ ↦ false ])
]

-- `_pick`
unfoldable pub pick : Fields → List String → Fields
pick v [] = []
pick v (k ∷ ks) = let rest = pick v ks in elim (lookup k v) [ none ↦ rest | some x ↦ (k, x) ∷ rest ]

-- `values.get(k)` as a value, null where it is missing.
unfoldable pub value_get : String → Fields → Value
value_get k v = elim (lookup k v) [ none ↦ null | some x ↦ x ]

abbrev pub opt_str : Option String → Value
opt_str none = null
opt_str (some s) = str s

abbrev pub opt_int : Option ℤ → Value
opt_int none = null
opt_int (some n) = int n
