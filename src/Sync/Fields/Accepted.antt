-- ===== src/Sync/Fields/Accepted.antt =====
-- The values that `_check` accepts for a field.
use dukan_pro.Prelude.{◌≤◌, String, ◌≡◌, ◌↔◌, ◌⊎◌, true, false, ◌&&◌, arith, any, ◌==◌, length}
use dukan_pro.Prelude.Int.{◌≤ℤ◌}
use dukan_pro.Prelude.Text.{str_mem, codes, is_blank}
use dukan_pro.Errors.{ok}
use dukan_pro.Sync.Values.{Value}
use dukan_pro.Sync.Fields.{is_uuid, is_currency, check_kind, check_text, check_by, check}
use dukan_pro.Sync.Fields.Specs.{Kind, Field}

-- A text that a field of the kind holds.
abbrev pub FitsKind : Kind → Field → String → Type 0
FitsKind Kind.uuid f s = is_uuid s ≡ true
FitsKind Kind.currency f s = is_currency s ≡ true
FitsKind Kind.enum f s = str_mem s f.choices ≡ true
FitsKind Kind.str f s = (length (codes s) ≤ f.max_len) × ((f.required && is_blank s) ≡ false)
FitsKind _ f s = ⊥

-- A value that a field of the kind holds: a number in its range, a truth value, or a text of its
-- kind with no NUL in it, and none of any other sort.
abbrev pub FitsBy : Kind → Field → Value → Type 0
FitsBy k f (Value.int n) = (k ≡ Kind.int) × (f.lo ≤ℤ n) × (n ≤ℤ f.hi)
FitsBy k f (Value.bool b) = k ≡ Kind.bool
FitsBy k f (Value.str s) = (any (λ c. c == 0) (codes s) ≡ false) × FitsKind k f s
FitsBy k f _ = ⊥

-- What a field holds: null where it may be, or a value of its kind.
abbrev pub Fits : Field → Value → Type 0
Fits f Value.null = (f.nullable ≡ true) ⊎ (f.kind ≡ Kind.null)
Fits f (Value.int n) = FitsBy f.kind f (Value.int n)
Fits f (Value.bool b) = FitsBy f.kind f (Value.bool b)
Fits f (Value.str s) = FitsBy f.kind f (Value.str s)
Fits f _ = ⊥

check_by_iff :
    (f : Field) (k : Kind) (x y : Value) → (check_by f k x ≡ ok y) ↔ ((y ≡ x) × FitsBy k f x)
unfolding check_by check_text check_kind
check_by_iff f Kind.null (Value.int n) y = ((λ h. ground arith), λ h. ground arith)
check_by_iff f Kind.uuid (Value.str s) y = ((λ h. ground arith), λ h. ground arith)
check_by_iff f Kind.currency (Value.str s) y = ((λ h. ground arith), λ h. ground arith)
check_by_iff f Kind.enum (Value.str s) y = ((λ h. ground arith), λ h. ground arith)
check_by_iff f Kind.str (Value.str s) y = ((λ h. ground arith), λ h. ground arith)
check_by_iff f Kind.int (Value.int n) y = ((λ h. ground arith), λ h. ground arith)
check_by_iff f k x y = ((λ h. ground arith), λ h. ground arith)

-- `_check` accepts exactly the values that the field holds, and gives them back unchanged.
pub check_iff : (f : Field) (x y : Value) → (check f x ≡ ok y) ↔ ((y ≡ x) × Fits f x)
unfolding check
check_iff f Value.null y = ((λ h. ground arith), λ h. ground arith)
check_iff f (Value.int n) y = check_by_iff f f.kind (Value.int n) y
check_iff f (Value.bool b) y = check_by_iff f f.kind (Value.bool b) y
check_iff f (Value.str s) y = check_by_iff f f.kind (Value.str s) y
check_iff f (Value.time t) y = check_by_iff f f.kind (Value.time t) y
check_iff f Value.other y = check_by_iff f f.kind Value.other y
