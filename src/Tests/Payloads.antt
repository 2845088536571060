-- ===== src/Tests/Payloads.antt =====
-- Payloads that come in and rows that go out.
use dukan_pro.Prelude.{String, true, ◌&&◌, none, some, [], ◌∷◌, ◌≡◌, ◌≢◌, refl, ◌↔◌}
use dukan_pro.Prelude.Int.{pos}
use dukan_pro.Prelude.Text.{str_eq, is_blank, is_space}
use dukan_pro.Prelude.Dict.{Dict, lookup}
use dukan_pro.Errors.{ok}
use dukan_pro.Domain.Identity.{
  is_active, permissions_for, granted, role_permissions, builtin_role_permissions, cashier,
}
use dukan_pro.Sync.Values.{Value, Fields}
use dukan_pro.Tests.World.{s1, b1, cashier_user}
use dukan_pro.Sync.Fields.{
  clean_fields, spec_of, known_keys, collect, collect_one, check, check_by, check_text, check_kind,
}
use dukan_pro.Sync.Fields.Specs.{Field, integer, insert_spec, update_spec}
use dukan_pro.Sync.Fields.Accepted.{Fits, check_iff}
use dukan_pro.Sync.Fields.Cleaned.{clean_fields-kept}
use dukan_pro.Sync.Pull.{
  view, for_actor, perms_for, shown, hidden_fields, meets, cost_readers, cost_fields,
  read_permissions, read_fields, visible, row_branch, branches_of, sale_readers,
}
use dukan_pro.Domain.Identity.{all_permissions}
use dukan_pro.Sync.Pull.Visible.{Shown}
use dukan_pro.Sync.Pull.View.{view-Shown}

abbrev unit_fields : Fields
unit_fields = ("name", Value.str "kg") ∷ ("decimal_places", Value.int (pos 3)) ∷ []

cleaned : clean_fields "units" "insert" unit_fields ≡ ok unit_fields
unfolding clean_fields spec_of known_keys collect collect_one check check_by check_text check_kind
    insert_spec update_spec is_blank is_space lookup
cleaned = refl

unreasoned :
    clean_fields "sales" "update" (("status", Value.str "voided") ∷ [])
    ≡ ok (("status", Value.str "voided") ∷ [])
unfolding clean_fields spec_of known_keys collect collect_one check check_by check_text check_kind
    insert_spec update_spec is_blank is_space lookup
unreasoned = refl

clean_fields-kept_example :
    (spec : Dict Field) × (spec_of "units" (str_eq "insert" "insert") ≡ some spec)
    × ((k : String) → lookup k unit_fields ≡ lookup k unit_fields)
    × ((k : String) (x : Value)
        → lookup k unit_fields ≡ some x
        → (f : Field) × (lookup k spec ≡ some f) × Fits f x)
    × ((k : String) (f : Field)
        → lookup k spec ≡ some f
        → (f.required && str_eq "insert" "insert") ≡ true
        → lookup k unit_fields ≢ none)
clean_fields-kept_example = clean_fields-kept "units" "insert" unit_fields unit_fields cleaned

check_iff_example :
    (check (integer (pos 0) (pos 6)) (Value.int (pos 3)) ≡ ok (Value.int (pos 3))) ↔ (
      ((Value.int (pos 3)) ≡ (Value.int (pos 3)))
      × Fits (integer (pos 0) (pos 6)) (Value.int (pos 3)))
check_iff_example = check_iff (integer (pos 0) (pos 6)) (Value.int (pos 3)) (Value.int (pos 3))

abbrev line_row : Fields
line_row =
    ("sale_id", Value.str s1)
    ∷ ("qty_minor", Value.int (pos 10))
    ∷ ("unit_cost_minor", Value.int (pos 60))
    ∷ []

abbrev line_shown : Fields
line_shown = ("sale_id", Value.str s1) ∷ ("qty_minor", Value.int (pos 10)) ∷ []

-- A cashier sees the line without its cost.
seen : view (for_actor cashier_user) "sale_lines" (some b1) line_row ≡ ok (some line_shown)
unfolding view for_actor perms_for shown hidden_fields meets cost_readers cost_fields
    read_permissions read_fields visible row_branch branches_of sale_readers all_permissions cashier
    lookup is_active permissions_for granted role_permissions builtin_role_permissions
seen = refl

view-Shown_example : Shown cashier_user "sale_lines" (some b1) line_row line_shown
view-Shown_example = view-Shown cashier_user "sale_lines" (some b1) line_row line_shown seen
