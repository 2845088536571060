-- ===== src/Sync/Changes.antt =====
-- What an update of server/dukan/application/sync_policy.py changes of the stored row.
use dukan_pro.Prelude.{Bool, true, false, [], ◌∷◌, if◌then◌else◌}
use dukan_pro.Sync.Values.{Fields, value_eq, value_get}

-- `{k: val for k, val in v.items() if current.values.get(k) != val}`
unfoldable pub changed_of : Fields → Fields → Fields
changed_of [] stored = []
changed_of ((k, x) ∷ v) stored =
    let rest = changed_of v stored in
    if value_eq (value_get k stored) x then rest else (k, x) ∷ rest

-- `{k: current.values.get(k) for k in changed}`
unfoldable pub before_of : Fields → Fields → Fields
before_of [] stored = []
before_of ((k, x) ∷ v) stored = (k, value_get k stored) ∷ before_of v stored

-- `not v`
abbrev pub is_empty : Fields → Bool
is_empty [] = true
is_empty (_ ∷ _) = false
