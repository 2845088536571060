-- ===== src/Tests/Transactions.antt =====
-- A push of four operations: two of one transaction, one of another, and one of none.
use dukan_pro.Prelude.{String, Option, none, some, List, [], ◌∷◌, ◌≡◌, refl}
use dukan_pro.Push.{tx_of, continues, joins, append_to_last, place, group_from, transactions}
use dukan_pro.Push.Grouping.{Grouped, transactions-Grouped}
use dukan_pro.Sync.Types.{OpInput}
use dukan_pro.Tests.World.{operation, row_id}

abbrev in_transaction : Option String → OpInput
in_transaction tx = record (operation "payments" "insert" row_id []) { tx_id = tx }

abbrev pushed : List OpInput
pushed =
    in_transaction (some "a")
    ∷ in_transaction (some "a")
    ∷ in_transaction (some "b")
    ∷ in_transaction none
    ∷ []

grouped : transactions pushed ≡ (0 ∷ 1 ∷ []) ∷ (2 ∷ []) ∷ (3 ∷ []) ∷ []
unfolding transactions group_from place append_to_last joins continues tx_of
grouped = refl

transactions-Grouped_example : Grouped pushed (transactions pushed)
transactions-Grouped_example = transactions-Grouped pushed
