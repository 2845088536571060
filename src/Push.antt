-- ===== src/Push.antt =====
-- server/dukan/infrastructure/sync_service.py: how a push groups its operations.
pub mod Transactions
pub mod Grouping
use dukan_pro.Prelude.{
  take, last, get_elem?, ℕ, zero, suc, String, Bool, true, false, ◌&&◌, Option, none, some, List,
  [], ◌∷◌, ◌++◌, is_some, if◌then◌else◌,
}
use dukan_pro.Prelude.Text.{opt_eq}
use dukan_pro.Sync.Types.{OpInput}

-- `ops[i].tx_id`
unfoldable pub tx_of : List OpInput → ℕ → Option String
tx_of ops i = elim (get_elem? ops i) [ none ↦ none | some op ↦ op.tx_id ]

-- `op.tx_id is not None and ops[i].tx_id == op.tx_id`
unfoldable pub continues : List OpInput → ℕ → Option String → Bool
unfolding tx_of
continues ops i tx = is_some tx && opt_eq (tx_of ops i) tx

-- `groups and op.tx_id is not None and ops[groups[-1][-1]].tx_id == op.tx_id`
unfoldable pub joins : List OpInput → List (List ℕ) → Option String → Bool
unfolding continues
joins ops groups tx = elim (last groups) [
  | none ↦ false
  | some group ↦ elim (last group) [ none ↦ false | some i ↦ continues ops i tx ]
]

-- `groups[-1].append(i)`
unfoldable pub append_to_last : List (List ℕ) → ℕ → List (List ℕ)
append_to_last [] i = []
append_to_last (g ∷ []) i = (g ++ (i ∷ [])) ∷ []
append_to_last (g ∷ h ∷ gs) i = g ∷ append_to_last (h ∷ gs) i

-- The body of the loop.
unfoldable pub place : List OpInput → List (List ℕ) → ℕ → Option String → List (List ℕ)
unfolding joins append_to_last
place ops groups i tx =
    if joins ops groups tx then append_to_last groups i else groups ++ ((i ∷ []) ∷ [])

-- The loop from position `i` on, over the operations left.
unfoldable pub group_from : List OpInput → List (List ℕ) → ℕ → List OpInput → List (List ℕ)
unfolding place
group_from ops groups i [] = groups
group_from ops groups i (op ∷ rest) = group_from ops (place ops groups i op.tx_id) (suc i) rest

unfoldable pub transactions : List OpInput → List (List ℕ)
unfolding group_from
transactions ops = group_from ops [] 0 ops
