-- ===== src/Tests/Paging.antt =====
-- A feed of three changes, pulled one at a time by the owner.
use dukan_pro.Prelude.{String, none, false, length, arith, ◌≤◌, List, [], ◌∷◌, ◌≡◌, refl}
use dukan_pro.Prelude.Int.{ℤ, pos}
use dukan_pro.Domain.Identity.{
  User, all_permissions, is_active, permissions_for, granted, role_permissions,
  builtin_role_permissions,
}
use dukan_pro.Sync.Values.{Value}
use dukan_pro.Sync.Pull.{for_actor, is_empty, union_of, branches_of}
use dukan_pro.Feed.{Change, changes_of, after, is_gone, pulls}
use dukan_pro.Feed.Order.{Ascending}
use dukan_pro.Feed.Paging.{from, pulls_complete}
use dukan_pro.Tests.World.{owner, row_id}

abbrev unit_change : ℤ → String → Change
unit_change seq name = record {
  seq = seq;
  table_name = "units";
  row_id = row_id;
  op = "insert";
  fields = ("name", Value.str name) ∷ [];
  branch_id = none;
  occurred_at = seq;
}

abbrev feed : List Change
feed = unit_change (pos 1) "kg" ∷ unit_change (pos 2) "m" ∷ unit_change (pos 5) "pcs" ∷ []

abbrev token : Change → String
token r = "token"

abbrev fingerprint : User → String
fingerprint user = "scope"

feed-Ascending : Ascending feed
feed-Ascending = (
  omega arith,
  (omega arith, (omega arith, tt)),
  (omega arith, (omega arith, tt), (omega arith, tt, tt)),
)

owner_reads : is_empty (for_actor owner) ≡ false
unfolding is_empty for_actor union_of all_permissions is_active permissions_for granted
    role_permissions builtin_role_permissions branches_of
owner_reads = refl

at_start : is_gone token fingerprint feed (pos 0) none ≡ false
unfolding is_gone
at_start = refl

three : length (from feed (pos 0)) ≤ 3
unfolding after
three = omega arith

pulls_complete_example :
    pulls token fingerprint 3 feed owner (pos 0) (pos 1) none
    ≡ changes_of (for_actor owner) (from feed (pos 0))
pulls_complete_example =
    pulls_complete token fingerprint 3 feed owner (pos 0) (pos 1) none feed-Ascending owner_reads
      at_start three
