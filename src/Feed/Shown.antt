-- ===== src/Feed/Shown.antt =====
-- What the loop of a pull shows, of several pages one after another.
use dukan_pro.Prelude.{◌≡◌, refl, ap, Option, none, some, List, [], ◌∷◌, ◌++◌}
use dukan_pro.Errors.{ok, ◌>>=◌}
use dukan_pro.Sync.Values.{Fields}
use dukan_pro.Sync.Pull.{PullScope}
use dukan_pro.Sync.Pull.View.{view-total}
use dukan_pro.Feed.{Change, ChangeItem, with_item, changes_of}

with_item-append :
    (r : Change) (o : Option Fields) (a b : List ChangeItem)
    → with_item r o (a ++ b) ≡ with_item r o a ++ b
with_item-append r none a b = refl
with_item-append r (some x) a b = refl

-- The loop answers for any rows, since a pull answers for every row.
pub changes_of-total :
    (scope : PullScope) (rows : List Change)
    → (items : List ChangeItem) × (changes_of scope rows ≡ ok items)
unfolding changes_of
changes_of-total scope [] = ([], refl)
changes_of-total scope (r ∷ rows) =
    let (o, e) = view-total scope r.table_name r.branch_id r.fields in
    let (items, i) = changes_of-total scope rows in (with_item r o items, rw (e, i) refl)

pub changes_of-append :
    (scope : PullScope) (rows more : List Change)
    → changes_of scope (rows ++ more)
      ≡ (changes_of scope rows >>= λ a. changes_of scope more >>= λ b. ok (a ++ b))
unfolding changes_of
changes_of-append scope [] more = let (b, g) = changes_of-total scope more in rw g refl
changes_of-append scope (r ∷ rows) more =
    let (o, e) = view-total scope r.table_name r.branch_id r.fields in
    let (items, i) = changes_of-total scope rows in
    let (b, g) = changes_of-total scope more in
    rw (e, changes_of-append scope rows more, i, g) (ap ok (with_item-append r o items b))
