-- ===== src/Domain/Insights/Reorder.antt =====
-- The reorder suggestion reaches twice the reorder point.
use dukan_pro.Prelude.{◌≡◌, arith}
use dukan_pro.Prelude.Int.{ℤ, pos, ◌+ℤ◌, ◌*ℤ◌, ◌≤ℤ◌, ◌<ℤ◌, -ℤ_parts, +ℤ-sub}
use dukan_pro.Domain.Insights.{reorder_suggestion}

-- What is suggested is never negative. Where something is suggested, the product sells, no more
-- than the reorder point is on hand, and stock and suggestion together make twice the point; and
-- something is suggested for every product that sells, with no more than the point and less than
-- twice the point on hand.
pub reorder_suggestion-reaches :
    (on_hand avg lead safety : ℤ)
    → let point = avg *ℤ (lead +ℤ safety) in
      let qty = reorder_suggestion on_hand avg lead safety in
      (pos 0 ≤ℤ qty)
      × (pos 0 <ℤ qty → (on_hand +ℤ qty ≡ point *ℤ pos 2) × (on_hand ≤ℤ point) × (pos 0 <ℤ avg))
      × (pos 0 <ℤ avg → on_hand ≤ℤ point → on_hand <ℤ point *ℤ pos 2 → pos 0 <ℤ qty)
unfolding reorder_suggestion
reorder_suggestion-reaches on_hand avg lead safety =
    let point = avg *ℤ (lead +ℤ safety) in
    ground (arith, -ℤ_parts (point *ℤ pos 2) on_hand, +ℤ-sub on_hand (point *ℤ pos 2))
