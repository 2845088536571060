-- ===== src/Domain/Insights.antt =====
-- server/dukan/domain/insights.py: reorder suggestions, dead stock and the urgency of a debt.
pub mod Reorder
use dukan_pro.Prelude.{Bool, ◌&&◌, ◌||◌, if◌then◌else◌}
use dukan_pro.Prelude.Int.{ℤ, pos, ◌+ℤ◌, ◌-ℤ◌, ◌*ℤ◌, ltb_ℤ, leb_ℤ}

pub data InsightSeverity : Type 0 where
  info warning critical : InsightSeverity

unfoldable pub reorder_suggestion : ℤ → ℤ → ℤ → ℤ → ℤ
reorder_suggestion on_hand_minor avg_daily_sales_minor lead_time_days safety_days =
    let reorder_point = avg_daily_sales_minor *ℤ (lead_time_days +ℤ safety_days) in
    let qty = reorder_point *ℤ pos 2 -ℤ on_hand_minor in
    if leb_ℤ avg_daily_sales_minor (pos 0)
    then pos 0
    else if ltb_ℤ reorder_point on_hand_minor
    then pos 0
    else if ltb_ℤ (pos 0) qty
    then qty
    else pos 0

unfoldable pub is_dead_stock : ℤ → ℤ → ℤ → Bool
is_dead_stock on_hand_minor days_since_last_sale dead_after_days =
    ltb_ℤ (pos 0) on_hand_minor && leb_ℤ dead_after_days days_since_last_sale

unfoldable pub debt_severity : ℤ → ℤ → InsightSeverity
debt_severity balance_minor credit_limit_minor =
    if leb_ℤ balance_minor (pos 0) || leb_ℤ credit_limit_minor (pos 0)
    then info
    else if leb_ℤ credit_limit_minor balance_minor
    then critical
    else if leb_ℤ (credit_limit_minor *ℤ pos 8) (balance_minor *ℤ pos 10)
    then warning
    else info
