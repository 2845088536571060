-- ===== src/Tests/Amounts.antt =====
-- Amounts: rounding, shares, totals, quantities as text, days and suggestions.
use dukan_pro.Prelude.{arith, true, ◌≡◌, refl}
use dukan_pro.Prelude.Int.{ℤ, pos, negsuc, ◌+ℤ◌, ◌*ℤ◌, abs, ◌≤ℤ◌, ◌<ℤ◌}
use dukan_pro.Domain.Sales.{scale, line_total_minor, line_total_fits}
use dukan_pro.Domain.Sales.Rounding.{IsRounded, line_total_minor-IsRounded}
use dukan_pro.Domain.Numbers.{value, parse_scaled, format_quantity}
use dukan_pro.Domain.Numbers.RoundTrip.{format_quantity-parse}
use dukan_pro.Domain.Branches.{day, business_day}
use dukan_pro.Domain.Branches.BusinessDay.{business_day-partition}

line_total_minor-IsRounded_example :
    let t = line_total_minor (pos 333) (pos 1500) 3 in
    IsRounded (abs t) (abs (pos 333 *ℤ pos 1500)) (scale 3)
    × (pos 0 ≤ℤ pos 333 *ℤ pos 1500 → pos 0 ≤ℤ t)
    × (pos 333 *ℤ pos 1500 ≤ℤ pos 0 → t ≤ℤ pos 0)
line_total_minor-IsRounded_example = line_total_minor-IsRounded (pos 333) (pos 1500) 3

fits : line_total_fits (pos 333) (pos 1500) 3 ≡ true
unfolding line_total_fits ◌*ℤ◌
fits = refl

format_quantity-parse_example :
    parse_scaled (format_quantity (negsuc 1504) 3) 3 ≡ value (negsuc 1504)
format_quantity-parse_example = format_quantity-parse (negsuc 1504) 3 (omega arith)

business_day-partition_example :
    let (start, end) = business_day "Asia/Kabul" (pos 1000000) in
    (start ≤ℤ (pos 1000000))
    × ((pos 1000000) <ℤ end)
    × (end ≡ start +ℤ pos day)
    × ((other : ℤ)
        → start ≤ℤ other
        → other <ℤ end
        → business_day "Asia/Kabul" other ≡ business_day "Asia/Kabul" (pos 1000000))
business_day-partition_example = business_day-partition "Asia/Kabul" (pos 1000000)
