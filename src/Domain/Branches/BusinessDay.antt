-- ===== src/Domain/Branches/BusinessDay.antt =====
-- The business day: the days of a branch split time without gaps or overlaps.
use dukan_pro.Prelude.{String, ◌≡◌, refl, ap}
use dukan_pro.Prelude.Int.{ℤ, pos, negsuc, ◌+ℤ◌, ◌-ℤ◌, ◌≤ℤ◌, ◌<ℤ◌, int_laws}
use dukan_pro.Domain.Branches.{day, offset, midnight, business_day}

midnight-bounds : (x : ℤ) → (midnight x ≤ℤ x) × (x <ℤ midnight x +ℤ pos day)
unfolding midnight
midnight-bounds (pos n) = omega int_laws
midnight-bounds (negsuc n) = omega int_laws

midnight_unique : (x y : ℤ) → midnight x ≤ℤ y → y <ℤ midnight x +ℤ pos day → midnight y ≡ midnight x
unfolding midnight
midnight_unique (pos n) (pos m) h k = omega int_laws
midnight_unique (pos n) (negsuc m) h k = omega int_laws
midnight_unique (negsuc n) (pos m) h k = omega int_laws
midnight_unique (negsuc n) (negsuc m) h k = omega int_laws

-- The business day of an instant holds it, is 24 hours long, and is the business day of every
-- instant that it holds.
pub business_day-partition :
    (zone : String) (instant : ℤ)
    → let (start, end) = business_day zone instant in
      (start ≤ℤ instant)
      × (instant <ℤ end)
      × (end ≡ start +ℤ pos day)
      × ((other : ℤ)
          → start ≤ℤ other
          → other <ℤ end
          → business_day zone other ≡ business_day zone instant)
unfolding business_day
business_day-partition zone instant =
    let local = instant +ℤ offset zone in
    (
      omega (int_laws, midnight-bounds local),
      omega (int_laws, midnight-bounds local),
      refl,
      λ other h k.
          let same : midnight (other +ℤ offset zone) ≡ midnight local =
            midnight_unique local (other +ℤ offset zone) (omega int_laws) (omega int_laws) in
          ap (λ (m : ℤ). (m -ℤ offset zone, m -ℤ offset zone +ℤ pos day)) same,
    )
