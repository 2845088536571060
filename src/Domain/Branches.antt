-- ===== src/Domain/Branches.antt =====
-- server/dukan/domain/branches.py: a branch's settings and its business day. Instants are integers,
-- microseconds of UTC; a wall clock is read the same way.
pub mod BusinessDay
use dukan_pro.Prelude.{
  ℕ, ◌+◌, ◌*◌, ◌/◌, String, Bool, not, Option, none, some, leb, is_some, if◌then◌else◌,
}
use dukan_pro.Prelude.Int.{ℤ, pos, negsuc, ◌+ℤ◌, ◌-ℤ◌, negate}
use dukan_pro.Prelude.Text.{str_eq}
use dukan_pro.Errors.{Checked, ◌>>◌, raise_if, validation, conflict, Code}

unfoldable pub assert_not_last_active_branch : ℕ → Checked
assert_not_last_active_branch active_branch_count =
    raise_if (leb active_branch_count 1) (conflict Code.branch_last_active)

unfoldable pub assert_branch_active : Bool → Checked
assert_branch_active is_active = raise_if (not is_active) (conflict Code.branch_inactive)

abbrev pub minute : ℕ
minute = 60 * 1000000

abbrev pub day : ℕ
day = 24 * 60 * minute

-- `BRANCH_ZONE_OFFSETS.get(zone)`: the offsets from UTC, all of them to the east.
unfoldable pub branch_zone_offset : String → Option ℕ
branch_zone_offset zone =
    if str_eq zone "Asia/Kabul"
    then some (270 * minute)
    else if str_eq zone "Asia/Karachi"
    then some (300 * minute)
    else if str_eq zone "Asia/Tashkent"
    then some (300 * minute)
    else if str_eq zone "Asia/Dushanbe"
    then some (300 * minute)
    else if str_eq zone "Asia/Dubai"
    then some (240 * minute)
    else if str_eq zone "Asia/Tehran"
    then some (210 * minute)
    else if str_eq zone "UTC"
    then some 0
    else none

abbrev pub default_branch_offset : ℕ
default_branch_offset = 270 * minute

unfoldable pub assert_branch_settings_valid : String → String → Checked
assert_branch_settings_valid timezone currency_default = do
  raise_if (not (is_some (branch_zone_offset timezone))) (validation Code.branch_timezone_invalid)
  raise_if (not (str_eq currency_default "AFN")) (validation Code.branch_currency_invalid)

unfoldable pub offset : String → ℤ
offset zone = elim (branch_zone_offset zone) [ none ↦ pos default_branch_offset | some o ↦ pos o ]

unfoldable pub branch_wall_clock : String → ℤ → ℤ
branch_wall_clock zone instant = instant +ℤ offset zone

-- `datetime(local.year, local.month, local.day)`: the midnight that begins the date.
unfoldable pub midnight : ℤ → ℤ
midnight (pos n) = pos (n / day * day)
midnight (negsuc n) = negate (pos ((n / day + 1) * day))

unfoldable pub business_day : String → ℤ → ℤ × ℤ
unfolding branch_wall_clock
business_day zone instant =
    let local = branch_wall_clock zone instant in
    let start = midnight local -ℤ offset zone in (start, start +ℤ pos day)
