-- ===== src/Sync/EventTime.antt =====
-- `event_time` and `parse_recorded_at` of server/dukan/application/sync_policy.py: when a row that a
-- device dates happened. An instant is an integer, microseconds of UTC. `datetime.fromisoformat` is
-- a parameter: it reads a text as an instant, with whether the text names a time zone; the instant
-- of a text that names none is not used.
pub mod Window
use dukan_pro.Prelude.{String, Bool, not, Option, none, some, ltb, length, if◌then◌else◌, ◌&&◌, ◌*◌}
use dukan_pro.Prelude.Int.{ℤ, pos, ◌+ℤ◌, ◌-ℤ◌, leb_ℤ}
use dukan_pro.Prelude.Text.{str_eq, codes}

pub record Stamp : Type 0 where
  pub aware : Bool
  pub at : ℤ

abbrev pub Clock : Type 0
Clock = String → Option Stamp

abbrev pub event_time_past : ℤ
event_time_past = pos (45 * (24 * 3600 * 1000000))

abbrev pub event_time_future : ℤ
event_time_future = pos (5 * (60 * 1000000))

abbrev aware_instant : Option Stamp → Option ℤ
aware_instant none = none
aware_instant (some t) = if t.aware then some t.at else none

unfoldable pub parse_recorded_at : Clock → String → Option ℤ
parse_recorded_at fromisoformat value =
    if ltb 40 (length (codes value)) then none else aware_instant (fromisoformat value)

-- `parse_recorded_at(recorded_at) if recorded_at else None`
unfoldable pub recorded_instant : Clock → Option String → Option ℤ
recorded_instant fromisoformat none = none
recorded_instant fromisoformat (some value) =
    if str_eq value "" then none else parse_recorded_at fromisoformat value

abbrev within_window : ℤ → ℤ → Bool
within_window at now = leb_ℤ (now -ℤ event_time_past) at && leb_ℤ at (now +ℤ event_time_future)

abbrev choose : Option ℤ → ℤ → ℤ
choose none now = now
choose (some at) now = if within_window at now then at else now

unfoldable pub event_time : Clock → Option String → ℤ → ℤ
event_time fromisoformat recorded_at now = choose (recorded_instant fromisoformat recorded_at) now
