-- ===== src/Sync/EventTime/Window.antt =====
-- The window that `event_time` keeps to.
use dukan_pro.Prelude.{
  String, ◌≡◌, refl, inl, inr, Option, none, some, arith, Bool-cases, Option-cases, ◌&&◌,
}
use dukan_pro.Prelude.Int.{ℤ, ◌+ℤ◌, ◌-ℤ◌, leb_ℤ, ◌≤ℤ◌, int_laws}
use dukan_pro.Sync.EventTime.{
  Clock, event_time, event_time_past, event_time_future, recorded_instant,
}

-- An instant from 45 days before the server's clock to 5 minutes after it.
abbrev pub InWindow : ℤ → ℤ → Type 0
InWindow at now = (now -ℤ event_time_past ≤ℤ at) × (at ≤ℤ now +ℤ event_time_future)

now-InWindow : (now : ℤ) → InWindow now now
now-InWindow now = (omega int_laws, omega int_laws)

-- The time of an event is in the window around the server's clock. It is the device's time where
-- that can be read and is in the window, and the server's clock otherwise.
pub event_time-window :
    (fromisoformat : Clock) (recorded_at : Option String) (now : ℤ)
    → InWindow (event_time fromisoformat recorded_at now) now
      × ((at : ℤ)
          → recorded_instant fromisoformat recorded_at ≡ some at
          → InWindow at now
          → event_time fromisoformat recorded_at now ≡ at)
      × (recorded_instant fromisoformat recorded_at ≡ none
          → event_time fromisoformat recorded_at now ≡ now)
unfolding event_time
event_time-window fromisoformat recorded_at now =
    elim (Option-cases (recorded_instant fromisoformat recorded_at)) [
      | inl n ↦ rw n (now-InWindow now, (λ at e. cc), λ e. refl)
      | inr (t, r) ↦ (chosen t r, (λ at e w. let same : t ≡ at = cc in ground arith), λ e. cc)
    ]
  where
    chosen :
        (t : ℤ)
        → recorded_instant fromisoformat recorded_at ≡ some t
        → InWindow (event_time fromisoformat recorded_at now) now
    chosen t r =
        elim (Bool-cases (leb_ℤ (now -ℤ event_time_past) t && leb_ℤ t (now +ℤ event_time_future))) [
          | inl inside ↦ rw (r, inside) (ground arith)
          | inr outside ↦ rw (r, outside) (now-InWindow now)
        ]
