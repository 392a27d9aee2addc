-- ===== src/Cron/Time.antt =====
-- What internal/runtime/cron.go takes from the time package: the fields of an instant in UTC, and the
-- starts of hours, days and months. Instants are full minutes, by their number.
use lebro.Common.{ℕ, ◌+◌, ◌≤◌, ◌<◌, ◌≡◌}

pub record Calendar : Type 0 where
  pub month : ℕ → ℕ
  pub day : ℕ → ℕ
  pub weekday : ℕ → ℕ
  pub hour : ℕ → ℕ
  pub minute : ℕ → ℕ
  -- time.Date of the first of the month, AddDate(0, 1, 0)
  pub next_month : ℕ → ℕ
  -- time.Date of the midnight, AddDate(0, 0, 1)
  pub next_day : ℕ → ℕ
  -- time.Date of the full hour
  pub hour_start : ℕ → ℕ

-- Months, days and hours are stretches of time.
pub record IsCalendar (cal : Calendar) : Type 0 where
  pub month_ends : (t : ℕ) → t < cal.next_month t
  pub same_month : (t u : ℕ) → t ≤ u → u < cal.next_month t → cal.month u ≡ cal.month t
  pub day_ends : (t : ℕ) → t < cal.next_day t
  pub same_day :
      (t u : ℕ)
      → t ≤ u
      → u < cal.next_day t
      → (cal.month u ≡ cal.month t) × (cal.day u ≡ cal.day t) × (cal.weekday u ≡ cal.weekday t)
  pub hour_ends : (t : ℕ) → t < cal.hour_start t + 60
  pub same_hour : (t u : ℕ) → t ≤ u → u < cal.hour_start t + 60 → cal.hour u ≡ cal.hour t
