-- ===== src/Cron/Months.antt =====
-- A calendar for concrete data: twelve months of thirty days, from instant 0 on.
use lebro.Common.{ℕ, ◌+◌, ◌*◌, ◌/◌, ◌%◌, ◌≤◌, ◌<◌, ◌≡◌, ap, arith}
use lebro.Cron.Time.{Calendar, IsCalendar}

abbrev pub twelve_months : Calendar
twelve_months = record {
  month = λ t. t / 43200 % 12 + 1;
  day = λ t. t / 1440 % 30 + 1;
  weekday = λ t. t / 1440 % 7;
  hour = λ t. t / 60 % 24;
  minute = λ t. t % 60;
  next_month = λ t. (t / 43200 + 1) * 43200;
  next_day = λ t. (t / 1440 + 1) * 1440;
  hour_start = λ t. t / 60 * 60;
}

month_stays : (t u : ℕ) → t ≤ u → u < (t / 43200 + 1) * 43200 → u / 43200 ≡ t / 43200
month_stays t u h k = omega arith

day_stays : (t u : ℕ) → t ≤ u → u < (t / 1440 + 1) * 1440 → u / 1440 ≡ t / 1440
day_stays t u h k = omega arith

day_month : (t u : ℕ) → t ≤ u → u < (t / 1440 + 1) * 1440 → u / 43200 ≡ t / 43200
day_month t u h k = omega arith

hour_stays : (t u : ℕ) → t ≤ u → u < t / 60 * 60 + 60 → u / 60 ≡ t / 60
hour_stays t u h k = omega arith

pub twelve_months-IsCalendar : IsCalendar twelve_months
twelve_months-IsCalendar = record {
  month_ends = λ t. omega arith;
  same_month = λ t u h k. ap (λ (m : ℕ). m % 12 + 1) (month_stays t u h k);
  day_ends = λ t. omega arith;
  same_day = λ t u h k. (
    ap (λ (m : ℕ). m % 12 + 1) (day_month t u h k),
    ap (λ (d : ℕ). d % 30 + 1) (day_stays t u h k),
    ap (λ (d : ℕ). d % 7) (day_stays t u h k),
  );
  hour_ends = λ t. omega arith;
  same_hour = λ t u h k. ap (λ (d : ℕ). d % 24) (hour_stays t u h k);
}
