-- ===== src/Budget/Clock.antt =====
-- What the budget code takes from `datetime`: the UTC day and month of an instant (the texts of
-- `strftime`, as numbers), and the instants at which they begin (`f"{today}T00:00:00+00:00"`).
-- Instants are microseconds; ISO texts of one zone sort as their instants do.
use gestalt_workframe.Prelude.{ℕ, ◌*◌, ◌/◌, ◌≤◌, arith}

pub record Calendar : Type 0 where
  pub day : ℕ → ℕ
  pub month : ℕ → ℕ
  pub day_start : ℕ → ℕ
  pub month_start : ℕ → ℕ

-- A day has begun when it is today, and a month begins no later than its days.
pub record IsCalendar (cal : Calendar) : Type 0 where
  pub day_begun : (t : ℕ) → cal.day_start (cal.day t) ≤ t
  pub month_begun : (t : ℕ) → cal.month_start (cal.month t) ≤ cal.day_start (cal.day t)

-- Days of 86,400 seconds and months of 30 days.
abbrev day_us : ℕ
day_us = 86400000000

abbrev pub plain_calendar : Calendar
plain_calendar = record {
  day = λ t. t / day_us;
  month = λ t. t / (30 * day_us);
  day_start = λ d. d * day_us;
  month_start = λ m. m * (30 * day_us);
}

pub plain_calendar-IsCalendar : IsCalendar plain_calendar
plain_calendar-IsCalendar = record { day_begun = λ t. omega arith; month_begun = λ t. omega arith }
