-- ===== src/Core/Calendar.antt =====
-- The calendar of `chrono` and `chrono-tz`: a parameter of the model, with what the code relies on.
use propfirm_engine.Base.{ℕ, ◌+◌, ◌*◌, ◌/◌, ◌%◌, ◌<◌, ◌≡◌, Option, arith}
use propfirm_engine.Core.Ids.{Timestamp, nanos_per_minute, nanos_per_hour, nanos_per_day}

-- An entry of the `chrono-tz` table. No time zone stands for UTC.
abbrev pub Tz : Type 0
Tz = ℕ

pub record Calendar : Type 0 where
  -- The reset hour on the local date of an instant: `date_naive().and_hms_opt(hour, 0, 0)`, read
  -- in the zone.
  pub reset_on_date : Option Tz → ℕ → Timestamp → Timestamp
  -- The same on the date after: `date_naive().succ_opt()`.
  pub reset_on_next_date : Option Tz → ℕ → Timestamp → Timestamp
  -- The hour of an instant in a zone, and its weekday in UTC, counted from Monday.
  pub hour : Option Tz → Timestamp → ℕ
  pub weekday : Timestamp → ℕ
  -- `hour:minute:00` UTC on the date of an instant.
  pub at_time : Timestamp → ℕ → ℕ → Timestamp

-- The reset of the next date is later than any instant of this date, and falls on its own date.
pub record IsCalendar (c : Calendar) : Type 0 where
  pub next_later : (tz : Option Tz) (hour t : ℕ) → hour < 24 → t < c.reset_on_next_date tz hour t
  pub reset_of_next :
      (tz : Option Tz) (hour t : ℕ)
      → hour < 24
      → c.reset_on_date tz hour (c.reset_on_next_date tz hour t) ≡ c.reset_on_next_date tz hour t
  pub hour-lt : (tz : Option Tz) (t : ℕ) → c.hour tz t < 24

-- Every zone is UTC.
abbrev pub utc_calendar : Calendar
utc_calendar = record {
  reset_on_date = λ _ hour t. t / nanos_per_day * nanos_per_day + hour * nanos_per_hour;
  reset_on_next_date = λ _ hour t. (t / nanos_per_day + 1) * nanos_per_day + hour * nanos_per_hour;
  hour = λ _ t. t / nanos_per_hour % 24;
  weekday = λ t. t / nanos_per_day % 7;
  at_time = λ t hour minute.
      t / nanos_per_day * nanos_per_day + hour * nanos_per_hour + minute * nanos_per_minute;
}

pub utc-IsCalendar : IsCalendar utc_calendar
utc-IsCalendar = record {
  next_later = λ tz hour t h. omega arith;
  reset_of_next = λ tz hour t h. omega arith;
  hour-lt = λ tz t. omega arith;
}
