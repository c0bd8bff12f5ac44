-- ===== src/Time/Laws.antt =====
-- What the models use of the calendar: a date with a new time of day, and the first of a month.
use nyyu_market.Prelude.{ℕ, ◌+◌, ◌-◌, ◌*◌, ◌≤◌, ◌<◌, ◌≡◌, arith}
use nyyu_market.Time.Calendar.{
  civil, days_of_date, days_of_date-civil, day_of_month-lt, first_of_month,
  days_of_date-first_of_month,
}
use nyyu_market.Time.{Time, day, hour, minute, date, date_of, day_number}

-- The date of an instant, taken back some days, at another time of day.
pub date-date_of :
    (t : Time) (back h mi : ℕ)
    → date (date_of t) back h mi ≡ (day_number t - back) * day + h * hour + mi * minute
date-date_of t back h mi = rw (days_of_date-civil (day_number t))

-- Midnight on the first of the month, and how far an instant can be from it.
pub days_of_date-first :
    (n : ℕ)
    → (days_of_date (first_of_month (civil n)) ≤ n)
      × (n < days_of_date (first_of_month (civil n)) + 31)
days_of_date-first n =
    omega (arith, days_of_date-first_of_month (civil n), days_of_date-civil n, day_of_month-lt n)
