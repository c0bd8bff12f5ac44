-- ===== src/Time.antt =====
-- What the program uses of Go's `time` package. An instant (`time.Time`) is the number of
-- nanoseconds since 1 January of the year 1, UTC, which is the package's own zero instant; the
-- location is UTC throughout, and a duration is a number of nanoseconds that is not negative.
pub mod Calendar
pub mod Laws
use nyyu_market.Prelude.{
  ℕ, zero, suc, ◌+◌, ◌-◌, ◌*◌, ◌/◌, ◌%◌, ◌≤◌, ◌<◌, ◌≡◌, refl, Bool, arith, leb, ltb, if◌then◌else◌,
}
use Calendar.{Date, civil, days_of_date}

abbrev pub Time : Type 0
Time = ℕ

abbrev pub Duration : Type 0
Duration = ℕ

abbrev pub second : Duration
second = 1000000000

abbrev pub minute : Duration
minute = 60000000000

abbrev pub hour : Duration
hour = 3600000000000

abbrev pub day : Duration
day = 86400000000000

-- Seconds from the zero instant to 1 January 1970.
abbrev pub unix_epoch : ℕ
unix_epoch = 62135596800

-- `t.Unix()` for an instant from 1970 on.
abbrev pub unix : Time → ℕ
unix t = t / second - unix_epoch

-- `t.UnixMilli()` for an instant from 1970 on.
abbrev pub to_unix_milli : Time → ℕ
to_unix_milli t = t / 1000000 - unix_epoch * 1000

-- `time.Unix(s, 0)` for s not negative.
abbrev pub of_unix : ℕ → Time
of_unix s = (s + unix_epoch) * second

-- `t.Truncate(d)`: whole multiples of d since the zero instant.
abbrev pub truncate : Time → Duration → Time
truncate t d = t - t % d

abbrev pub minute_of : Time → ℕ
minute_of t = t / minute % 60

abbrev pub hour_of : Time → ℕ
hour_of t = t / hour % 24

abbrev pub day_number : Time → ℕ
day_number t = t / day

-- `t.Weekday()`, Sunday is 0. The zero instant is a Monday.
abbrev pub weekday : Time → ℕ
weekday t = (day_number t + 1) % 7

-- `t.Date()`.
abbrev pub date_of : Time → Date
date_of t = civil (day_number t)

-- `time.Date(y, m, d - back, h, mi, 0, 0, UTC)` of a date `y m d`: the package normalises a day
-- outside its month, so `back` days are taken off the day number.
abbrev pub date : Date → ℕ → ℕ → ℕ → Time
date c back h mi = (days_of_date c - back) * day + h * hour + mi * minute
