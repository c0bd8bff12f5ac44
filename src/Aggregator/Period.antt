-- ===== src/Aggregator/Period.antt =====
-- The helpers at the end of internal/services/aggregator/interval_aggregator.go: where the period
-- of an instant begins, how long a period is, and how many minutes it has.
pub mod Laws
pub mod Alignment
use nyyu_market.Prelude.{
  ℕ, ◌+◌, ◌-◌, ◌*◌, ◌/◌, List, [], ◌∷◌, Bool, true, false, if◌then◌else◌, ◌==◌,
}
use nyyu_market.Models.Interval.{
  Interval, s1, m1, m3, m5, m15, m30, h1, h2, h4, h6, h8, h12, d1, d3, w1, mo1, other,
}
use nyyu_market.Time.{
  Time, Duration, minute, hour, unix, of_unix, minute_of, hour_of, weekday, date_of, date,
}
use nyyu_market.Time.Calendar.{first_of_month}

-- The field `intervals` of an `IntervalAggregator`.
abbrev pub intervals : List Interval
intervals = m3 ∷ m5 ∷ m15 ∷ m30 ∷ h1 ∷ h2 ∷ h4 ∷ h6 ∷ h8 ∷ h12 ∷ d1 ∷ d3 ∷ w1 ∷ mo1 ∷ []

-- Days back to Monday; Sunday counts as 7.
abbrev pub days_back : ℕ → ℕ
days_back w = (if w == 0 then 7 else w) - 1

-- `getIntervalOpenTime`
unfoldable pub get_interval_open_time : Time → Interval → Time
get_interval_open_time t m3 = date (date_of t) 0 (hour_of t) (minute_of t / 3 * 3)
get_interval_open_time t m5 = date (date_of t) 0 (hour_of t) (minute_of t / 5 * 5)
get_interval_open_time t m15 = date (date_of t) 0 (hour_of t) (minute_of t / 15 * 15)
get_interval_open_time t m30 = date (date_of t) 0 (hour_of t) (minute_of t / 30 * 30)
get_interval_open_time t h1 = date (date_of t) 0 (hour_of t) 0
get_interval_open_time t h2 = date (date_of t) 0 (hour_of t / 2 * 2) 0
get_interval_open_time t h4 = date (date_of t) 0 (hour_of t / 4 * 4) 0
get_interval_open_time t h6 = date (date_of t) 0 (hour_of t / 6 * 6) 0
get_interval_open_time t h8 = date (date_of t) 0 (hour_of t / 8 * 8) 0
get_interval_open_time t h12 = date (date_of t) 0 (hour_of t / 12 * 12) 0
get_interval_open_time t d1 = date (date_of t) 0 0 0
get_interval_open_time t d3 =
    let days_since_epoch = unix t / 86400 in
    let aligned_day = days_since_epoch / 3 * 3 in of_unix (aligned_day * 86400)
get_interval_open_time t w1 = date (date_of t) (days_back (weekday t)) 0 0
get_interval_open_time t mo1 = date (first_of_month (date_of t)) 0 0 0
get_interval_open_time t s1 = t
get_interval_open_time t m1 = t
get_interval_open_time t (other s) = t

-- `intervalToDuration`
unfoldable pub interval_duration : Interval → Duration
interval_duration m1 = minute
interval_duration m3 = 3 * minute
interval_duration m5 = 5 * minute
interval_duration m15 = 15 * minute
interval_duration m30 = 30 * minute
interval_duration h1 = hour
interval_duration h2 = 2 * hour
interval_duration h4 = 4 * hour
interval_duration h6 = 6 * hour
interval_duration h8 = 8 * hour
interval_duration h12 = 12 * hour
interval_duration d1 = 24 * hour
interval_duration d3 = 72 * hour
interval_duration w1 = 7 * 24 * hour
interval_duration mo1 = 30 * 24 * hour
interval_duration s1 = minute
interval_duration (other s) = minute

-- `getExpected1mCount`
unfoldable pub get_expected_1m_count : Interval → ℕ
get_expected_1m_count m3 = 3
get_expected_1m_count m5 = 5
get_expected_1m_count m15 = 15
get_expected_1m_count m30 = 30
get_expected_1m_count h1 = 60
get_expected_1m_count h2 = 120
get_expected_1m_count h4 = 240
get_expected_1m_count h6 = 360
get_expected_1m_count h8 = 480
get_expected_1m_count h12 = 720
get_expected_1m_count d1 = 1440
get_expected_1m_count d3 = 4320
get_expected_1m_count w1 = 10080
get_expected_1m_count mo1 = 43200
get_expected_1m_count s1 = 1
get_expected_1m_count m1 = 1
get_expected_1m_count (other s) = 1

-- The intervals whose periods all have one length, of those that are built.
abbrev pub is_fixed : Interval → Bool
is_fixed mo1 = false
is_fixed s1 = false
is_fixed m1 = false
is_fixed (other s) = false
is_fixed _ = true

-- The intervals of the list `intervals`.
abbrev pub is_built : Interval → Bool
is_built s1 = false
is_built m1 = false
is_built (other s) = false
is_built _ = true
