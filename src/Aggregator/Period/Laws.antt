-- ===== src/Aggregator/Period/Laws.antt =====
-- Where the periods of interval_aggregator.go lie on the time line.
use nyyu_market.Prelude.{
  ℕ, ◌+◌, ◌-◌, ◌*◌, ◌/◌, ◌%◌, ◌≤◌, ◌<◌, ◌≡◌, ◌≢◌, refl, ap, ◌↔◌, true, arith, ◌∙◌,
}
use nyyu_market.Models.Interval.{
  Interval, s1, m1, m3, m5, m15, m30, h1, h2, h4, h6, h8, h12, d1, d3, w1, mo1, other,
}
use nyyu_market.Time.{
  Time, Duration, second, day, unix_epoch, unix, of_unix, minute_of, hour_of, weekday, date_of,
  day_number,
}
use native.Mathlib.Nat.{div-add-mod, mod-lt}
use nyyu_market.Time.Calendar.{
  civil, days_of_date, first_of_month, days_of_date-civil, days_of_date-first_of_month,
  day_of_month-lt,
}
use nyyu_market.Time.Laws.{date-date_of, days_of_date-first}
use nyyu_market.Aggregator.Period.{
  get_interval_open_time, interval_duration, is_fixed, is_built, days_back,
}

-- How far a multiple of the duration is from the start of a period.
abbrev pub phase : Interval → Duration
phase d3 = day
phase _ = 0

-- A period begins at a multiple of its duration, counted from its phase.
pub open_time_eq :
    (t : Time) (i : Interval)
    → is_fixed i ≡ true
    → unix_epoch * second ≤ t
    → get_interval_open_time t i ≡ t - (t + phase i) % interval_duration i
unfolding get_interval_open_time interval_duration
open_time_eq t m3 h e = date-date_of t 0 (hour_of t) (minute_of t / 3 * 3) ∙ omega arith
open_time_eq t m5 h e = date-date_of t 0 (hour_of t) (minute_of t / 5 * 5) ∙ omega arith
open_time_eq t m15 h e = date-date_of t 0 (hour_of t) (minute_of t / 15 * 15) ∙ omega arith
open_time_eq t m30 h e = date-date_of t 0 (hour_of t) (minute_of t / 30 * 30) ∙ omega arith
open_time_eq t h1 h e = date-date_of t 0 (hour_of t) 0 ∙ omega arith
open_time_eq t h2 h e = date-date_of t 0 (hour_of t / 2 * 2) 0 ∙ omega arith
open_time_eq t h4 h e = date-date_of t 0 (hour_of t / 4 * 4) 0 ∙ omega arith
open_time_eq t h6 h e = date-date_of t 0 (hour_of t / 6 * 6) 0 ∙ omega arith
open_time_eq t h8 h e = date-date_of t 0 (hour_of t / 8 * 8) 0 ∙ omega arith
open_time_eq t h12 h e = date-date_of t 0 (hour_of t / 12 * 12) 0 ∙ omega arith
open_time_eq t d1 h e = date-date_of t 0 0 0 ∙ omega arith
open_time_eq t d3 h e = omega arith
open_time_eq t w1 h e = date-date_of t (days_back (weekday t)) 0 0 ∙ ground arith
open_time_eq t mo1 h e = cc
open_time_eq t s1 h e = cc
open_time_eq t m1 h e = cc
open_time_eq t (other s) h e = cc

duration_pos : (i : Interval) → 0 < interval_duration i
unfolding interval_duration
duration_pos m3 = omega arith
duration_pos (other s) = omega arith
duration_pos _ = omega arith

-- Arithmetic of a period: the start lies at or before the instant, less than one duration away, and
-- every instant of the period has the same start.
start_bounds :
    (t p d : ℕ) → 0 < d → p < d → p ≤ t → (t - (t + p) % d ≤ t) × (t < t - (t + p) % d + d)
start_bounds t p d h hp hpt = grind arith

div-mod : (a d : ℕ) → d * (a / d) + a % d ≡ a
div-mod a d = div-add-mod a d

-- A number in the block of length d that begins at d * q has quotient q.
div_in_block : (a q d : ℕ) → d * q ≤ a → a < d * q + d → d * (a / d) ≡ d * q
div_in_block a q d lo hi = grind (arith, div-add-mod a d, mod-lt a {m = d})

start_same :
    (t u p d : ℕ)
    → 0 < d
    → d ≤ t
    → t - (t + p) % d ≤ u
    → u < t - (t + p) % d + d
    → u - (u + p) % d ≡ t - (t + p) % d
start_same t u p d h hd lo hi = omega (
  arith,
  mod-lt (t + p) h,
  div_in_block (u + p) ((t + p) / d) d (omega (arith, mod-lt (t + p) h, div-add-mod (t + p) d))
      (omega (arith, mod-lt (t + p) h, div-add-mod (t + p) d)),
  div-add-mod (t + p) d,
  div-add-mod (u + p) d,
)

phase-lt : (i : Interval) → phase i < interval_duration i
unfolding interval_duration
phase-lt d3 = omega arith
phase-lt (other s) = omega arith
phase-lt _ = omega arith

phase-le : (i : Interval) → phase i ≤ day
phase-le d3 = omega arith
phase-le (other s) = omega arith
phase-le _ = omega arith

interval_duration-le : (i : Interval) → interval_duration i ≤ 30 * day
unfolding interval_duration
interval_duration-le m3 = omega arith
interval_duration-le (other s) = omega arith
interval_duration-le _ = omega arith

fixed_bounds :
    (t : Time) (i : Interval)
    → is_fixed i ≡ true
    → unix_epoch * second ≤ t
    → (get_interval_open_time t i ≤ t) × (t < get_interval_open_time t i + interval_duration i)
fixed_bounds t i h e = rw (open_time_eq t i h e) (
    start_bounds t (phase i) (interval_duration i) (duration_pos i) (phase-lt i)
      (omega (arith, phase-le i)))

-- From 1970 on, and for each interval but the month, an instant lies in the period that begins at
-- its open time and lasts the interval's duration.
pub open_time_bounds :
    (t : Time) (i : Interval)
    → i ≢ mo1
    → unix_epoch * second ≤ t
    → (get_interval_open_time t i ≤ t) × (t < get_interval_open_time t i + interval_duration i)
unfolding get_interval_open_time interval_duration
open_time_bounds t mo1 h e = absurd (h refl)
open_time_bounds t s1 h e = omega arith
open_time_bounds t m1 h e = omega arith
open_time_bounds t (other s) h e = omega arith
open_time_bounds t i h e = fixed_bounds t i refl e

-- From 1970 on, and for the intervals whose periods have one length, two instants have one open time
-- exactly when the second lies in the period of the first.
pub open_time_same :
    (t u : Time) (i : Interval)
    → is_fixed i ≡ true
    → unix_epoch * second ≤ t
    → unix_epoch * second ≤ u
    → (get_interval_open_time u i ≡ get_interval_open_time t i)
      ↔ ((get_interval_open_time t i ≤ u) × (u < get_interval_open_time t i + interval_duration i))
open_time_same t u i h e f = (
  λ same. omega (arith, fixed_bounds u i h f, ap (λ (x : ℕ). x + interval_duration i) same),
  λ inside.
      rw (open_time_eq u i h f, open_time_eq t i h e)
        (start_same t u (phase i) (interval_duration i) (duration_pos i)
          (omega (arith, interval_duration-le i)) (rw (open_time_eq t i h e) at (inside.0))
          (rw (open_time_eq t i h e) at (inside.1))),
)

-- A month begins at or before each of its instants, which is less than 31 days later.
pub month_bounds :
    (t : Time) → (get_interval_open_time t mo1 ≤ t) × (t < get_interval_open_time t mo1 + 31 * day)
unfolding get_interval_open_time
month_bounds t = omega (arith, days_of_date-first (day_number t))

-- An instant lies past the close time of its own month's candle exactly on a 31st.
pub month_overrun :
    (t : Time)
    → (get_interval_open_time t mo1 + interval_duration mo1 ≤ t) ↔ ((date_of t).day_of_month ≡ 30)
unfolding get_interval_open_time interval_duration
month_overrun t =
    let n = day_number t in
    (
      λ h.
          omega
            (arith, days_of_date-first_of_month (civil n), days_of_date-civil n, day_of_month-lt n),
      λ h. omega (arith, days_of_date-first_of_month (civil n), days_of_date-civil n),
    )

-- An instant from February 1970 on, so that the period around it begins in 1970 or later.
abbrev pub IsRecent : Time → Type 0
IsRecent t = unix_epoch * second + 31 * day ≤ t

month_open :
    (t : Time) → get_interval_open_time t mo1 ≡ days_of_date (first_of_month (date_of t)) * day
unfolding get_interval_open_time
month_open t = omega arith

-- The start of a period is a whole second, which its Unix time determines.
pub open_time_whole :
    (t : Time) (i : Interval)
    → is_built i ≡ true
    → IsRecent t
    → of_unix (unix (get_interval_open_time t i)) ≡ get_interval_open_time t i
unfolding interval_duration
open_time_whole t mo1 h e = omega (arith, month_bounds t, month_open t)
open_time_whole t s1 h e = cc
open_time_whole t m1 h e = cc
open_time_whole t (other s) h e = cc
open_time_whole t i h e = omega (arith, open_time_eq t i refl (omega arith))
