-- ===== src/Aggregator/Period/Alignment.antt =====
-- The periods of interval_aggregator.go against the durations of internal/models/candle.go, which
-- the rest of the program uses.
use nyyu_market.Prelude.{◌*◌, ◌≤◌, ◌≡◌, ◌≢◌, ◌↔◌, refl, true, arith, ◌∙◌}
use nyyu_market.Models.Interval.{
  Interval, s1, m1, mo1, d3, other, interval_to_duration, truncate_to_interval,
}
use nyyu_market.Time.{Time, second, minute, unix_epoch}
use nyyu_market.Aggregator.Period.{
  get_interval_open_time, interval_duration, get_expected_1m_count, is_fixed,
}
use nyyu_market.Aggregator.Period.Laws.{open_time_eq}

-- The two tables of durations agree exactly on the intervals other than a second.
pub interval_duration_iff :
    (i : Interval) → (interval_duration i ≡ interval_to_duration i) ↔ (i ≢ s1)
unfolding interval_duration interval_to_duration
interval_duration_iff s1 = (λ h. omega arith, λ h. absurd (h refl))
interval_duration_iff (other s) = (λ _ e. cc, λ h. refl)
interval_duration_iff i = (λ _ e. cc, λ h. refl)

-- The minutes expected of a candle fill its duration, whatever the interval.
pub expected_1m_count-duration :
    (i : Interval) → get_expected_1m_count i * minute ≡ interval_duration i
unfolding get_expected_1m_count interval_duration
expected_1m_count-duration (other s) = omega arith
expected_1m_count-duration i = omega arith

-- From 1970 on, and for the intervals whose periods have one length, a period begins where
-- `TruncateToInterval` puts an instant exactly if the interval is not three days.
pub open_time-truncate_iff :
    (t : Time) (i : Interval)
    → is_fixed i ≡ true
    → unix_epoch * second ≤ t
    → (get_interval_open_time t i ≡ truncate_to_interval t i) ↔ (i ≢ d3)
unfolding truncate_to_interval interval_to_duration interval_duration
open_time-truncate_iff t s1 h e = cc
open_time-truncate_iff t m1 h e = cc
open_time-truncate_iff t mo1 h e = cc
open_time-truncate_iff t (other s) h e = cc
open_time-truncate_iff t d3 h e =
    (λ same. absurd (omega (arith, open_time_eq t d3 h e)), λ n. absurd (n refl))
open_time-truncate_iff t i h e = (λ _ q. cc, λ _. open_time_eq t i h e ∙ omega arith)
