-- ===== src/Models/Interval.antt =====
-- The interval strings of internal/models/candle.go as an enumeration, with their durations.
use nyyu_market.Prelude.{◌*◌, List, [], ◌∷◌}
use nyyu_market.Prelude.Text.{Bytes, codes}
use nyyu_market.Time.{Time, Duration, second, minute, hour, truncate}

-- `other s` is a string `s` that the program's switches do not name.
pub data Interval : Type 0 where
  s1 m1 m3 m5 m15 m30 h1 h2 h4 h6 h8 h12 d1 d3 w1 mo1 : Interval
  other : Bytes → Interval

unfoldable pub text : Interval → Bytes
text s1 = codes "1s"
text m1 = codes "1m"
text m3 = codes "3m"
text m5 = codes "5m"
text m15 = codes "15m"
text m30 = codes "30m"
text h1 = codes "1h"
text h2 = codes "2h"
text h4 = codes "4h"
text h6 = codes "6h"
text h8 = codes "8h"
text h12 = codes "12h"
text d1 = codes "1d"
text d3 = codes "3d"
text w1 = codes "1w"
text mo1 = codes "1M"
text (other s) = s

-- `models.IntervalToDuration`
unfoldable pub interval_to_duration : Interval → Duration
interval_to_duration s1 = 1 * second
interval_to_duration m1 = 1 * minute
interval_to_duration m3 = 3 * minute
interval_to_duration m5 = 5 * minute
interval_to_duration m15 = 15 * minute
interval_to_duration m30 = 30 * minute
interval_to_duration h1 = 1 * hour
interval_to_duration h2 = 2 * hour
interval_to_duration h4 = 4 * hour
interval_to_duration h6 = 6 * hour
interval_to_duration h8 = 8 * hour
interval_to_duration h12 = 12 * hour
interval_to_duration d1 = 24 * hour
interval_to_duration d3 = 72 * hour
interval_to_duration w1 = 168 * hour
interval_to_duration mo1 = 720 * hour
interval_to_duration (other s) = 1 * minute

-- `models.TruncateToInterval`
unfoldable pub truncate_to_interval : Time → Interval → Time
truncate_to_interval t interval = truncate t (interval_to_duration interval)

-- `models.ValidIntervals`
abbrev pub valid_intervals : List Interval
valid_intervals =
    s1 ∷ m1 ∷ m3 ∷ m5 ∷ m15 ∷ m30 ∷ h1 ∷ h2 ∷ h4 ∷ h6 ∷ h8 ∷ h12 ∷ d1 ∷ d3 ∷ w1 ∷ mo1 ∷ []
