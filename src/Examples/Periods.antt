-- ===== src/Examples/Periods.antt =====
-- Periods around a November evening and around the last day of a year.
use nyyu_market.Prelude.{◌+◌, ◌*◌, ◌≤◌, ◌<◌, ◌≡◌, ◌↔◌, refl, arith}
use nyyu_market.Models.Interval.{h4}
use nyyu_market.Time.{second}
use nyyu_market.Aggregator.Period.{get_interval_open_time, interval_duration}
use nyyu_market.Aggregator.Period.Laws.{open_time_same}
use nyyu_market.Examples.{evening}

open_time_same_example :
    (get_interval_open_time (evening + 60 * second) h4 ≡ get_interval_open_time evening h4) ↔ (
      (get_interval_open_time evening h4 ≤ evening + 60 * second)
      × (evening + 60 * second < get_interval_open_time evening h4 + interval_duration h4))
open_time_same_example =
    open_time_same evening (evening + 60 * second) h4 refl (omega arith) (omega arith)
