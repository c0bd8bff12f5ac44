-- ===== src/Aggregator/Realtime/Publish.antt =====
-- What the goroutines of the `RealtimeCandleAggregator` hand on: `publishCandleUpdate`,
-- `publishPriceUpdate`, and the delayed deletion of `handleClosedCandle`.
use nyyu_market.Prelude.{
  ℕ, List, [], ◌∷◌, ◌++◌, map, Bool, true, false, ◌&&◌, Option, none, some, if◌then◌else◌,
}
use nyyu_market.Prelude.Text.{Bytes, codes}
use nyyu_market.Prelude.Maps.{load, delete, bytes_key}
use nyyu_market.Models.Interval.{Interval, m1}
use nyyu_market.Models.Candle.{Candle}
use nyyu_market.Aggregator.Intervals.Keys.{series_key}
use nyyu_market.Aggregator.Realtime.State.{RealtimeCandleAggregator, Task}

-- The calls that a goroutine makes or starts, in their order. `redis_candle` and `redis_price` are
-- the calls of the publisher, on a channel.
pub data Notice (Number : Type 0) : Type 0 where
  process_candle_for_stats : Candle Number → Notice Number
  process_1m_candle : Candle Number → Notice Number
  call_candle : ℕ → Candle Number → Notice Number
  call_price : ℕ → Bytes → Number → ℕ → Notice Number
  redis_candle : Bytes → Candle Number → Notice Number
  redis_price : Bytes → Bytes → Number → Notice Number

abbrev is_1m : Interval → Bool
is_1m m1 = true
is_1m _ = false

abbrev notify {ℓ} : {A : Type ℓ} → (ℕ → A) → Option (List ℕ) → List A
notify f none = []
notify f (some subs) = map f subs

-- `publishCandleUpdate`; the flags say whether `candleService` and `intervalAgg` are set.
unfoldable pub publish_candle_update :
    {Number : Type 0}
    → Bool
    → Bool
    → Bytes
    → Interval
    → Option (Candle Number)
    → RealtimeCandleAggregator Number
    → List (Notice Number)
publish_candle_update has_service has_agg symbol interval none st = []
publish_candle_update has_service has_agg symbol interval (some c) st =
    (if has_service && is_1m interval then Notice.process_candle_for_stats c ∷ [] else [])
    ++ (if has_agg && is_1m interval then Notice.process_1m_candle c ∷ [] else [])
    ++ notify (λ sub. Notice.call_candle sub c)
        (load (series_key symbol interval) st.candle_subscribers)
    ++ (Notice.redis_candle (codes "nyyu:market:candle:" ++ series_key symbol interval) c ∷ [])

-- `publishPriceUpdate`
unfoldable pub publish_price_update :
    {Number : Type 0} → Bytes → Number → ℕ → RealtimeCandleAggregator Number → List (Notice Number)
publish_price_update symbol price exchange_count st =
    notify (λ sub. Notice.call_price sub symbol price exchange_count)
      (load symbol st.price_subscribers)
    ++ (Notice.redis_price (codes "nyyu:market:price:" ++ symbol) symbol price ∷ [])

-- One goroutine, run to its end.
unfoldable pub run_task :
    {Number : Type 0}
    → Bool
    → Bool
    → Task Number
    → RealtimeCandleAggregator Number
    → List (Notice Number) × RealtimeCandleAggregator Number
unfolding publish_candle_update publish_price_update
run_task has_service has_agg (Task.publish_candle symbol interval o) st =
    (publish_candle_update has_service has_agg symbol interval o st, st)
run_task has_service has_agg (Task.publish_price symbol price count) st =
    (publish_price_update symbol price count st, st)
run_task has_service has_agg (Task.delete_live key) st =
    ([], record st { live_candles = delete key st.live_candles })
