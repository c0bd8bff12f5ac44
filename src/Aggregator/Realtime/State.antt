-- ===== src/Aggregator/Realtime/State.antt =====
-- The state of the `RealtimeCandleAggregator`.
use nyyu_market.Prelude.{ℕ, List, Bool, Option}
use nyyu_market.Prelude.Text.{Bytes}
use nyyu_market.Models.Interval.{Interval}
use nyyu_market.Models.Candle.{Candle}
use nyyu_market.Time.{Time}
use nyyu_market.Aggregator.Realtime.Combine.{ExchangeCandleData}

pub record LiveCandle (Number : Type 0) : Type 0 where
  pub symbol : Bytes
  pub interval : Interval
  pub open_time : Time
  pub close_time : Time
  pub exchange_data : List (Bytes × ExchangeCandleData Number)
  pub aggregated : Option (Candle Number)
  pub last_update : Time
  pub is_closed : Bool

pub record AggregatedPrice (Number : Type 0) : Type 0 where
  pub symbol : Bytes
  pub last_price : Number
  pub exchange_count : ℕ
  pub updated_at : Time
  pub exchange_prices : List (Bytes × Number)

-- The goroutines that the aggregator starts.
pub data Task (Number : Type 0) : Type 0 where
  publish_candle : Bytes → Interval → Option (Candle Number) → Task Number
  publish_price : Bytes → Number → ℕ → Task Number
  delete_live : Bytes → Task Number

-- `batch_cap` is the capacity of `candleBatchChan`, `none` if it is nil.
pub record RealtimeCandleAggregator (Number : Type 0) : Type 0 where
  pub live_candles : List (Bytes × LiveCandle Number)
  pub latest_candles : List (Bytes × Candle Number)
  pub live_prices : List (Bytes × AggregatedPrice Number)
  pub candle_subscribers : List (Bytes × List ℕ)
  pub price_subscribers : List (Bytes × List ℕ)
  pub batch_cap : Option ℕ
  pub candle_batch_chan : List (Candle Number)
  pub started : List (Task Number)
