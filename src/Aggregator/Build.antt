-- ===== src/Aggregator/Build.antt =====
-- How interval_aggregator.go makes one candle of the 1m candles of a period: the loop that
-- `buildCurrentCandle`, `completeIntervalNow` and `updateIntervalCandle` each spell out.
pub mod Times
pub mod Loop
pub mod Summary
pub mod Order
use nyyu_market.Prelude.{ℕ, List, Bool, false}
use nyyu_market.Prelude.Text.{Bytes}
use nyyu_market.Decimal.{Decimal}
use nyyu_market.Models.Interval.{Interval}
use nyyu_market.Models.Candle.{Candle, aggregated, spot}
use nyyu_market.Time.{Time}
use Loop.{building_totals}

-- `BuildingCandle`; the mutex guards one call of the aggregator at a time.
pub record BuildingCandle (Number : Type 0) : Type 0 where
  pub symbol : Bytes
  pub interval : Interval
  pub open_time : Time
  pub close_time : Time
  pub candles_1m : List (ℕ × Candle Number)
  pub expected_1m_count : ℕ

module _ (d : Decimal) where
  -- The candle that stands for the building one at the instant `now`.
  unfoldable pub aggregate : BuildingCandle d.Number → Bool → Time → Candle d.Number
  aggregate b closed now =
      let t = building_totals d b.candles_1m in
      record {
        symbol = b.symbol;
        interval = b.interval;
        open_time = b.open_time;
        close_time = b.close_time;
        open_price = t.open_price;
        high = t.high;
        low = t.low;
        close_price = t.close_price;
        volume = t.volume;
        quote_volume = t.quote_volume;
        trade_count = t.trade_count;
        source = aggregated;
        is_closed = closed;
        contract_type = spot;
        created_at = now;
        updated_at = now;
        taker_buy_base_volume = d.zero_value;
        taker_buy_quote_volume = d.zero_value;
      }

  -- `buildCurrentCandle`
  unfoldable pub build_current_candle : BuildingCandle d.Number → Time → Candle d.Number
  unfolding aggregate
  build_current_candle b now = aggregate b false now
