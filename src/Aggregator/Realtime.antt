-- ===== src/Aggregator/Realtime.antt =====
-- internal/services/aggregator/realtime_candle_aggregator.go: one candle and one price made of what
-- each exchange reports. A call is one step on the state, at one instant `now`; a goroutine that it
-- starts is an entry of `started`, in the order of the `go` statements. A callback is a number.
pub mod Combine
pub mod State
pub mod Lookup
pub mod Publish
pub mod Summary
pub mod Updates
use nyyu_market.Prelude.{
  ℕ, ◌+◌, ◌-◌, ◌*◌, List, [], ◌∷◌, ◌++◌, Bool, true, false, ◌&&◌, ◌||◌, Option, none, some,
  if◌then◌else◌, ltb, ◌==◌,
}
use nyyu_market.Prelude.Text.{Bytes, has_proper_prefix}
use nyyu_market.Prelude.Maps.{load, store, delete, bytes_key}
use nyyu_market.Decimal.{Decimal}
use nyyu_market.Models.Interval.{Interval}
use nyyu_market.Models.Candle.{Candle, spot}
use nyyu_market.Time.{Time, unix, day}
use nyyu_market.Aggregator.Intervals.{try_send}
use nyyu_market.Aggregator.Intervals.Keys.{candle_key, series_key, series_prefix}
use Combine.{ExchangeCandleData, combine, sum_and_count}
pub use State.{LiveCandle, AggregatedPrice, Task, RealtimeCandleAggregator}

module _ (d : Decimal) where
  open d use {Number, zero_value, div, new_from_int}

  -- `NewRealtimeCandleAggregator`
  abbrev pub new_realtime_candle_aggregator : Option ℕ → RealtimeCandleAggregator Number
  new_realtime_candle_aggregator cap = record {
    live_candles = [];
    latest_candles = [];
    live_prices = [];
    candle_subscribers = [];
    price_subscribers = [];
    batch_cap = cap;
    candle_batch_chan = [];
    started = [];
  }

  -- `aggregateLiveCandle`
  unfoldable pub aggregate_live_candle : Time → LiveCandle Number → Option (Candle Number)
  aggregate_live_candle now live =
      combine d live.symbol live.interval live.open_time live.close_time now live.exchange_data

  -- The literals of `ProcessCandleUpdate`.
  abbrev pub new_live_candle : Candle Number → LiveCandle Number
  new_live_candle c = record {
    symbol = c.symbol;
    interval = c.interval;
    open_time = c.open_time;
    close_time = c.close_time;
    exchange_data = [];
    aggregated = none;
    last_update = 0;
    is_closed = false;
  }

  abbrev pub data_of : Time → Candle Number → ExchangeCandleData Number
  data_of now c = record {
    open_price = c.open_price;
    high = c.high;
    low = c.low;
    close_price = c.close_price;
    volume = c.volume;
    quote_volume = c.quote_volume;
    trade_count = c.trade_count;
    is_closed = c.is_closed;
    updated_at = now;
  }

  abbrev pub live_or : Option (LiveCandle Number) → LiveCandle Number → LiveCandle Number
  live_or none live = live
  live_or (some live') live = live'

  -- What an update makes of a live candle.
  unfoldable pub update_live : Time → Bytes → Candle Number → LiveCandle Number → LiveCandle Number
  unfolding aggregate_live_candle
  update_live now exchange c live =
      let live' : LiveCandle Number = record live {
        exchange_data = store exchange (data_of now c) live.exchange_data;
      } in
      record live' {
        aggregated = aggregate_live_candle now live';
        last_update = now;
        is_closed = c.is_closed;
      }

  abbrev pub price_or : Option (AggregatedPrice Number) → Bytes → Time → AggregatedPrice Number
  price_or (some p) symbol now = p
  price_or none symbol now = record {
    symbol = symbol;
    last_price = zero_value;
    exchange_count = 0;
    updated_at = now;
    exchange_prices = [];
  }

  -- The average of the exchanges' prices; with no price nothing changes.
  unfoldable pub recalculate : Time → AggregatedPrice Number → AggregatedPrice Number
  recalculate now p =
      let (sum, count) = sum_and_count d zero_value 0 p.exchange_prices in
      if ltb 0 count
      then record p {
        last_price = div sum (new_from_int count);
        exchange_count = count;
        updated_at = now;
      }
      else p

  -- `updateLivePrice`; a price has been stored before the test of `count`.
  unfoldable pub update_live_price :
      Time
      → Bytes
      → Bytes
      → Number
      → RealtimeCandleAggregator Number
      → RealtimeCandleAggregator Number
  unfolding recalculate
  update_live_price now symbol exchange price st =
      let p = price_or (load symbol st.live_prices) symbol now in
      let p' : AggregatedPrice Number = record p {
        exchange_prices = store exchange price p.exchange_prices;
      } in
      let q = recalculate now p' in
      record st {
        live_prices = store symbol q st.live_prices;
        started =
            if ltb 0 (sum_and_count d zero_value 0 p'.exchange_prices).1
            then st.started ++ (Task.publish_price symbol q.last_price q.exchange_count ∷ [])
            else st.started;
      }

  abbrev pub send_closed : Option ℕ → Candle Number → List (Candle Number) → List (Candle Number)
  send_closed none c ch = ch
  send_closed (some cap) c ch = try_send cap c ch

  -- `handleClosedCandle`
  unfoldable pub handle_closed_candle :
      LiveCandle Number
      → Option (Candle Number)
      → RealtimeCandleAggregator Number
      → RealtimeCandleAggregator Number
  handle_closed_candle live none st = st
  handle_closed_candle live (some c) st = record st {
    latest_candles = store (series_key live.symbol live.interval) c st.latest_candles;
    candle_batch_chan = send_closed st.batch_cap c st.candle_batch_chan;
    started =
        st.started
        ++ (Task.delete_live (candle_key live.symbol live.interval (unix live.open_time)) ∷ []);
  }

  abbrev pub live_key : Candle Number → Bytes
  live_key c = candle_key c.symbol c.interval (unix c.open_time)

  -- `ProcessCandleUpdate`
  unfoldable pub process_candle_update :
      Time
      → Bytes
      → Candle Number
      → RealtimeCandleAggregator Number
      → RealtimeCandleAggregator Number
  process_candle_update now exchange c st =
      let live =
        update_live now exchange c
          (live_or (load (live_key c) st.live_candles) (new_live_candle c)) in
      let st' : RealtimeCandleAggregator Number = record st {
        live_candles = store (live_key c) live st.live_candles;
        started = st.started ++ (Task.publish_candle c.symbol c.interval live.aggregated ∷ []);
      } in
      let st'' = update_live_price now c.symbol exchange c.close_price st' in
      if c.is_closed then handle_closed_candle live live.aggregated st'' else st''
