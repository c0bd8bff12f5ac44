-- ===== src/Aggregator/History.antt =====
-- The candles of the past that internal/services/aggregator/interval_aggregator.go builds from the
-- database: `group1mCandlesByInterval` and `buildHistoricalInterval`. The order in which Go reads the
-- map of groups is an argument, and so is what the database answers.
pub mod Groups
use nyyu_market.Prelude.{
  ℕ, ◌+◌, ◌*◌, List, [], ◌∷◌, ◌++◌, Bool, true, false, Option, none, some, if◌then◌else◌, length,
}
use nyyu_market.Prelude.Text.{Bytes}
use nyyu_market.Prelude.Maps.{load, store, bytes_key, nat_key}
use nyyu_market.Decimal.{Decimal}
use nyyu_market.Models.Interval.{Interval}
use nyyu_market.Models.Candle.{Candle, aggregated, spot}
use nyyu_market.Time.{Time, unix, of_unix}
use nyyu_market.Aggregator.Period.{get_interval_open_time, interval_duration}
use nyyu_market.Aggregator.Build.Loop.{Totals, no_totals}
use nyyu_market.Aggregator.Intervals.{IntervalAggregator}
use nyyu_market.Aggregator.Intervals.Keys.{series_key}

abbrev pub or_nil {ℓ} : {A : Type ℓ} → Option (List A) → List A
or_nil none = []
or_nil (some xs) = xs

module _ (d : Decimal) where
  open d use {Number, add, greater_than, less_than}

  abbrev pub group_key : Interval → Candle Number → ℕ
  group_key interval c = unix (get_interval_open_time c.open_time interval)

  -- The loop that groups the candles.
  unfoldable pub group_from :
      Interval
      → List (Candle Number)
      → List (ℕ × List (Candle Number))
      → List (ℕ × List (Candle Number))
  group_from interval [] groups = groups
  group_from interval (c ∷ cs) groups =
      let key = group_key interval c in
      group_from interval cs (store key (or_nil (load key groups) ++ (c ∷ [])) groups)

  -- One round of the loop over a group.
  unfoldable pub add_grouped : Totals Number → Candle Number → Totals Number
  add_grouped t c =
      let u : Totals Number =
        if t.first_candle
        then record t {
          first_candle = false;
          open_price = c.open_price;
          high = c.high;
          low = c.low;
        }
        else record t {
          high = if greater_than c.high t.high then c.high else t.high;
          low = if less_than c.low t.low then c.low else t.low;
        } in
      record u {
        close_price = c.close_price;
        volume = add t.volume c.volume;
        quote_volume = add t.quote_volume c.quote_volume;
        trade_count = t.trade_count + c.trade_count;
      }

  unfoldable pub grouped_from : Totals Number → List (Candle Number) → Totals Number
  grouped_from t [] = t
  grouped_from t (c ∷ cs) = grouped_from (add_grouped t c) cs

  -- The candle of a group that is not empty.
  unfoldable pub built_candle :
      Time → Interval → ℕ → Candle Number → List (Candle Number) → Candle Number
  unfolding grouped_from
  built_candle now interval key c cs =
      let t = grouped_from (no_totals d) (c ∷ cs) in
      record {
        symbol = c.symbol;
        interval = interval;
        open_time = of_unix key;
        close_time = of_unix key + interval_duration interval;
        open_price = t.open_price;
        high = t.high;
        low = t.low;
        close_price = t.close_price;
        volume = t.volume;
        quote_volume = t.quote_volume;
        trade_count = t.trade_count;
        source = aggregated;
        is_closed = true;
        contract_type = spot;
        created_at = now;
        updated_at = now;
        taker_buy_base_volume = d.zero_value;
        taker_buy_quote_volume = d.zero_value;
      }

  -- There is none of an empty one.
  abbrev pub grouped_candle :
      Time → Interval → ℕ × List (Candle Number) → List (Candle Number) → List (Candle Number)
  grouped_candle now interval (key, []) rest = rest
  grouped_candle now interval (key, c ∷ cs) rest = built_candle now interval key c cs ∷ rest

  unfoldable pub grouped_candles :
      Time → Interval → List (ℕ × List (Candle Number)) → List (Candle Number)
  grouped_candles now interval [] = []
  grouped_candles now interval (g ∷ gs) =
      grouped_candle now interval g (grouped_candles now interval gs)

  abbrev pub Arrange : Type 0
  Arrange = List (ℕ × List (Candle Number)) → List (ℕ × List (Candle Number))

  -- `group1mCandlesByInterval`
  unfoldable pub group_1m_candles_by_interval :
      Arrange → Time → Interval → List (Candle Number) → List (Candle Number)
  unfolding group_from grouped_candles
  group_1m_candles_by_interval arrange now interval candles_1m =
      grouped_candles now interval (arrange (group_from interval candles_1m []))

  abbrev pub last_built : Candle Number → List (Candle Number) → Candle Number
  last_built c [] = c
  last_built c (x ∷ xs) = last_built x xs

  -- What is done with the candles that were built, if the database takes them.
  abbrev pub keep_built :
      Bool
      → Bytes
      → Interval
      → List (Candle Number)
      → IntervalAggregator Number
      → IntervalAggregator Number
  keep_built created symbol interval [] a = a
  keep_built created symbol interval (c ∷ cs) a =
      if created
      then record a {
        last_completed_candles =
            store (series_key symbol interval) (last_built c cs) a.last_completed_candles;
      }
      else a

  -- `buildHistoricalInterval`, from the 1m candles of the last seven days, `none` for an error: the
  -- candles that are given to the database, and the state.
  unfoldable pub build_historical_interval :
      Arrange
      → Time
      → Bytes
      → Interval
      → Option (List (Candle Number))
      → Bool
      → IntervalAggregator Number
      → List (Candle Number) × IntervalAggregator Number
  build_historical_interval arrange now symbol interval rows created a =
      let built = group_1m_candles_by_interval arrange now interval (or_nil rows) in
      (built, keep_built created symbol interval built a)
