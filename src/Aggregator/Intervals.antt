-- ===== src/Aggregator/Intervals.antt =====
-- The `IntervalAggregator` of internal/services/aggregator/interval_aggregator.go: it builds the
-- candles of the longer intervals from 1m candles. A call of a method is one step on the state; a
-- goroutine that publishes a candle is an entry of `published`, in the order in which it is started.
pub mod Keys
pub mod Closing
pub mod Invariant
pub mod Closed
pub mod Others
pub mod Growth
use nyyu_market.Prelude.{
  ℕ, ◌+◌, ◌-◌, ◌*◌, List, [], ◌∷◌, ◌++◌, Bool, true, false, ◌&&◌, ◌||◌, Option, none, some, ltb,
  ◌==◌, if◌then◌else◌, length,
}
use nyyu_market.Prelude.Text.{Bytes, has_proper_prefix}
use nyyu_market.Prelude.Maps.{load, store, delete, bytes_key, nat_key}
use nyyu_market.Decimal.{Decimal}
use nyyu_market.Models.Interval.{Interval}
use nyyu_market.Models.Candle.{Candle, aggregated, spot}
use nyyu_market.Time.{Time, unix, day}
use nyyu_market.Aggregator.Period.{
  intervals, get_interval_open_time, interval_duration, get_expected_1m_count,
}
use nyyu_market.Aggregator.Build.{BuildingCandle, aggregate, build_current_candle}
use Keys.{candle_key, series_key, series_prefix}

pub record IntervalAggregator (Number : Type 0) : Type 0 where
  pub building_candles : List (Bytes × BuildingCandle Number)
  pub last_completed_candles : List (Bytes × Candle Number)
  pub batch_chan : List (Candle Number)
  pub published : List (Candle Number)

-- The capacity of `batchChan`.
abbrev pub batch_cap : ℕ
batch_cap = 10000

-- `NewIntervalAggregator`
abbrev pub new_interval_aggregator : (Number : Type 0) → IntervalAggregator Number
new_interval_aggregator Number = record {
  building_candles = [];
  last_completed_candles = [];
  batch_chan = [];
  published = [];
}

-- The `select` with a `default` that sends to a channel: a full channel drops the value.
unfoldable pub try_send {ℓ} : {A : Type ℓ} → ℕ → A → List A → List A
try_send cap a ch = if ltb (length ch) cap then ch ++ (a ∷ []) else ch

module _ (d : Decimal) where
  -- `completeIntervalNow`
  unfoldable pub complete_interval_now :
      Time
      → BuildingCandle d.Number
      → Interval
      → Bytes
      → IntervalAggregator d.Number
      → IntervalAggregator d.Number
  complete_interval_now now b interval key st =
      let agg = aggregate d b true now in
      record {
        building_candles = delete key st.building_candles;
        last_completed_candles = store (series_key b.symbol interval) agg st.last_completed_candles;
        batch_chan = try_send batch_cap agg st.batch_chan;
        published = st.published ++ (agg ∷ []);
      }

  -- The guards of the callback in `closeExpiredIntervals`.
  unfoldable pub expires : Bytes → Interval → Time → Bytes × BuildingCandle d.Number → Bool
  expires symbol interval current_time (key, b) =
      has_proper_prefix (series_prefix symbol interval) key
      && ((ltb b.close_time current_time || current_time == b.close_time)
          && ltb 0 (length b.candles_1m))

  unfoldable pub close_entry :
      Time
      → Bytes
      → Interval
      → Time
      → Bytes × BuildingCandle d.Number
      → IntervalAggregator d.Number
      → IntervalAggregator d.Number
  close_entry now symbol interval current_time e st =
      if expires symbol interval current_time e
      then complete_interval_now now e.1 interval e.0 st
      else st

  -- One `Range`, over the entries that it meets.
  unfoldable pub close_range :
      Time
      → Bytes
      → Interval
      → Time
      → List (Bytes × BuildingCandle d.Number)
      → IntervalAggregator d.Number
      → IntervalAggregator d.Number
  close_range now symbol interval current_time [] st = st
  close_range now symbol interval current_time (e ∷ es) st =
      close_range now symbol interval current_time es
        (close_entry now symbol interval current_time e st)

  unfoldable pub close_each :
      Time
      → Bytes
      → Time
      → List Interval
      → IntervalAggregator d.Number
      → IntervalAggregator d.Number
  close_each now symbol current_time [] st = st
  close_each now symbol current_time (i ∷ is) st =
      close_each now symbol current_time is
        (close_range now symbol i current_time st.building_candles st)

  -- `closeExpiredIntervals`
  unfoldable pub close_expired_intervals :
      Time → Bytes → Time → IntervalAggregator d.Number → IntervalAggregator d.Number
  close_expired_intervals now symbol current_time st =
      close_each now symbol current_time intervals st

  -- The candle that `LoadOrStore` puts in if the key is new.
  unfoldable pub new_building_candle : Candle d.Number → Interval → BuildingCandle d.Number
  new_building_candle m1_candle interval =
      let interval_open_time = get_interval_open_time m1_candle.open_time interval in
      record {
        symbol = m1_candle.symbol;
        interval = interval;
        open_time = interval_open_time;
        close_time = interval_open_time + interval_duration interval;
        candles_1m = [];
        expected_1m_count = get_expected_1m_count interval;
      }

  -- A 1m candle takes the place of the one for the same minute.
  unfoldable pub put_1m_candle : Candle d.Number → BuildingCandle d.Number → BuildingCandle d.Number
  put_1m_candle m1_candle b = record b {
    candles_1m = store (unix m1_candle.open_time) m1_candle b.candles_1m;
  }

  abbrev pub or_new :
      Option (BuildingCandle d.Number) → BuildingCandle d.Number → BuildingCandle d.Number
  or_new none b = b
  or_new (some b') b = b'

  abbrev pub period_key : Candle d.Number → Interval → Bytes
  period_key m1_candle interval =
      candle_key m1_candle.symbol interval
        (unix (get_interval_open_time m1_candle.open_time interval))

  -- `updateIntervalCandle`
  unfoldable pub update_interval_candle :
      Time → Candle d.Number → Interval → IntervalAggregator d.Number → IntervalAggregator d.Number
  update_interval_candle now m1_candle interval st =
      let key = period_key m1_candle interval in
      let b =
        put_1m_candle m1_candle
          (or_new (load key st.building_candles) (new_building_candle m1_candle interval)) in
      record st {
        building_candles = store key b st.building_candles;
        published = st.published ++ (aggregate d b false now ∷ []);
      }

  unfoldable pub update_each :
      Time
      → Candle d.Number
      → List Interval
      → IntervalAggregator d.Number
      → IntervalAggregator d.Number
  update_each now m1_candle [] st = st
  update_each now m1_candle (i ∷ is) st =
      update_each now m1_candle is (update_interval_candle now m1_candle i st)

  -- `Process1mCandle`
  unfoldable pub process_1m_candle :
      Time → Candle d.Number → IntervalAggregator d.Number → IntervalAggregator d.Number
  process_1m_candle now m1_candle st =
      update_each now m1_candle intervals
        (close_expired_intervals now m1_candle.symbol m1_candle.open_time st)

  -- What `GetCandles` of the repository answers; `none` is an error.
  abbrev pub Query : Type 0
  Query = Bytes → Interval → Bytes → Bytes → Time → Time → ℕ → Option (List (Candle d.Number))

  -- `GetLastCompletedCandle`
  unfoldable pub get_last_completed_candle :
      Query
      → Time
      → Bytes
      → Interval
      → IntervalAggregator d.Number
      → Option (Candle d.Number) × IntervalAggregator d.Number
  get_last_completed_candle get_candles now symbol interval st =
      let key = series_key symbol interval in
      elim (load key st.last_completed_candles) [
        | some c ↦ (some c, st)
        | none ↦ elim (get_candles symbol interval aggregated spot (now - 30 * day) now 1) [
          | some (c ∷ cs) ↦
              (some c, record st { last_completed_candles = store key c st.last_completed_candles })
          | _ ↦ (none, st)
        ]
      ]

  -- The callback of the `Range` in `GetLatestCandle`, on its two variables.
  unfoldable pub scan_building :
      Time
      → Bytes
      → Interval
      → List (Bytes × BuildingCandle d.Number)
      → ℕ × Option (Candle d.Number)
      → ℕ × Option (Candle d.Number)
  scan_building now symbol interval [] acc = acc
  scan_building now symbol interval ((key, b) ∷ es) (latest_timestamp, building_candle) =
      scan_building now symbol interval es (
        if has_proper_prefix (series_prefix symbol interval) key
          && (ltb latest_timestamp (unix b.open_time) && ltb 0 (length b.candles_1m))
        then (unix b.open_time, some (build_current_candle d b now))
        else (latest_timestamp, building_candle))

  -- `GetLatestCandle`
  unfoldable pub get_latest_candle :
      Query
      → Time
      → Bytes
      → Interval
      → IntervalAggregator d.Number
      → Option (Candle d.Number) × IntervalAggregator d.Number
  get_latest_candle get_candles now symbol interval st =
      let found = scan_building now symbol interval st.building_candles (0, none) in
      let (last_completed, st') = get_last_completed_candle get_candles now symbol interval st in
      elim found.1 [ some c ↦ (some c, st') | none ↦ (last_completed, st') ]
