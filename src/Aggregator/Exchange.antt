-- ===== src/Aggregator/Exchange.antt =====
-- What internal/services/aggregator/exchange_aggregator.go answers from memory, and its batch writer:
-- `GetAggregatedPrice`, `aggregateCandles`, `GetLatestInMemoryCandle`, and `flushBatch` and the
-- workers of `batchWriterWorker`, whose steps under the lock come in any order. The maps of the former system are read and never written; a map's list stands
-- for the order in which Go reads it.
pub mod Writing
use nyyu_market.Prelude.{
  ℕ, suc, ◌+◌, ◌<◌, List, [], ◌∷◌, ◌++◌, Bool, true, false, ◌&&◌, ◌||◌, Option, none, some,
  if◌then◌else◌, ltb, leb, ◌==◌, length, ◌≡◌,
}
use nyyu_market.Prelude.Text.{Bytes}
use nyyu_market.Prelude.Maps.{load, bytes_key}
use nyyu_market.Decimal.{Decimal}
use nyyu_market.Models.Interval.{Interval, m1, text}
use nyyu_market.Models.Candle.{Candle, aggregated, spot}
use nyyu_market.Time.{Time}
use nyyu_market.Aggregator.Intervals
use nyyu_market.Aggregator.Intervals.{IntervalAggregator, Query}
use nyyu_market.Aggregator.Realtime.{RealtimeCandleAggregator, data_of}
use nyyu_market.Aggregator.Realtime.Combine.{Combined, nothing, is_invalid, add_data, sum_and_count}
use nyyu_market.Aggregator.Realtime.Lookup

pub record ExchangeAggregator (Number : Type 0) : Type 0 where
  pub realtime_agg : RealtimeCandleAggregator Number
  pub interval_agg : Option (IntervalAggregator Number)
  pub aggregated_prices : List (Bytes × List (Bytes × Number))
  pub pending_candles : List (Bytes × List (Bytes × List (ℕ × List (Bytes × Candle Number))))

module _ (d : Decimal) where
  open d use {Number, zero_value, div, new_from_int}

  abbrev average : Number × ℕ → Number × ℕ
  average (sum, count) =
      if count == 0 then (zero_value, 0) else (div sum (new_from_int count), count)

  abbrev former_price : Option (List (Bytes × Number)) → Number × ℕ
  former_price none = (zero_value, 0)
  former_price (some prices) = average (sum_and_count d zero_value 0 prices)

  -- `GetAggregatedPrice`
  unfoldable pub get_aggregated_price : Bytes → ExchangeAggregator Number → Number × ℕ
  get_aggregated_price symbol a =
      let p = Lookup.get_aggregated_price d symbol a.realtime_agg in
      if ltb 0 p.1 then p else former_price (load symbol a.aggregated_prices)

  -- The loop over candles, from its variables; the times are those of the first candle that counts.
  abbrev or_first : Option (Candle Number) → Candle Number → Option (Candle Number)
  or_first (some c') c = some c'
  or_first none c = some c

  unfoldable pub totals_of :
      Time
      → List (Bytes × Candle Number)
      → Combined Number × Option (Candle Number)
      → Combined Number × Option (Candle Number)
  totals_of now [] acc = acc
  totals_of now ((exchange, c) ∷ m) (t, first) = totals_of now m (
      if is_invalid d (data_of d now c)
      then (t, first)
      else (add_data d t (data_of d now c), or_first first c))

  abbrev times_of : Option (Candle Number) → Time × Time
  times_of none = (0, 0)
  times_of (some c) = (c.open_time, c.close_time)

  -- The candle that is returned.
  abbrev candle_from :
      Bytes
      → Interval
      → Time
      → Combined Number × Option (Candle Number)
      → ℕ
      → Bool
      → Option (Candle Number)
  candle_from symbol interval now (t, first) trade_count is_closed =
      if t.valid_count == 0
      then none
      else some record {
        symbol = symbol;
        interval = interval;
        open_time = (times_of first).0;
        close_time = (times_of first).1;
        open_price = div t.total_open (new_from_int t.valid_count);
        high = t.max_high;
        low = t.min_low;
        close_price = div t.total_close (new_from_int t.valid_count);
        volume = t.total_volume;
        quote_volume = t.total_quote_volume;
        trade_count = trade_count;
        source = aggregated;
        is_closed = is_closed;
        contract_type = spot;
        created_at = now;
        updated_at = now;
        taker_buy_base_volume = zero_value;
        taker_buy_quote_volume = zero_value;
      }

  abbrev all_closed : List (Bytes × Candle Number) → Bool
  all_closed [] = true
  all_closed ((exchange, c) ∷ m) = c.is_closed && all_closed m

  abbrev any_closed : List (Bytes × Candle Number) → Bool
  any_closed [] = false
  any_closed ((exchange, c) ∷ m) = c.is_closed || any_closed m

  -- `aggregateCandles`
  unfoldable pub aggregate_candles :
      Bytes → Interval → Time → List (Bytes × Candle Number) → Option (Candle Number)
  unfolding totals_of
  aggregate_candles symbol interval now candles =
      let t = totals_of now candles (nothing d, none) in
      candle_from symbol interval now t t.0.total_trade_count
        (all_closed candles && leb 3 t.0.valid_count)

  -- The latest time stamp above zero, with its candles.
  unfoldable pub latest_pending :
      List (ℕ × List (Bytes × Candle Number))
      → ℕ × List (Bytes × Candle Number)
      → List (Bytes × Candle Number)
  latest_pending [] (latest, candles) = candles
  latest_pending ((timestamp, cs) ∷ m) (latest, candles) =
      latest_pending m (if ltb latest timestamp then (timestamp, cs) else (latest, candles))

  abbrev pending_of :
      Interval
      → Option (List (Bytes × List (ℕ × List (Bytes × Candle Number))))
      → List (ℕ × List (Bytes × Candle Number))
  pending_of interval none = []
  pending_of interval (some m) = elim (load (text interval) m) [ some p ↦ p | none ↦ [] ]

  -- The rest of `GetLatestInMemoryCandle`, on the candles of the former system.
  unfoldable pub former_candle :
      Bytes → Interval → Time → ExchangeAggregator Number → Option (Candle Number)
  unfolding totals_of latest_pending
  former_candle symbol interval now a =
      let candles = latest_pending (pending_of interval (load symbol a.pending_candles)) (0, []) in
      let t = totals_of now candles (nothing d, none) in
      candle_from symbol interval now t t.0.valid_count (any_closed candles)

  abbrev or_former : Option (Candle Number) → Option (Candle Number) → Option (Candle Number)
  or_former (some c) former = some c
  or_former none former = former

  abbrev is_1m : Interval → Bool
  is_1m m1 = true
  is_1m _ = false

  -- What the interval aggregator has, if there is one.
  abbrev from_intervals :
      Query d
      → Time
      → Bytes
      → Interval
      → Option (IntervalAggregator Number)
      → Option (Candle Number) × Option (IntervalAggregator Number)
  from_intervals query now symbol interval none = (none, none)
  from_intervals query now symbol interval (some agg) =
      let (c, agg') = Intervals.get_latest_candle d query now symbol interval agg in (c, some agg')

  -- `GetLatestInMemoryCandle`; `repo` is the real-time aggregator's repository, `query` that of the
  -- interval aggregator.
  unfoldable pub get_latest_in_memory_candle :
      Option (Query d)
      → Query d
      → Time
      → Bytes
      → Interval
      → ExchangeAggregator Number
      → Option (Candle Number) × ExchangeAggregator Number
  unfolding former_candle
  get_latest_in_memory_candle repo query now symbol interval a =
      let former = former_candle symbol interval now a in
      if is_1m interval
      then (let (c, agg) = Lookup.get_latest_candle d repo now symbol interval a.realtime_agg in
          (or_former c former, record a { realtime_agg = agg }))
      else (let (c, agg) = from_intervals query now symbol interval a.interval_agg in
          (or_former c former, record a { interval_agg = agg }))

-- The batch that the writers share, with the batches that were taken out of it for
-- `BatchCreateCandles`.
pub record Writer (Number : Type 0) : Type 0 where
  pub current_batch : List (Candle Number)
  pub handed_on : List (List (Candle Number))

-- The workers: how many of them have left the lock after a candle, with `shouldFlush` true, and have
-- not come to their `flushBatch`.
pub record Workers (Number : Type 0) : Type 0 where
  pub writer : Writer Number
  pub flushing : ℕ

module _ {Number : Type 0} where
  -- `flushBatch` under its lock.
  unfoldable pub flush_batch : Writer Number → Writer Number
  flush_batch w =
      if length w.current_batch == 0
      then w
      else record { current_batch = []; handed_on = w.handed_on ++ (w.current_batch ∷ []) }

  -- A candle from the channel, in `batchWriterWorker` under the lock, with `shouldFlush`.
  unfoldable pub append_candle : ℕ → Candle Number → Writer Number → Writer Number × Bool
  append_candle batch_write_size c w =
      let w' : Writer Number = record w { current_batch = w.current_batch ++ (c ∷ []) } in
      (w', leb batch_write_size (length w'.current_batch))

  abbrev pub new_workers : Workers Number
  new_workers = record { writer = record { current_batch = []; handed_on = [] }; flushing = 0 }

  -- What a worker does that has taken a candle.
  unfoldable pub receive : ℕ → Candle Number → Workers Number → Workers Number
  unfolding append_candle
  receive size c ws =
      let (w, should_flush) = append_candle size c ws.writer in
      record { writer = w; flushing = ws.flushing + (if should_flush then 1 else 0) }

  abbrev pub flush_by : ℕ → Workers Number → Workers Number
  flush_by flushing ws = record { writer = flush_batch ws.writer; flushing = flushing }

  -- One step of one of `workers` workers, and the candle that it took from the channel, if any. A
  -- worker on its way to `flushBatch` takes neither candle nor tick.
  pub data Writes (workers size : ℕ)
      : Workers Number → Option (Candle Number) → Workers Number → Type 0 where
    candle :
        (c : Candle Number) (ws : Workers Number)
        → ws.flushing < workers
        → Writes workers size ws (some c) (receive size c ws)
    flush :
        (n : ℕ) (ws : Workers Number)
        → ws.flushing ≡ suc n
        → Writes workers size ws none (flush_by n ws)
    tick :
        (ws : Workers Number)
        → ws.flushing < workers
        → Writes workers size ws none (flush_by ws.flushing ws)

  abbrev pub taking : List (Candle Number) → Option (Candle Number) → List (Candle Number)
  taking cs none = cs
  taking cs (some c) = cs ++ (c ∷ [])

  -- What the workers come to, with the candles in the order in which they entered the batch.
  pub data WritesAll (workers size : ℕ) : List (Candle Number) → Workers Number → Type 0 where
    start : WritesAll workers size [] new_workers
    step :
        {cs : List (Candle Number)} {ws ws' : Workers Number} {o : Option (Candle Number)}
        → WritesAll workers size cs ws
        → Writes workers size ws o ws'
        → WritesAll workers size (taking cs o) ws'
