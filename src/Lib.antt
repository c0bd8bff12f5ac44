-- ===== src/Lib.antt =====
-- Verification of the market data service: it connects to exchanges, reads the candles that they
-- report, combines them, builds them up to longer intervals, sums them up over 24 hours, and serves
-- them from memory, a cache and a database.
--
-- The program. A user's call in internal/grpc/candle_handler.go, or the symbol manager in
-- internal/services/symbols, raises a reference count in internal/services/aggregator/
-- exchange_aggregator.go. There a goroutine for each exchange connects, through the proxies of
-- internal/proxy/proxy_service.go, subscribes to the active streams, and hands messages to the
-- handlers in exchange_handlers.go. A handler reports a candle to
-- `RealtimeCandleAggregator.ProcessCandleUpdate` (realtime_candle_aggregator.go), which keeps one
-- live candle for a symbol, an interval and an open time, combines what the exchanges say of it, and
-- publishes the result. A combined 1m candle goes on to `IntervalAggregator.Process1mCandle`
-- (interval_aggregator.go), which builds the candles of fourteen longer intervals, and to
-- `StreamingPriceCalculator.ProcessCandle` (internal/services/candle/streaming_price_calculator.go),
-- which keeps the last 1440 candles of a symbol in a ring with their sums and extremes. Readers come
-- through internal/services/candle/candle_service.go, which looks into memory, Redis and the database.
-- internal/services/markprice makes mark prices, and internal/importer loads candles of the past.
--
-- The files.
--   Prelude and below: lists, texts and what of Go's `strings` and `strconv` is used, JSON values,
--     `int32` counters, maps (association lists whose order is that of one `Range`), choices such as
--     a maximum.
--   Decimal: the arithmetic of github.com/shopspring/decimal, a parameter, with its laws as records
--     and one instance. Time: instants in nanoseconds since the year 1, UTC, with a civil calendar.
--   Models: internal/models/candle.go and price.go. An interval string is a constructor of `Interval`;
--     `other` stands for the strings that no switch of the program names.
--   Aggregator.Streams: `SubscribeToInterval` and `UnsubscribeFromInterval`; Counts and Steps have
--     what their counts mean, Shared what a symbol's stream counts.
--   Aggregator.Subscribe: the messages of `subscribeBinance` and its siblings; Batches has the loops
--     over batches, Pairs the names of symbols.
--   Aggregator.Connection: `manageExchangeConnection`, `connectExchange`, `dialWithProxy` and
--     `handleConnectionError` as a step relation; Attempts, Backoff and Reachable are about it.
--   Aggregator.Handlers: the `process` methods; Report has what they share, Binance and Readers what
--     they read out of a message, Asked, Answers and EventTime what they report.
--   Aggregator.Exchange: `GetAggregatedPrice`, `GetLatestInMemoryCandle` and the batch
--     writers, any number of workers on one batch whose steps under its lock come in any order.
--   Aggregator.Period: `getIntervalOpenTime`, `intervalToDuration` and `getExpected1mCount`.
--   Aggregator.Build: the loop over the sorted minutes that `buildCurrentCandle`,
--     `completeIntervalNow` and `updateIntervalCandle` share.
--   Aggregator.Intervals: the `IntervalAggregator` (`process_1m_candle` is `Process1mCandle`,
--     `close_expired_intervals` is `closeExpiredIntervals`, and so on); Keys has its map keys,
--     Invariant, Closing, Closed, Others and Growth what its operations do to the state.
--   Aggregator.History: `group1mCandlesByInterval` and `buildHistoricalInterval`.
--   Aggregator.Realtime: the `RealtimeCandleAggregator`; Combine has `aggregateLiveCandle`,
--     Lookup `GetLatestCandle`, `GetAggregatedPrice` and the subscriptions, and Publish what the
--     goroutines hand on.
--   Aggregator.Limiter: the backoff and the batcher of rate_limiter.go. Aggregator.Names:
--     exchange_helpers.go.
--   Stats: the `StreamingPriceCalculator`; Ring has its operations, Window, Totals, Preserved
--     and Cold what they keep.
--   Candles: candle_service.go. Grpc: candle_handler.go. Proxy: proxy_service.go. Repository:
--     internal/repository/candle_repository.go. Importer: importer.go. Symbols: symbol_fetcher.go and
--     symbol_manager.go. MarkPrices: markprice_service.go. Their child modules are named for what they
--     are about.
--   Examples: data at which the theorems are applied.
--
-- How it is modelled. A method is a function from state to state, run as one step, also where the
-- program takes no lock over all of it, as in `ProcessCandleUpdate`; only the batch writers, the
-- goroutine of a connection and the order of an import's insertions are interleaved. `time.Now()`
-- is an argument, the same for the calls of one step. A goroutine that publishes is an entry of a
-- list in the order of the `go` statements. A send to a full channel drops the value. What the
-- network, Redis, the database, an archive or a parser of JSON or decimals answers is an argument.
-- Counters of `int32` and `int64` wrap around; a number of trades, an `int` that is added up, does
-- not. Local time is UTC, which the times that `time.Unix` makes are given in. Loops are structural
-- recursions, but for three with fuel: the decimal form of a number has one round more than the
-- number, a loop over batches one round more than the list has entries, and both are enough;
-- `generateTasks` gets its number of rounds as an argument, since it need not end. Instants are
-- from 1970 on where a theorem says so, and a priority is not negative.
--
-- Not modelled: the websocket, HTTP, gRPC, Redis and SQL layers themselves, logging and metrics, the
-- interleaving of goroutines inside one step; of the files above `Start`, `Stop`, tickers, pings and
-- reports such as `GetStats`, `processBatchedSubscriptions` and the subscriptions with a limiter,
-- `batchWriter` of the interval aggregator, `Wait` of the limiter, and the handlers of
-- internal/grpc/markprice_handler.go.
pub mod Prelude
pub mod Decimal
pub mod Time
pub mod Models
pub mod Aggregator
pub mod Stats
pub mod Candles
pub mod Grpc
pub mod Proxy
pub mod Repository
pub mod Importer
pub mod Symbols
pub mod MarkPrices
pub mod Examples
