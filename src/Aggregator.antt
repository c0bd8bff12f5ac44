-- ===== src/Aggregator.antt =====
-- internal/services/aggregator: the candle aggregators, the periods they use, the conversion of
-- interval names for the exchanges, and the rate limiter.
pub mod Period
pub mod Build
pub mod Intervals
pub mod History
pub mod Realtime
pub mod Limiter
pub mod Names
pub mod Streams
pub mod Subscribe
pub mod Connection
pub mod Handlers
pub mod Exchange
