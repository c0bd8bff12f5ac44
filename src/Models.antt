-- ===== src/Models.antt =====
-- internal/models/candle.go and internal/models/price.go: candles, intervals and their durations.
pub mod Interval
pub mod Candle
