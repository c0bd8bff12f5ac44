-- ===== src/Stats.antt =====
-- internal/services/candle: the 24h statistics of a symbol.
pub mod Ring
pub mod Window
pub mod Totals
pub mod Preserved
pub mod Cold
