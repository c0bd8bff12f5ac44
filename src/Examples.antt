-- ===== src/Examples.antt =====
-- Concrete data, on which the theorems of the other modules are applied.
pub mod Periods
pub mod Candles
pub mod Building
pub mod Statistics
pub mod Exchanges
pub mod Limits
pub mod Connections
pub mod Messages
pub mod Services
pub mod Imports
pub mod History
use nyyu_market.Prelude.{ℕ, true, List, [], ◌∷◌}
use nyyu_market.Prelude.Text.{codes}
use nyyu_market.Models.Interval.{m1}
use nyyu_market.Models.Candle.{Candle, spot}
use nyyu_market.Time.{Time, of_unix, minute}

-- 14 November 2023, 22:14 UTC.
abbrev pub evening : Time
evening = of_unix 1700000040

-- 31 December 2023, 12:00 UTC.
abbrev pub year_end : Time
year_end = of_unix 1704024000

-- A 1m candle of BTCUSDT with prices in whole units.
abbrev pub trade_minute : Time → ℕ → ℕ → ℕ → ℕ → Candle ℕ
trade_minute t o h l c = record {
  symbol = codes "BTCUSDT";
  interval = m1;
  open_time = t;
  close_time = t;
  open_price = o;
  high = h;
  low = l;
  close_price = c;
  volume = 5;
  quote_volume = 500;
  trade_count = 7;
  source = codes "binance";
  is_closed = true;
  contract_type = spot;
  created_at = t;
  updated_at = t;
  taker_buy_base_volume = 0;
  taker_buy_quote_volume = 0;
}

abbrev pub first_minute : Candle ℕ
first_minute = trade_minute evening 100 110 95 105

abbrev pub second_minute : Candle ℕ
second_minute = trade_minute (of_unix 1700000100) 105 120 104 118

abbrev pub last_day_minute : Candle ℕ
last_day_minute = trade_minute year_end 200 210 190 205
