-- ===== src/Models/Candle.antt =====
-- The `Candle`, `Price` and `MarkPrice` structs of internal/models, over any type of decimal numbers.
use nyyu_market.Prelude.{ℕ, Bool}
use nyyu_market.Prelude.Text.{Bytes, codes}
use nyyu_market.Models.Interval.{Interval}
use nyyu_market.Time.{Time}

pub record Candle (Number : Type 0) : Type 0 where
  pub symbol : Bytes
  pub interval : Interval
  pub open_time : Time
  pub close_time : Time
  pub open_price : Number
  pub high : Number
  pub low : Number
  pub close_price : Number
  pub volume : Number
  pub quote_volume : Number
  pub trade_count : ℕ
  pub source : Bytes
  pub is_closed : Bool
  pub contract_type : Bytes
  pub created_at : Time
  pub updated_at : Time
  pub taker_buy_base_volume : Number
  pub taker_buy_quote_volume : Number

pub record Price (Number : Type 0) : Type 0 where
  pub symbol : Bytes
  pub last_price : Number
  pub price_change_24h : Number
  pub price_change_24p : Number
  pub high_24h : Number
  pub low_24h : Number
  pub volume_24h : Number
  pub quote_volume_24h : Number
  pub updated_at : Time

pub record MarkPrice (Number : Type 0) : Type 0 where
  pub symbol : Bytes
  pub mark_price : Number
  pub index_price : Number
  pub last_price : Number
  pub funding_basis : Number
  pub estimated_funding_rate : Number
  pub next_funding_time : Time
  pub timestamp : Time

abbrev pub aggregated : Bytes
aggregated = codes "aggregated"

abbrev pub spot : Bytes
spot = codes "spot"
