-- ===== src/MarkPrices.antt =====
-- internal/services/markprice/markprice_service.go: the mark price of a symbol, from the aggregated
-- price and a moving average of the funding basis. The period of the average is a number that is not
-- negative. The cache's answers are arguments; what is cached and published is recorded.
pub mod Funding
use nyyu_market.Prelude.{
  ℕ, ◌+◌, ◌-◌, ◌*◌, ◌/◌, List, [], ◌∷◌, ◌++◌, Bool, true, false, Option, none, some, if◌then◌else◌,
  ltb, leb, ◌==◌,
}
use nyyu_market.Prelude.Text.{Bytes}
use nyyu_market.Prelude.Maps.{load, store, bytes_key}
use nyyu_market.Decimal.{Decimal}
use nyyu_market.Models.Candle.{MarkPrice}
use nyyu_market.Time.{Time, hour, day, hour_of, date, date_of}
use nyyu_market.Aggregator.Exchange
use nyyu_market.Aggregator.Exchange.{ExchangeAggregator}

pub record Service (Number : Type 0) : Type 0 where
  pub funding_basis_ema : List (Bytes × Number)
  pub cached : List (MarkPrice Number)
  pub published : List (MarkPrice Number)

-- The hour of the next funding, 0 for midnight.
abbrev pub next_funding_hour : Time → ℕ
next_funding_hour now = let h = (hour_of now / 8 + 1) * 8 in if leb 24 h then 0 else h

-- The next funding: that hour of today, or of tomorrow if it has passed.
unfoldable pub next_funding_time : Time → Time
next_funding_time now =
    let t = date (date_of now) 0 (next_funding_hour now) 0 in if ltb t now then t + 24 * hour else t

module _ (d : Decimal) where
  open d use {Number, zero_value, add, sub, mul, div, is_zero, new_from_int}

  abbrev pub new_service : Service Number
  new_service = record { funding_basis_ema = []; cached = []; published = [] }

  abbrev pub ema_or : Option Number → Number → Number
  ema_or none basis = basis
  ema_or (some ema) basis = ema

  -- Current * α + previous * (1 - α), with α = 2 / (N + 1).
  unfoldable pub next_ema : ℕ → Number → Number → Number
  next_ema ema_period basis previous =
      let alpha = div (new_from_int 2) (new_from_int (ema_period + 1)) in
      add (mul basis alpha) (mul previous (sub (new_from_int 1) alpha))

  -- What is made of an index price, with the average that was stored, if any.
  unfoldable pub mark_price_of : ℕ → Time → Bytes → Number → Option Number → MarkPrice Number
  unfolding next_ema
  mark_price_of ema_period now symbol index_price stored =
      let basis = sub index_price index_price in
      let ema = next_ema ema_period basis (ema_or stored basis) in
      record {
        symbol = symbol;
        mark_price = add index_price ema;
        index_price = index_price;
        last_price = index_price;
        funding_basis = ema;
        estimated_funding_rate = if is_zero index_price then zero_value else div ema index_price;
        next_funding_time = next_funding_time now;
        timestamp = now;
      }

  -- `CalculateMarkPrice`; `none` is its error.
  unfoldable pub calculate_mark_price :
      ℕ
      → Time
      → Bytes
      → ExchangeAggregator Number
      → Service Number
      → Option (MarkPrice Number) × Service Number
  calculate_mark_price ema_period now symbol agg s =
      let (index_price, exchange_count) = Exchange.get_aggregated_price d symbol agg in
      let m = mark_price_of ema_period now symbol index_price (load symbol s.funding_basis_ema) in
      if exchange_count == 0 then (none, s) else (
        some m,
        record s { funding_basis_ema = store symbol m.funding_basis s.funding_basis_ema },
      )

  abbrev pub with_cached :
      Option (MarkPrice Number) × Service Number → Option (MarkPrice Number) × Service Number
  with_cached (none, s) = (none, s)
  with_cached (some m, s) = (some m, record s { cached = s.cached ++ (m ∷ []) })

  -- `GetMarkPrice`, from what the cache has.
  unfoldable pub get_mark_price :
      ℕ
      → Time
      → Option (MarkPrice Number)
      → Bytes
      → ExchangeAggregator Number
      → Service Number
      → Option (MarkPrice Number) × Service Number
  unfolding calculate_mark_price
  get_mark_price ema_period now (some m) symbol agg s = (some m, s)
  get_mark_price ema_period now none symbol agg s =
      with_cached (calculate_mark_price ema_period now symbol agg s)

  abbrev pub with_published : Option (MarkPrice Number) × Service Number → Service Number
  with_published (none, s) = s
  with_published (some m, s) = record s {
    cached = s.cached ++ (m ∷ []);
    published = s.published ++ (m ∷ []);
  }

  -- `UpdateMarkPrice`; a failure of the cache or of the publisher is logged only.
  unfoldable pub update_mark_price :
      ℕ → Time → Bytes → ExchangeAggregator Number → Service Number → Service Number
  unfolding calculate_mark_price
  update_mark_price ema_period now symbol agg s =
      with_published (calculate_mark_price ema_period now symbol agg s)
