-- ===== src/Aggregator/Realtime/Combine.antt =====
-- The loops over the exchanges' data: `aggregateLiveCandle`, and the sum in `updateLivePrice`.
use nyyu_market.Prelude.{
  ℕ, ◌+◌, List, [], ◌∷◌, Bool, true, false, ◌&&◌, ◌||◌, Option, none, some, if◌then◌else◌, ◌==◌,
  length, ◌≡◌,
}
use nyyu_market.Prelude.Text.{Bytes}
use nyyu_market.Prelude.Choice.{IsChoice}
use nyyu_market.Decimal.{Decimal}
use nyyu_market.Decimal.Extremes.{Le, sum_of}
use nyyu_market.Models.Interval.{Interval}
use nyyu_market.Models.Candle.{Candle, aggregated, spot}
use nyyu_market.Time.{Time}

pub record ExchangeCandleData (Number : Type 0) : Type 0 where
  pub open_price : Number
  pub high : Number
  pub low : Number
  pub close_price : Number
  pub volume : Number
  pub quote_volume : Number
  pub trade_count : ℕ
  pub is_closed : Bool
  pub updated_at : Time

-- The variables of `aggregateLiveCandle`.
pub record Combined (Number : Type 0) : Type 0 where
  pub total_open : Number
  pub total_close : Number
  pub total_volume : Number
  pub total_quote_volume : Number
  pub max_high : Number
  pub min_low : Number
  pub total_trade_count : ℕ
  pub valid_count : ℕ
  pub first_exchange : Bool
  pub any_closed : Bool

module _ (d : Decimal) where
  open d use {Number, zero_value, add, div, greater_than, less_than, is_zero, new_from_int}

  abbrev pub nothing : Combined Number
  nothing = record {
    total_open = zero_value;
    total_close = zero_value;
    total_volume = zero_value;
    total_quote_volume = zero_value;
    max_high = zero_value;
    min_low = zero_value;
    total_trade_count = 0;
    valid_count = 0;
    first_exchange = true;
    any_closed = false;
  }

  -- The callback's guard: data with neither an open nor a close price is skipped.
  abbrev pub is_invalid : ExchangeCandleData Number → Bool
  is_invalid x = is_zero x.open_price && is_zero x.close_price

  -- The callback behind the guard.
  unfoldable pub add_data : Combined Number → ExchangeCandleData Number → Combined Number
  add_data t x =
      let u : Combined Number =
        if t.first_exchange
        then record t { max_high = x.high; min_low = x.low; first_exchange = false }
        else record t {
          max_high = if greater_than x.high t.max_high then x.high else t.max_high;
          min_low = if less_than x.low t.min_low then x.low else t.min_low;
        } in
      record u {
        valid_count = t.valid_count + 1;
        total_open = add t.total_open x.open_price;
        total_close = add t.total_close x.close_price;
        total_volume = add t.total_volume x.volume;
        total_quote_volume = add t.total_quote_volume x.quote_volume;
        total_trade_count = t.total_trade_count + x.trade_count;
        any_closed = if x.is_closed then true else t.any_closed;
      }

  unfoldable pub combine_from :
      Combined Number → List (Bytes × ExchangeCandleData Number) → Combined Number
  combine_from t [] = t
  combine_from t ((exchange, x) ∷ m) = combine_from (if is_invalid x then t else add_data t x) m

  -- The candle that `aggregateLiveCandle` returns; nil if no data is valid.
  abbrev pub candle_of :
      Bytes → Interval → Time → Time → Time → Combined Number → Option (Candle Number)
  candle_of symbol interval open_time close_time now t =
      if t.valid_count == 0
      then none
      else some record {
        symbol = symbol;
        interval = interval;
        open_time = open_time;
        close_time = close_time;
        open_price = div t.total_open (new_from_int t.valid_count);
        high = t.max_high;
        low = t.min_low;
        close_price = div t.total_close (new_from_int t.valid_count);
        volume = t.total_volume;
        quote_volume = t.total_quote_volume;
        trade_count = t.valid_count;
        source = aggregated;
        is_closed = t.any_closed;
        contract_type = spot;
        created_at = now;
        updated_at = now;
        taker_buy_base_volume = zero_value;
        taker_buy_quote_volume = zero_value;
      }

  unfoldable pub combine :
      Bytes
      → Interval
      → Time
      → Time
      → Time
      → List (Bytes × ExchangeCandleData Number)
      → Option (Candle Number)
  combine symbol interval open_time close_time now m =
      candle_of symbol interval open_time close_time now (combine_from nothing m)

  -- The loop of `updateLivePrice`.
  unfoldable pub sum_and_count : Number → ℕ → List (Bytes × Number) → Number × ℕ
  sum_and_count sum count [] = (sum, count)
  sum_and_count sum count ((exchange, p) ∷ m) = sum_and_count (add sum p) (count + 1) m

  -- The data that count.
  abbrev pub valid : List (Bytes × ExchangeCandleData Number) → List (ExchangeCandleData Number)
  valid [] = []
  valid ((exchange, x) ∷ m) = let rest = valid m in if is_invalid x then rest else x ∷ rest

  abbrev pub any_of : List (ExchangeCandleData Number) → Bool
  any_of [] = false
  any_of (x ∷ xs) = x.is_closed || any_of xs

  -- A candle made of valid data `x ∷ xs`: averages of open and close, extremes, sums of the volumes,
  -- the number of exchanges in place of the number of trades, and closed if one of them says so.
  pub record IsCombination (x : ExchangeCandleData Number) (xs : List (ExchangeCandleData Number))
      (c : Candle Number) : Type 0 where
    pub average_open :
        c.open_price ≡ div (sum_of d (λ y. y.open_price) (x ∷ xs)) (new_from_int (length (x ∷ xs)))
    pub average_close :
        c.close_price
        ≡ div (sum_of d (λ y. y.close_price) (x ∷ xs)) (new_from_int (length (x ∷ xs)))
    pub highest : IsChoice (Le d) (λ y. y.high) (x ∷ xs) c.high
    pub lowest : IsChoice (λ a b. Le d b a) (λ y. y.low) (x ∷ xs) c.low
    pub volume_sum : c.volume ≡ sum_of d (λ y. y.volume) (x ∷ xs)
    pub quote_volume_sum : c.quote_volume ≡ sum_of d (λ y. y.quote_volume) (x ∷ xs)
    pub exchanges : c.trade_count ≡ length (x ∷ xs)
    pub closed : c.is_closed ≡ any_of (x ∷ xs)
