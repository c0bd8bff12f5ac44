-- ===== src/Aggregator/Build/Loop.antt =====
-- The loop over the sorted 1m candles: first open, highest high, lowest low, last close, and sums.
use nyyu_market.Prelude.{
  ℕ, map, ◌+◌, List, [], ◌∷◌, Bool, true, false, ◌||◌, none, some, if◌then◌else◌,
}
use nyyu_market.Prelude.Maps.{load, nat_key}
use nyyu_market.Aggregator.Build.Times.{sort_times}
use nyyu_market.Decimal.{Decimal}
use nyyu_market.Models.Candle.{Candle}

-- The loop's variables.
pub record Totals (Number : Type 0) : Type 0 where
  pub first_candle : Bool
  pub open_price : Number
  pub high : Number
  pub low : Number
  pub close_price : Number
  pub volume : Number
  pub quote_volume : Number
  pub trade_count : ℕ

-- `candles1m[t]` for each time; a time that is no key would be a nil pointer, and the times are the
-- map's own keys.
unfoldable pub candles_at : {A : Type 0} → List ℕ → List (ℕ × A) → List A
candles_at [] m = []
candles_at (t ∷ ts) m =
    let rest = candles_at ts m in elim (load t m) [ none ↦ rest | some c ↦ c ∷ rest ]

module _ (d : Decimal) where
  open d use {Number, zero_value, add, greater_than, less_than, is_zero}

  abbrev pub no_totals : Totals Number
  no_totals = record {
    first_candle = true;
    open_price = zero_value;
    high = zero_value;
    low = zero_value;
    close_price = zero_value;
    volume = zero_value;
    quote_volume = zero_value;
    trade_count = 0;
  }

  -- One round of the loop.
  unfoldable pub add_candle : Totals Number → Candle Number → Totals Number
  add_candle t c =
      let u : Totals Number =
        if t.first_candle
        then record t {
          first_candle = false;
          open_price = c.open_price;
          high = c.high;
          low = c.low;
          close_price = c.close_price;
        }
        else record t {
          high = if greater_than c.high t.high then c.high else t.high;
          low = if less_than c.low t.low || is_zero t.low then c.low else t.low;
          close_price = c.close_price;
        } in
      record u {
        volume = add t.volume c.volume;
        quote_volume = add t.quote_volume c.quote_volume;
        trade_count = t.trade_count + c.trade_count;
      }

  unfoldable pub totals_from : Totals Number → List (Candle Number) → Totals Number
  totals_from t [] = t
  totals_from t (c ∷ cs) = totals_from (add_candle t c) cs

  unfoldable pub totals : List (Candle Number) → Totals Number
  totals cs = totals_from no_totals cs

  -- The totals over the stored 1m candles in the order of their open times.
  unfoldable pub building_totals : List (ℕ × Candle d.Number) → Totals d.Number
  building_totals m = totals (candles_at (sort_times (map (λ e. e.0) m)) m)
