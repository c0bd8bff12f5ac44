-- ===== src/Aggregator/History/Groups.antt =====
-- What `group1mCandlesByInterval` makes of the candles of one period.
use nyyu_market.Prelude.{ℕ, ◌+◌, List, [], ◌∷◌, true, false, if◌then◌else◌, ◌==◌, ◌≡◌}
use nyyu_market.Prelude.Maps.{nat_key}
use nyyu_market.Prelude.Unique.{Unique}
use nyyu_market.Decimal.{Decimal}
use nyyu_market.Models.Interval.{Interval}
use nyyu_market.Models.Candle.{Candle}
use nyyu_market.Time.{Time, of_unix}
use nyyu_market.Aggregator.Period.{interval_duration}
use nyyu_market.Aggregator.Build.Loop.{Totals}
use nyyu_market.Aggregator.Build.Summary.{IsSummary}
use nyyu_market.Aggregator.History.{group_key}

module _ (d : Decimal) where
  open d use {Number}

  -- The candles of one period, in their order.
  unfoldable pub candles_of_period : Interval → ℕ → List (Candle Number) → List (Candle Number)
  candles_of_period interval key [] = []
  candles_of_period interval key (c ∷ cs) =
      let rest = candles_of_period interval key cs in
      if group_key d interval c == key then c ∷ rest else rest

  -- What a built candle has for its totals.
  abbrev pub totals_of : Candle Number → Totals Number
  totals_of b = record {
    first_candle = false;
    open_price = b.open_price;
    high = b.high;
    low = b.low;
    close_price = b.close_price;
    volume = b.volume;
    quote_volume = b.quote_volume;
    trade_count = b.trade_count;
  }

  -- A closed candle over the period of this key, made of the candles `c ∷ cs`.
  pub record IsBuilt (interval : Interval) (key : ℕ) (c : Candle Number) (cs : List (Candle Number))
      (b : Candle Number) : Type 0 where
    pub of_symbol : b.symbol ≡ c.symbol
    pub of_interval : b.interval ≡ interval
    pub opens : b.open_time ≡ of_unix key
    pub closes : b.close_time ≡ of_unix key + interval_duration interval
    pub closed : b.is_closed ≡ true
    pub summary : IsSummary d c cs (totals_of b)

  abbrev pub IsOfPeriod : Interval → List (Candle Number) → Candle Number → Type 0
  IsOfPeriod interval rows b =
      (key : ℕ) × (c : Candle Number) × (cs : List (Candle Number)) × (candles_of_period interval
          key rows
        ≡ c ∷ cs)
      × IsBuilt interval key c cs b
