-- ===== src/Aggregator/Handlers/Report.antt =====
-- What the handlers of internal/services/aggregator/exchange_handlers.go share: times, the table of
-- durations, and the candle that each of them writes out.
use nyyu_market.Prelude.{
  ◌+◌, ◌-◌, ◌*◌, ◌/◌, ◌%◌, List, [], ◌∷◌, Bool, true, false, Option, none, some,
}
use nyyu_market.Prelude.Text.{Bytes, bytes_eq}
use nyyu_market.Prelude.Strings.{Integer}
use nyyu_market.Prelude.Json.{Json, as_string}
use nyyu_market.Decimal.{Decimal}
use nyyu_market.Models.Interval.{
  Interval, m1, m3, m5, m15, m30, h1, h2, h4, h6, h8, h12, d1, d3, w1, mo1,
}
use nyyu_market.Models.Candle.{Candle, spot}
use nyyu_market.Time.{Time, Duration, second, minute, hour, unix_epoch, of_unix}
use nyyu_market.Aggregator.Realtime.{RealtimeCandleAggregator, process_candle_update}

-- `time.Unix(s, 0)`, from the year 1 on.
abbrev pub unix_time : Integer → Time
unix_time (false, s) = of_unix s
unix_time (true, s) = (unix_epoch - s) * second

-- `time.Unix(ms/1000, (ms%1000)*1_000_000)`, whose quotient and remainder have the sign of `ms`.
abbrev pub unix_milli : Integer → Time
unix_milli (false, ms) = of_unix (ms / 1000) + ms % 1000 * 1000000
unix_milli (true, ms) = (unix_epoch - ms / 1000) * second - ms % 1000 * 1000000

-- `ms/1000` of an int64.
abbrev pub seconds_of : Integer → Integer
seconds_of (negative, ms) = (negative, ms / 1000)

-- `ExchangeAggregator.intervalToDuration`
unfoldable pub exchange_interval_to_duration : Interval → Duration
exchange_interval_to_duration m1 = 1 * minute
exchange_interval_to_duration m3 = 3 * minute
exchange_interval_to_duration m5 = 5 * minute
exchange_interval_to_duration m15 = 15 * minute
exchange_interval_to_duration m30 = 30 * minute
exchange_interval_to_duration h1 = 1 * hour
exchange_interval_to_duration h2 = 2 * hour
exchange_interval_to_duration h4 = 4 * hour
exchange_interval_to_duration h6 = 6 * hour
exchange_interval_to_duration h8 = 8 * hour
exchange_interval_to_duration h12 = 12 * hour
exchange_interval_to_duration d1 = 24 * hour
exchange_interval_to_duration d3 = 72 * hour
exchange_interval_to_duration w1 = 168 * hour
exchange_interval_to_duration mo1 = 720 * hour
exchange_interval_to_duration _ = 1 * minute

-- A switch with the default "1m", from what the table of its cases has.
abbrev pub or_1m : Option Interval → Interval
or_1m none = m1
or_1m (some i) = i

-- `s, ok := x.(string); ok && s == text`
abbrev pub is_text : Option Json → Bytes → Bool
is_text x text = elim (as_string x) [ some s ↦ bytes_eq s text | none ↦ false ]

-- The prices and the volume as texts.
pub record Quotes : Type 0 where
  pub open_str : Bytes
  pub high_str : Bytes
  pub low_str : Bytes
  pub close_str : Bytes
  pub volume_str : Bytes

-- `decimal.NewFromString` is a parameter, `none` where it gives an error; zero stands beside that.
module _ (d : Decimal) (new_from_string : Bytes → Option d.Number) where
  open d use {Number, zero_value}

  abbrev pub or_zero_value : Option Number → Number
  or_zero_value none = zero_value
  or_zero_value (some x) = x

  unfoldable pub parse_decimal : Bytes → Number
  parse_decimal s = or_zero_value (new_from_string s)

  -- The literal of a candle in the handlers but Binance's.
  unfoldable pub reported : Time → Bytes → Bytes → Interval → Time → Quotes → Bool → Candle Number
  reported now source symbol interval open_time q is_closed = record {
    symbol = symbol;
    interval = interval;
    open_time = open_time;
    close_time = open_time + exchange_interval_to_duration interval;
    open_price = parse_decimal q.open_str;
    high = parse_decimal q.high_str;
    low = parse_decimal q.low_str;
    close_price = parse_decimal q.close_str;
    volume = parse_decimal q.volume_str;
    quote_volume = zero_value;
    trade_count = 0;
    source = source;
    is_closed = is_closed;
    contract_type = spot;
    created_at = now;
    updated_at = now;
    taker_buy_base_volume = zero_value;
    taker_buy_quote_volume = zero_value;
  }

module _ (d : Decimal) where
  open d use {Number}

  -- `ProcessCandleUpdate` for each candle of a message.
  unfoldable pub process_each :
      Time
      → Bytes
      → List (Candle Number)
      → RealtimeCandleAggregator Number
      → RealtimeCandleAggregator Number
  process_each now exchange [] st = st
  process_each now exchange (c ∷ cs) st =
      process_each now exchange cs (process_candle_update d now exchange c st)
