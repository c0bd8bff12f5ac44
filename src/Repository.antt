-- ===== src/Repository.antt =====
-- internal/repository/candle_repository.go: the queries that are sent to ClickHouse and what is made
-- of its rows. What a query answers is an argument: `none` where it fails, and a row that cannot be
-- scanned is `none`. Times that are written are not before 1970.
pub mod Chronological
use nyyu_market.Prelude.{
  ℕ, List, [], ◌∷◌, ◌++◌, Bool, true, false, ◌&&◌, ◌||◌, not, Option, none, some, if◌then◌else◌,
  ltb, ◌==◌, length, map,
}
use mathlib.Core.List.{reverse}
use nyyu_market.Prelude.Text.{Bytes, codes, bytes_eq}
use nyyu_market.Prelude.Strings.{is_empty}
use nyyu_market.Decimal.{Decimal}
use nyyu_market.Models.Interval.{Interval}
use nyyu_market.Models.Candle.{Candle}
use nyyu_market.Time.{Time, to_unix_milli}
use nyyu_market.Aggregator.Handlers.Report.{parse_decimal}

-- A query: its conditions, with those that are left out as `none`, and whether it has `ORDER BY
-- open_time DESC`, as both have.
pub record CandleQuery : Type 0 where
  pub symbol : Bytes
  pub interval : Interval
  pub contract_type : Bytes
  pub source : Option Bytes
  pub start_time : Option Time
  pub end_time : Option Time
  pub newest_first : Bool
  pub limit : Option ℕ

-- What `Scan` fills in.
pub record Row : Type 0 where
  pub symbol : Bytes
  pub interval : Interval
  pub open_time : Time
  pub close_time : Time
  pub open_price : Bytes
  pub high : Bytes
  pub low : Bytes
  pub close_price : Bytes
  pub volume : Bytes
  pub quote_volume : Bytes
  pub trade_count : ℕ
  pub taker_buy_base_volume : Bytes
  pub taker_buy_quote_volume : Bytes
  pub source : Bytes
  pub is_closed : ℕ
  pub contract_type : Bytes
  pub created_at : Time
  pub updated_at : Time

-- The values that are inserted; times are milliseconds.
pub record InsertRow (Number : Type 0) : Type 0 where
  pub symbol : Bytes
  pub interval : Interval
  pub open_time : ℕ
  pub close_time : ℕ
  pub open_price : Number
  pub high : Number
  pub low : Number
  pub close_price : Number
  pub volume : Number
  pub quote_volume : Number
  pub trade_count : ℕ
  pub taker_buy_base_volume : Number
  pub taker_buy_quote_volume : Number
  pub source : Bytes
  pub is_closed : ℕ
  pub contract_type : Bytes
  pub created_at : ℕ
  pub updated_at : ℕ

-- The source that a query asks for.
abbrev pub source_of : Bytes → Option Bytes
source_of source =
    if not (is_empty source) && not (bytes_eq source (codes "aggregated"))
    then some source
    else none

abbrev pub bound_of : Time → Option Time
bound_of t = if t == 0 then none else some t

abbrev pub limit_of : ℕ → Option ℕ
limit_of limit = if ltb 0 limit then some limit else none

-- The query of `GetCandles`; a limit below zero is given as zero.
abbrev pub candles_query : Bytes → Interval → Bytes → Bytes → Time → Time → ℕ → CandleQuery
candles_query symbol interval source contract_type start_time end_time limit = record {
  symbol = symbol;
  interval = interval;
  contract_type = contract_type;
  source = source_of source;
  start_time = bound_of start_time;
  end_time = bound_of end_time;
  newest_first = true;
  limit = limit_of limit;
}

-- The query of `GetLatestCandle`.
abbrev pub latest_query : Bytes → Interval → Bytes → Bytes → CandleQuery
latest_query symbol interval source contract_type = record {
  symbol = symbol;
  interval = interval;
  contract_type = contract_type;
  source = source_of source;
  start_time = none;
  end_time = none;
  newest_first = true;
  limit = some 1;
}

abbrev pub Database : Type 0
Database = CandleQuery → Option (List (Option Row))

module _ (d : Decimal) (new_from_string : Bytes → Option d.Number) where
  open d use {Number}

  abbrev decimal_of : Bytes → Number
  decimal_of s = parse_decimal d new_from_string s

  -- The candle of a row.
  unfoldable pub candle_of : Row → Candle Number
  candle_of r = record {
    symbol = r.symbol;
    interval = r.interval;
    open_time = r.open_time;
    close_time = r.close_time;
    open_price = decimal_of r.open_price;
    high = decimal_of r.high;
    low = decimal_of r.low;
    close_price = decimal_of r.close_price;
    volume = decimal_of r.volume;
    quote_volume = decimal_of r.quote_volume;
    trade_count = r.trade_count;
    source = r.source;
    is_closed = r.is_closed == 1;
    contract_type = r.contract_type;
    created_at = r.created_at;
    updated_at = r.updated_at;
    taker_buy_base_volume = decimal_of r.taker_buy_base_volume;
    taker_buy_quote_volume = decimal_of r.taker_buy_quote_volume;
  }

  abbrev cons_candle : Row → Option (List (Candle Number)) → Option (List (Candle Number))
  cons_candle r none = none
  cons_candle r (some cs) = some (candle_of r ∷ cs)

  -- The loop over the rows.
  unfoldable pub scan : List (Option Row) → Option (List (Candle Number))
  scan [] = some []
  scan (none ∷ rs) = none
  scan (some r ∷ rs) = cons_candle r (scan rs)

  abbrev pub in_order : Option (List (Candle Number)) → Option (List (Candle Number))
  in_order none = none
  in_order (some cs) = some (reverse cs)

  abbrev pub scanned : Option (List (Option Row)) → Option (List (Candle Number))
  unfolding scan
  scanned none = none
  scanned (some rs) = scan rs

  -- `GetCandles`
  unfoldable pub get_candles :
      Database → Bytes → Interval → Bytes → Bytes → Time → Time → ℕ → Option (List (Candle Number))
  get_candles run symbol interval source contract_type start_time end_time limit =
      in_order (
        scanned
          (run (candles_query symbol interval source contract_type start_time end_time limit)))

  -- `QueryRow` reads the first row; without one, its `Scan` is an error.
  abbrev pub first_row : Option (List (Option Row)) → Option (Candle Number)
  first_row (some (some r ∷ rs)) = some (candle_of r)
  first_row _ = none

  -- `GetLatestCandle`
  unfoldable pub get_latest_candle :
      Database → Bytes → Interval → Bytes → Bytes → Option (Candle Number)
  get_latest_candle run symbol interval source contract_type =
      first_row (run (latest_query symbol interval source contract_type))

module _ (d : Decimal) where
  open d use {Number}

  -- The values of `CreateCandle` and of `BatchCreateCandles`.
  unfoldable pub insert_row : Candle Number → InsertRow Number
  insert_row c = record {
    symbol = c.symbol;
    interval = c.interval;
    open_time = to_unix_milli c.open_time;
    close_time = to_unix_milli c.close_time;
    open_price = c.open_price;
    high = c.high;
    low = c.low;
    close_price = c.close_price;
    volume = c.volume;
    quote_volume = c.quote_volume;
    trade_count = c.trade_count;
    taker_buy_base_volume = c.taker_buy_base_volume;
    taker_buy_quote_volume = c.taker_buy_quote_volume;
    source = c.source;
    is_closed = if c.is_closed then 1 else 0;
    contract_type = c.contract_type;
    created_at = to_unix_milli c.created_at;
    updated_at = to_unix_milli c.updated_at;
  }

  -- Whether the batch takes each of the rows.
  unfoldable pub append_all : (InsertRow Number → Bool) → List (Candle Number) → Bool
  append_all takes [] = true
  append_all takes (c ∷ cs) =
      let rest = append_all takes cs in if takes (insert_row c) then rest else false

  -- `BatchCreateCandles`: whether there is no error, and the rows that are sent. The arguments say
  -- whether the batch can be prepared, takes a row and is sent.
  unfoldable pub batch_create_candles :
      Bool
      → (InsertRow Number → Bool)
      → Bool
      → List (Candle Number)
      → Bool × List (InsertRow Number)
  unfolding append_all insert_row
  batch_create_candles prepared takes sent [] = (true, [])
  batch_create_candles prepared takes sent (c ∷ cs) =
      if prepared && (append_all takes (c ∷ cs) && sent)
      then (true, map insert_row (c ∷ cs))
      else (false, [])
