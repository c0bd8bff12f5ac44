-- ===== src/Aggregator/Handlers/Readers.antt =====
-- The messages of Kraken, Coinbase, Bybit, OKX and Gate.io as
-- internal/services/aggregator/exchange_handlers.go reads them: the candles that a parsed message
-- reports, in order.
use nyyu_market.Prelude.{
  ℕ, List, [], ◌∷◌, true, false, Option, none, some, if◌then◌else◌, ltb, length, get_elem?,
}
use nyyu_market.Prelude.Text.{Bytes, codes}
use nyyu_market.Prelude.Strings.{
  Integer, strip, replace_all, split, split_first, cut_prefix, parse_int,
}
use nyyu_market.Prelude.Json.{
  Json, Fields, get, as_string, as_map, as_list, string_or_empty, number_or_zero, bool_or_false,
}
use nyyu_market.Prelude.Maps.{load, bytes_key, nat_key}
use nyyu_market.Decimal.{Decimal}
use nyyu_market.Models.Interval.{Interval, m1, m5, m15, m30, h1, h4, h6, d1, w1}
use nyyu_market.Models.Candle.{Candle}
use nyyu_market.Time.{Time}
use nyyu_market.Aggregator.Names.{convert_gateio_interval_to_standard}
use nyyu_market.Aggregator.Subscribe.{parse_interval}
use nyyu_market.Aggregator.Handlers.Report.{Quotes, reported, unix_time, seconds_of, or_1m, is_text}

-- The fields of a map that hold prices.
abbrev pub quotes_of : Bytes → Bytes → Bytes → Bytes → Bytes → Fields → Quotes
quotes_of o h l c v fs = record {
  open_str = string_or_empty (get o fs);
  high_str = string_or_empty (get h fs);
  low_str = string_or_empty (get l fs);
  close_str = string_or_empty (get c fs);
  volume_str = string_or_empty (get v fs);
}

abbrev pub named_quotes : Fields → Quotes
named_quotes =
    quotes_of (codes "open") (codes "high") (codes "low") (codes "close") (codes "volume")

-- The switches on a float64 and on a string.
abbrev pub number_case : Integer → List (ℕ × Interval) → Interval
number_case (true, n) cases = m1
number_case (false, n) cases = or_1m (load n cases)

-- Kraken's `BTC/USD` as BTCUSDT.
unfoldable pub symbol_of_kraken : Bytes → Bytes
symbol_of_kraken s = replace_all (codes "USD") (codes "USDT") (strip b'/' s)

unfoldable pub interval_of_kraken : Integer → Interval
interval_of_kraken minutes =
    number_case minutes
      ((1, m1) ∷ (5, m5) ∷ (15, m15) ∷ (30, m30) ∷ (60, h1) ∷ (240, h4) ∷ (1440, d1) ∷ [])

unfoldable pub interval_of_coinbase : Option Json → Interval
interval_of_coinbase granularity =
    number_case (number_or_zero granularity)
      ((60, m1) ∷ (300, m5) ∷ (900, m15) ∷ (3600, h1) ∷ (21600, h6) ∷ (86400, d1) ∷ [])

unfoldable pub interval_of_bybit : Bytes → Interval
interval_of_bybit s = or_1m (
    load s (
      (codes "1", m1)
      ∷ (codes "5", m5)
      ∷ (codes "15", m15)
      ∷ (codes "30", m30)
      ∷ (codes "60", h1)
      ∷ (codes "240", h4)
      ∷ (codes "D", d1)
      ∷ (codes "W", w1)
      ∷ []))

-- The switch on what follows "candle".
abbrev pub okx_case : Option Bytes → Interval
okx_case none = m1
okx_case (some s) = or_1m (
    load s (
      (codes "1m", m1)
      ∷ (codes "5m", m5)
      ∷ (codes "15m", m15)
      ∷ (codes "30m", m30)
      ∷ (codes "1H", h1)
      ∷ (codes "4H", h4)
      ∷ (codes "1D", d1)
      ∷ (codes "1W", w1)
      ∷ []))

unfoldable pub interval_of_okx : Bytes → Interval
interval_of_okx channel = okx_case (cut_prefix (codes "candle") channel)

-- The second and the third part of a topic of three parts at least; empty texts of another one.
abbrev pub topic_parts : List Bytes → Bytes × Bytes
topic_parts (kind ∷ interval ∷ symbol ∷ rest) = (interval, symbol)
topic_parts _ = ([], [])

abbrev pub first_map : List Json → Option Fields
first_map [] = none
first_map (v ∷ vs) = as_map (some v)

module _ (d : Decimal) (new_from_string : Bytes → Option d.Number) where
  open d use {Number}

  -- One entry of Kraken's data.
  abbrev pub kraken_candle : Time → Fields → Fields → Candle Number
  kraken_candle now ohlc_data ohlc =
      reported d new_from_string now (codes "kraken")
        (symbol_of_kraken (string_or_empty (get (codes "symbol") ohlc_data)))
        (interval_of_kraken (number_or_zero (get (codes "interval") ohlc_data)))
        (unix_time (number_or_zero (get (codes "time") ohlc))) (named_quotes ohlc) false

  abbrev pub kraken_entry : Time → Option Fields → List (Candle Number) → List (Candle Number)
  kraken_entry now none rest = rest
  kraken_entry now (some ohlc_data) rest = elim (as_map (get (codes "ohlc") ohlc_data)) [
    | some ohlc ↦ kraken_candle now ohlc_data ohlc ∷ rest
    | none ↦ rest
  ]

  unfoldable pub kraken_entries : Time → List Json → List (Candle Number)
  kraken_entries now [] = []
  kraken_entries now (v ∷ vs) = kraken_entry now (as_map (some v)) (kraken_entries now vs)

  unfoldable pub kraken_candles : Time → Fields → List (Candle Number)
  kraken_candles now msg =
      if is_text (get (codes "channel") msg) (codes "ohlc")
      then (elim (as_list (get (codes "data") msg)) [ some vs ↦ kraken_entries now vs | none ↦ [] ])
      else []

  abbrev pub coinbase_candle : Time → Bytes → Fields → Fields → Candle Number
  coinbase_candle now product_id msg data' =
      reported d new_from_string now (codes "coinbase") (strip b'-' product_id)
        (interval_of_coinbase (get (codes "granularity") msg))
        (unix_time (parse_int (string_or_empty (get (codes "start") data')))) (named_quotes data')
        false

  abbrev pub coinbase_report :
      Time → Fields → Option Bytes → Option (List Json) → List (Candle Number)
  coinbase_report now msg (some product_id) (some vs) = elim (first_map vs) [
    | some data' ↦ coinbase_candle now product_id msg data' ∷ []
    | none ↦ []
  ]
  coinbase_report now msg _ _ = []

  unfoldable pub coinbase_candles : Time → Fields → List (Candle Number)
  coinbase_candles now msg =
      if is_text (get (codes "type") msg) (codes "candles")
      then coinbase_report now msg (as_string (get (codes "product_id") msg))
          (as_list (get (codes "candles") msg))
      else []

  abbrev pub bybit_candle : Time → Bytes × Bytes → Fields → Candle Number
  bybit_candle now (interval, symbol) data' =
      reported d new_from_string now (codes "bybit") symbol (interval_of_bybit interval)
        (unix_time (seconds_of (number_or_zero (get (codes "start") data')))) (named_quotes data')
        (bool_or_false (get (codes "confirm") data'))

  abbrev pub bybit_report : Time → Bytes → Option Bytes → Option (List Json) → List (Candle Number)
  bybit_report now topic (some rest) (some vs) = elim (first_map vs) [
    | some data' ↦ bybit_candle now (topic_parts (split b'.' topic)) data' ∷ []
    | none ↦ []
  ]
  bybit_report now topic _ _ = []

  unfoldable pub bybit_candles : Time → Fields → List (Candle Number)
  bybit_candles now msg = elim (as_string (get (codes "topic") msg)) [
    | some topic ↦
        bybit_report now topic (cut_prefix (codes "kline.") topic)
          (as_list (get (codes "data") msg))
    | none ↦ []
  ]

  -- The symbol and the channel in OKX's `arg`.
  abbrev pub okx_symbol : Option Fields → Bytes
  okx_symbol none = []
  okx_symbol (some arg) = strip b'-' (string_or_empty (get (codes "instId") arg))

  abbrev pub okx_channel : Option Fields → Bytes
  okx_channel none = []
  okx_channel (some arg) = string_or_empty (get (codes "channel") arg)

  abbrev pub okx_quotes : List Json → Quotes
  okx_quotes vs = record {
    open_str = string_or_empty (get_elem? vs 1);
    high_str = string_or_empty (get_elem? vs 2);
    low_str = string_or_empty (get_elem? vs 3);
    close_str = string_or_empty (get_elem? vs 4);
    volume_str = string_or_empty (get_elem? vs 5);
  }

  abbrev pub okx_candle : Time → Fields → List Json → Candle Number
  okx_candle now msg vs =
      let arg = as_map (get (codes "arg") msg) in
      reported d new_from_string now (codes "okx") (okx_symbol arg)
        (interval_of_okx (okx_channel arg))
        (unix_time (seconds_of (parse_int (string_or_empty (get_elem? vs 0))))) (okx_quotes vs)
        false

  abbrev pub okx_entry :
      Time → Fields → Option (List Json) → List (Candle Number) → List (Candle Number)
  okx_entry now msg none rest = rest
  okx_entry now msg (some vs) rest =
      if ltb (length vs) 7 then rest else okx_candle now msg vs ∷ rest

  unfoldable pub okx_entries : Time → Fields → List Json → List (Candle Number)
  okx_entries now msg [] = []
  okx_entries now msg (v ∷ vs) = okx_entry now msg (as_list (some v)) (okx_entries now msg vs)

  unfoldable pub okx_candles : Time → Fields → List (Candle Number)
  okx_candles now msg = elim (as_list (get (codes "data") msg)) [
    | some vs ↦ okx_entries now msg vs
    | none ↦ []
  ]

  abbrev pub gateio_candle : Time → Fields → Bytes × Bytes → Candle Number
  gateio_candle now result (gate_interval, gate_pair) =
      reported d new_from_string now (codes "gateio") (strip b'_' gate_pair)
        (parse_interval (convert_gateio_interval_to_standard gate_interval))
        (unix_time (parse_int (string_or_empty (get (codes "t") result))))
        (quotes_of (codes "o") (codes "h") (codes "l") (codes "c") (codes "v") result)
        (bool_or_false (get (codes "w") result))

  abbrev pub gateio_report : Time → Fields → Option Bytes → List (Candle Number)
  gateio_report now result none = []
  gateio_report now result (some currency_pair) = elim (split_first b'_' currency_pair) [
    | some parts ↦ gateio_candle now result parts ∷ []
    | none ↦ []
  ]

  unfoldable pub gateio_candles : Time → Fields → List (Candle Number)
  gateio_candles now msg =
      if is_text (get (codes "event") msg) (codes "update")
      then (elim (as_map (get (codes "result") msg)) [
        | some result ↦ gateio_report now result (as_string (get (codes "n") result))
        | none ↦ []
      ])
      else []
