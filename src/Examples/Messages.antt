-- ===== src/Examples/Messages.antt =====
-- Messages of the exchanges, and the workers that write batches.
use nyyu_market.Prelude.{
  ℕ, [], ◌∷◌, true, false, Option, some, if◌then◌else◌, ◌≡◌, inl, inr, refl, arith,
}
use nyyu_market.Prelude.Text.{Bytes, codes, bytes_eq}
use nyyu_market.Prelude.Strings.{NoByte, parse_int, to_upper}
use nyyu_market.Prelude.Json.{
  Json, Items, Fields, get, number_or_zero, string_or_empty, bool_or_false,
}
use nyyu_market.Decimal.{units}
use nyyu_market.Models.Interval.{m1, m5}
use nyyu_market.Aggregator.Realtime.{RealtimeCandleAggregator, new_realtime_candle_aggregator}
use nyyu_market.Aggregator.Subscribe.{bybit_topic, okx_arg, insert_before, parse_interval}
use nyyu_market.Aggregator.Exchange.{
  Workers, Writes, WritesAll, new_workers, receive, append_candle, flush_by,
}
use nyyu_market.Aggregator.Exchange.Writing.{IsWriter, taken, WritesAll-IsWriter}
use nyyu_market.Aggregator.Handlers.{process_binance_message}
use nyyu_market.Aggregator.Handlers.Readers.{
  bybit_candles, coinbase_candles, kraken_candles, symbol_of_kraken, okx_candles,
}
use nyyu_market.Aggregator.Handlers.Report.{unix_time, seconds_of}
use nyyu_market.Aggregator.Handlers.Asked.{Reports, seconds_in, messages-Report}
use nyyu_market.Aggregator.Names.{convert_interval_to_kraken}
use nyyu_market.Aggregator.Handlers.EventTime.{process_binance_message-event_time}
use nyyu_market.Aggregator.Handlers.Answers.{
  AreOf, is_read, is_read_of_kraken, full_entries, okx_candles-AreOf,
}
use nyyu_market.Examples.{evening, first_minute, second_minute}

-- Every price is 7.
abbrev seven : Bytes → Option ℕ
seven s = some 7

abbrev binance_fields : Fields
binance_fields =
    Fields.field (codes "e") (Json.str (codes "kline"))
      (Fields.field (codes "E") (Json.int (false, 1700000040000)) Fields.end)

abbrev okx_stream : Fields
okx_stream =
    Fields.field (codes "channel") (Json.str (okx_arg (codes "btcusdt", codes "5m")).0) (
      Fields.field (codes "instId") (Json.str (okx_arg (codes "btcusdt", codes "5m")).1) Fields.end)

abbrev entry : Json
entry =
    let price = Json.str (codes "7") in
    Json.arr (
      Items.cons (Json.str (codes "1700000040000")) (
        Items.cons price (
          Items.cons price
            (Items.cons price (Items.cons price (Items.cons price (Items.cons price Items.nil)))))))

abbrev okx_fields : Fields
okx_fields =
    Fields.field (codes "arg") (Json.obj okx_stream)
      (Fields.field (codes "data") (Json.arr (Items.cons entry Items.nil)) Fields.end)

-- An empty message is Binance's, any other is OKX's.
abbrev unmarshal : Bytes → Option Json
unmarshal [] = some (Json.obj binance_fields)
unmarshal (c ∷ s) = some (Json.obj okx_fields)

abbrev fresh : RealtimeCandleAggregator ℕ
fresh = new_realtime_candle_aggregator units (some 10)

process_binance_message-event_time_example :
    process_binance_message units seven unmarshal evening [] fresh ≡ fresh
process_binance_message-event_time_example =
    process_binance_message-event_time units seven unmarshal evening [] binance_fields
      (false, 1700000040000) fresh refl (inr (inl (refl, refl)))

no_dash : NoByte b'-' (to_upper (codes "btcusdt"))
unfolding to_upper
no_dash = ground arith

okx_candles-AreOf_example :
    AreOf units seven
      (to_upper (codes "btcusdt"))
      (if is_read (parse_interval (codes "5m")) then parse_interval (codes "5m") else m1)
      (full_entries (entry ∷ []))
      (okx_candles units seven evening okx_fields)
unfolding get bytes_eq
okx_candles-AreOf_example =
    okx_candles-AreOf units seven evening okx_fields okx_stream (codes "btcusdt") (codes "5m")
      (entry ∷ []) no_dash refl refl refl refl

-- A candle of five minutes, as three exchanges report it.
abbrev quotes : Fields
quotes = Fields.field (codes "open") (Json.str (codes "7")) (
    Fields.field (codes "time") (Json.int (false, 1700000040)) (
      Fields.field (codes "start") (Json.int (false, 1700000040000))
        (Fields.field (codes "confirm") (Json.bool true) Fields.end)))

abbrev bybit_fields : Fields
bybit_fields =
    Fields.field (codes "topic") (Json.str (bybit_topic (codes "btcusdt", codes "5m")))
      (Fields.field (codes "data") (Json.arr (Items.cons (Json.obj quotes) Items.nil)) Fields.end)

abbrev coinbase_fields : Fields
coinbase_fields = Fields.field (codes "type") (Json.str (codes "candles")) (
    Fields.field (codes "product_id") (Json.str (insert_before b'-' 4 (to_upper (codes "btcusdt"))))
      (Fields.field (codes "granularity") (Json.int (false, seconds_in m5)) (
        Fields.field (codes "candles") (Json.arr (Items.cons (Json.obj quotes) Items.nil))
          Fields.end)))

abbrev kraken_entry : Fields
kraken_entry = Fields.field (codes "symbol") (Json.str (codes "BTC/USD")) (
    Fields.field (codes "interval")
      (Json.int (false, convert_interval_to_kraken (parse_interval (codes "5m"))))
      (Fields.field (codes "ohlc") (Json.obj quotes) Fields.end))

abbrev kraken_fields : Fields
kraken_fields = Fields.field (codes "channel") (Json.str (codes "ohlc")) (
    Fields.field (codes "data") (Json.arr (Items.cons (Json.obj kraken_entry) Items.nil))
      Fields.end)

no_dot : NoByte b'.' (to_upper (codes "btcusdt"))
unfolding to_upper
no_dot = ground arith

messages-Report_example :
    Reports units seven
      (to_upper (codes "btcusdt"))
      (if is_read (parse_interval (codes "5m")) then parse_interval (codes "5m") else m1)
      (unix_time (seconds_of (number_or_zero (get (codes "start") quotes))))
      (bool_or_false (get (codes "confirm") quotes))
      quotes
      (bybit_candles units seven evening bybit_fields)
    × Reports units seven
        (to_upper (codes "btcusdt"))
        m5
        (unix_time (parse_int (string_or_empty (get (codes "start") quotes))))
        false
        quotes
        (coinbase_candles units seven evening coinbase_fields)
    × Reports units seven
        (symbol_of_kraken (codes "BTC/USD"))
        (if is_read_of_kraken (parse_interval (codes "5m"))
          then parse_interval (codes "5m")
          else m1)
        (unix_time (number_or_zero (get (codes "time") quotes)))
        false
        quotes
        (kraken_candles units seven evening kraken_fields)
unfolding get bytes_eq
messages-Report_example =
    messages-Report units seven evening bybit_fields coinbase_fields kraken_fields kraken_entry
      quotes (codes "btcusdt") (codes "5m") (codes "BTC/USD") m5 [] no_dot no_dash refl refl refl
      refl refl refl refl refl refl refl refl refl

-- A candle fills the batch of one; before its worker flushes, the other one takes a candle too.
abbrev two_in_one : Workers ℕ
two_in_one = receive 1 second_minute (receive 1 first_minute new_workers)

both_flush : two_in_one.flushing ≡ 2
unfolding receive append_candle
both_flush = refl

one_flushes : (receive 1 first_minute new_workers).flushing ≡ 1
unfolding receive append_candle
one_flushes = refl

WritesAll-IsWriter_example :
    IsWriter 2 1 (flush_by 1 two_in_one)
    × (taken (flush_by 1 two_in_one).writer ≡ first_minute ∷ second_minute ∷ [])
WritesAll-IsWriter_example = WritesAll-IsWriter (omega arith) (
    WritesAll.step
      (WritesAll.step
        (WritesAll.step WritesAll.start (Writes.candle first_minute new_workers (omega arith)))
        (Writes.candle second_minute (receive 1 first_minute new_workers)
          (omega (arith, one_flushes))))
      (Writes.flush 1 two_in_one both_flush))
