-- ===== src/Aggregator/Handlers/Asked.antt =====
-- What the handlers of Bybit, Coinbase and Kraken read out of a message about a stream that was asked
-- for.
use nyyu_market.Prelude.{
  ℕ, ◌+◌, ◌/◌, List, [], ◌∷◌, ◌++◌, Bool, true, false, Option, none, some, if◌then◌else◌, ◌≡◌, refl,
  ◌∙◌, ap, arith,
}
use nyyu_market.Prelude.Text.{Bytes, codes, bytes_eq}
use nyyu_market.Prelude.Strings.{
  NoByte, split_from, split, cut_prefix, parse_int, to_upper, split-append, split-NoByte,
}
use nyyu_market.Prelude.Json.{
  Json, Fields, get, as_list, as_map, number_or_zero, string_or_empty, bool_or_false,
}
use nyyu_market.Prelude.Maps.{load, nat_key}
use nyyu_market.Decimal.{Decimal}
use nyyu_market.Models.Interval.{Interval, m1, m5, m15, h1, h6, d1}
use nyyu_market.Models.Candle.{Candle}
use nyyu_market.Time.{Time, second}
use nyyu_market.Aggregator.Names.{convert_interval_to_bybit, convert_interval_to_kraken}
use nyyu_market.Aggregator.Subscribe.{bybit_topic, insert_before, parse_interval}
use nyyu_market.Aggregator.Subscribe.Pairs.{strip-insert_before}
use nyyu_market.Aggregator.Handlers.Report.{
  reported, parse_decimal, unix_time, seconds_of, exchange_interval_to_duration,
}
use nyyu_market.Aggregator.Handlers.Answers.{is_read, is_read_of_kraken, intervals_read_back}
use nyyu_market.Aggregator.Handlers.Readers.{
  bybit_candles, coinbase_candles, kraken_candles, kraken_entries, kraken_entry, kraken_candle,
  symbol_of_kraken, interval_of_coinbase, topic_parts, named_quotes,
}

-- The intervals that the handler of Coinbase knows, by their seconds.
abbrev pub is_read_of_coinbase : Interval → Bool
is_read_of_coinbase m1 = true
is_read_of_coinbase m5 = true
is_read_of_coinbase m15 = true
is_read_of_coinbase h1 = true
is_read_of_coinbase h6 = true
is_read_of_coinbase d1 = true
is_read_of_coinbase _ = false

abbrev pub seconds_in : Interval → ℕ
seconds_in i = exchange_interval_to_duration i / second

interval_of_coinbase-seconds :
    (i : Interval)
    → is_read_of_coinbase i ≡ true
    → interval_of_coinbase (some (Json.int (false, seconds_in i))) ≡ i
unfolding interval_of_coinbase exchange_interval_to_duration load
interval_of_coinbase-seconds m1 h = refl
interval_of_coinbase-seconds m5 h = refl
interval_of_coinbase-seconds m15 h = refl
interval_of_coinbase-seconds h1 h = refl
interval_of_coinbase-seconds h6 h = refl
interval_of_coinbase-seconds d1 h = refl
interval_of_coinbase-seconds _ h = absurd (cc)

-- No name of an interval has a dot.
bybit_names : (i : Interval) → NoByte b'.' (convert_interval_to_bybit i)
unfolding convert_interval_to_bybit
bybit_names m1 = ground arith
bybit_names _ = ground arith

topic_read_back :
    (symbol interval : Bytes)
    → NoByte b'.' (to_upper symbol)
    → (cut_prefix (codes "kline.") (bybit_topic (symbol, interval))
        ≡ some (convert_interval_to_bybit (parse_interval interval) ++ (b'.' ∷ to_upper symbol)))
      × (topic_parts (split b'.' (bybit_topic (symbol, interval)))
          ≡ (convert_interval_to_bybit (parse_interval interval), to_upper symbol))
unfolding cut_prefix split_from
topic_read_back symbol interval h =
    let name = convert_interval_to_bybit (parse_interval interval) in
    (
      refl,
      rw
          (
            split-append b'.' name (to_upper symbol) (bybit_names (parse_interval interval)),
            split-NoByte b'.' (to_upper symbol) h,
          )
          refl,
    )

module _ (d : Decimal) (new_from_string : Bytes → Option d.Number) where
  open d use {Number}

  abbrev price : Bytes → Fields → Number
  price name fs = parse_decimal d new_from_string (string_or_empty (get name fs))

  -- A candle of this stream and this period, with the prices and the volume under their names.
  pub record IsReport (symbol : Bytes) (interval : Interval) (open_time : Time) (is_closed : Bool)
      (fs : Fields) (c : Candle Number) : Type 0 where
    pub of_symbol : c.symbol ≡ symbol
    pub of_interval : c.interval ≡ interval
    pub opens : c.open_time ≡ open_time
    pub closes : c.close_time ≡ open_time + exchange_interval_to_duration interval
    pub closed : c.is_closed ≡ is_closed
    pub opened_at : c.open_price ≡ price (codes "open") fs
    pub highest : c.high ≡ price (codes "high") fs
    pub lowest : c.low ≡ price (codes "low") fs
    pub closed_at : c.close_price ≡ price (codes "close") fs
    pub traded : c.volume ≡ price (codes "volume") fs

  -- One candle is reported, and it is this one.
  abbrev pub Reports : Bytes → Interval → Time → Bool → Fields → List (Candle Number) → Type 0
  Reports symbol interval open_time is_closed fs cs =
      (c : Candle Number) × (cs ≡ c ∷ []) × IsReport symbol interval open_time is_closed fs c

  reported-IsReport :
      (now : Time) (source symbol : Bytes) (interval : Interval) (open_time : Time)
      (is_closed : Bool) (fs : Fields)
      → IsReport symbol interval open_time is_closed fs (
          reported d new_from_string now source symbol interval open_time
            (named_quotes fs)
            is_closed)
  unfolding reported
  reported-IsReport now source symbol interval open_time is_closed fs = record {
    of_symbol = refl;
    of_interval = refl;
    opens = refl;
    closes = refl;
    closed = refl;
    opened_at = refl;
    highest = refl;
    lowest = refl;
    closed_at = refl;
    traded = refl;
  }

  module _ (now : Time) where
    bybit_candles-Reports :
        (msg fs : Fields) (symbol interval : Bytes) (vs : List Json)
        → NoByte b'.' (to_upper symbol)
        → get (codes "topic") msg ≡ some (Json.str (bybit_topic (symbol, interval)))
        → as_list (get (codes "data") msg) ≡ some (Json.obj fs ∷ vs)
        → Reports
            (to_upper symbol)
            (if is_read (parse_interval interval) then parse_interval interval else m1)
            (unix_time (seconds_of (number_or_zero (get (codes "start") fs))))
            (bool_or_false (get (codes "confirm") fs))
            fs
            (bybit_candles d new_from_string now msg)
    unfolding bybit_candles bytes_eq
    bybit_candles-Reports msg fs symbol interval vs h t e =
        let (a, b) = topic_read_back symbol interval h in
        (
          _,
          rw (t, bybit_candles, e, a, b, (intervals_read_back (parse_interval interval)).0) refl,
          reported-IsReport now (codes "bybit") (to_upper symbol) _ _ _ fs,
        )

    coinbase_candles-Reports :
        (msg fs : Fields) (symbol : Bytes) (n : ℕ) (i : Interval) (vs : List Json)
        → NoByte b'-' (to_upper symbol)
        → is_read_of_coinbase i ≡ true
        → get (codes "type") msg ≡ some (Json.str (codes "candles"))
        → get (codes "product_id") msg ≡ some (Json.str (insert_before b'-' n (to_upper symbol)))
        → get (codes "granularity") msg ≡ some (Json.int (false, seconds_in i))
        → as_list (get (codes "candles") msg) ≡ some (Json.obj fs ∷ vs)
        → Reports
            (to_upper symbol)
            i
            (unix_time (parse_int (string_or_empty (get (codes "start") fs))))
            false
            fs
            (coinbase_candles d new_from_string now msg)
    unfolding coinbase_candles bytes_eq
    coinbase_candles-Reports msg fs symbol n i vs h r t p g e = (
      _,
      rw
          (
            t,
            p,
            e,
            coinbase_candles,
            g,
            strip-insert_before b'-' n (to_upper symbol) h,
            interval_of_coinbase-seconds i r,
          )
          refl,
      reported-IsReport now (codes "coinbase") (to_upper symbol) i _ false fs,
    )

    kraken_entry-reported :
        (entry fs : Fields) (pair interval : Bytes)
        → get (codes "symbol") entry ≡ some (Json.str pair)
        → get (codes "interval") entry
          ≡ some (Json.int (false, convert_interval_to_kraken (parse_interval interval)))
        → get (codes "ohlc") entry ≡ some (Json.obj fs)
        → kraken_entry d new_from_string now (some entry) []
          ≡ reported d new_from_string now
              (codes "kraken")
              (symbol_of_kraken pair)
              (if is_read_of_kraken (parse_interval interval) then parse_interval interval else m1)
              (unix_time (number_or_zero (get (codes "time") fs)))
              (named_quotes fs)
              false
            ∷ []
    kraken_entry-reported entry fs pair interval p g o =
        ap
          (λ x. elim (as_map x) [
            | some ohlc ↦ kraken_candle d new_from_string now entry ohlc ∷ []
            | none ↦ []
          ])
          o
        ∙ rw (p, g, (intervals_read_back (parse_interval interval)).2) refl

    kraken_candles-Reports :
        (msg entry fs : Fields) (pair interval : Bytes)
        → get (codes "channel") msg ≡ some (Json.str (codes "ohlc"))
        → as_list (get (codes "data") msg) ≡ some (Json.obj entry ∷ [])
        → get (codes "symbol") entry ≡ some (Json.str pair)
        → get (codes "interval") entry
          ≡ some (Json.int (false, convert_interval_to_kraken (parse_interval interval)))
        → get (codes "ohlc") entry ≡ some (Json.obj fs)
        → Reports
            (symbol_of_kraken pair)
            (if is_read_of_kraken (parse_interval interval) then parse_interval interval else m1)
            (unix_time (number_or_zero (get (codes "time") fs)))
            false
            fs
            (kraken_candles d new_from_string now msg)
    unfolding kraken_candles kraken_entries bytes_eq
    kraken_candles-Reports msg entry fs pair interval t e p g o = (
      _,
      rw (t, e) (kraken_entry-reported entry fs pair interval p g o),
      reported-IsReport now (codes "kraken") (symbol_of_kraken pair) _ _ false fs,
    )

    -- Bybit and Coinbase are asked for a stream of a symbol without a dot and a dash, and Kraken
    -- for one under a name of its own. A message of Bybit with the topic that was asked for, one
    -- of Coinbase with the product that was asked for and the seconds of an interval that its
    -- handler knows, and one of Kraken with one entry, with the number that was asked for, report
    -- one candle each: of the symbol in upper case, which Kraken's handler makes of the pair, and
    -- of the interval, or of one minute if Bybit's or Kraken's handler does not know it. It opens
    -- at the time under "start", for Kraken under "time", and lasts the interval. It is closed if
    -- Bybit confirms it, and else not. Each price and the volume is read from the field of its
    -- name.
    pub messages-Report :
        (bybit coinbase kraken entry fs : Fields) (symbol interval pair : Bytes) (i : Interval)
        (vs : List Json)
        → NoByte b'.' (to_upper symbol)
        → NoByte b'-' (to_upper symbol)
        → is_read_of_coinbase i ≡ true
        → get (codes "topic") bybit ≡ some (Json.str (bybit_topic (symbol, interval)))
        → as_list (get (codes "data") bybit) ≡ some (Json.obj fs ∷ vs)
        → get (codes "type") coinbase ≡ some (Json.str (codes "candles"))
        → get (codes "product_id") coinbase
          ≡ some (Json.str (insert_before b'-' 4 (to_upper symbol)))
        → get (codes "granularity") coinbase ≡ some (Json.int (false, seconds_in i))
        → as_list (get (codes "candles") coinbase) ≡ some (Json.obj fs ∷ vs)
        → get (codes "channel") kraken ≡ some (Json.str (codes "ohlc"))
        → as_list (get (codes "data") kraken) ≡ some (Json.obj entry ∷ [])
        → get (codes "symbol") entry ≡ some (Json.str pair)
        → get (codes "interval") entry
          ≡ some (Json.int (false, convert_interval_to_kraken (parse_interval interval)))
        → get (codes "ohlc") entry ≡ some (Json.obj fs)
        → let known = parse_interval interval in
          Reports
            (to_upper symbol)
            (if is_read known then known else m1)
            (unix_time (seconds_of (number_or_zero (get (codes "start") fs))))
            (bool_or_false (get (codes "confirm") fs))
            fs
            (bybit_candles d new_from_string now bybit)
          × Reports
              (to_upper symbol)
              i
              (unix_time (parse_int (string_or_empty (get (codes "start") fs))))
              false
              fs
              (coinbase_candles d new_from_string now coinbase)
          × Reports
              (symbol_of_kraken pair)
              (if is_read_of_kraken known then known else m1)
              (unix_time (number_or_zero (get (codes "time") fs)))
              false
              fs
              (kraken_candles d new_from_string now kraken)
    messages-Report bybit coinbase kraken entry fs symbol interval pair i vs h k r bt bd ct cp cg cd
          kt kd p g o =
        (
          bybit_candles-Reports bybit fs symbol interval vs h bt bd,
          coinbase_candles-Reports coinbase fs symbol 4 i vs k r ct cp cg cd,
          kraken_candles-Reports kraken entry fs pair interval kt kd p g o,
        )
