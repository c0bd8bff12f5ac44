-- ===== src/Aggregator/Subscribe.antt =====
-- The six `subscribe` methods of internal/services/aggregator/exchange_aggregator.go and
-- exchange_handlers.go: which messages an exchange is sent for the active streams. Texts are ASCII.
-- `write i` is whether the i-th `WriteJSON` on the connection succeeds; the waits between messages
-- are left out. The order of the list of streams is the order in which Go reads the map.
pub mod Batches
pub mod Pairs
use nyyu_market.Prelude.{
  ℕ, zero, suc, ◌+◌, ◌-◌, ◌/◌, List, [], ◌∷◌, ◌++◌, map, Bool, true, false, ◌&&◌, Option, none,
  some, if◌then◌else◌, ltb, ◌==◌, length,
}
use nyyu_market.Prelude.Text.{Bytes, codes, bytes_eq}
use nyyu_market.Prelude.Strings.{to_upper, to_lower, split, strip, replace_all}
use nyyu_market.Prelude.Lists.{take, drop}
use nyyu_market.Prelude.Maps.{load, store, bytes_key}
use nyyu_market.Prelude.Int32.{is_positive}
use nyyu_market.Models.Interval.{Interval, text, valid_intervals, other}
use nyyu_market.Aggregator.Names.{
  convert_interval_to_kraken, convert_interval_to_coinbase, convert_interval_to_bybit,
  convert_interval_to_okx, convert_interval_to_gateio,
}

-- What `WriteJSON` is given.
pub data Message : Type 0 where
  binance_subscribe : List Bytes → ℕ → Message
  kraken_subscribe : Bytes → ℕ → Message
  coinbase_subscribe : List Bytes → Bytes → Message
  bybit_subscribe : List Bytes → Message
  okx_subscribe : List (Bytes × Bytes) → Message
  gateio_subscribe : ℕ → Bytes → Bytes → Message

-- The messages sent until one fails, and whether none did.
unfoldable pub write_all : (ℕ → Bool) → ℕ → List Message → List Message × Bool
write_all write i [] = ([], true)
write_all write i (m ∷ ms) =
    let (sent, ok) = write_all write (suc i) ms in if write i then (m ∷ sent, ok) else ([], false)

-- The streams with active users.
unfoldable pub active : List (Bytes × ℕ) → List Bytes
active [] = []
active ((stream, ref_count) ∷ m) =
    let rest = active m in if is_positive ref_count then stream ∷ rest else rest

-- `for i := 0; i < len(xs); i += n`, with `end` at the end of the list at most; on fuel.
unfoldable pub batches_from {ℓ} : {A : Type ℓ} → ℕ → ℕ → ℕ → List A → List (List A)
batches_from zero n i xs = []
batches_from (suc fuel) n i xs =
    let end' = if ltb (length xs) (i + n) then length xs else i + n in
    let rest = batches_from fuel n (i + n) xs in
    if ltb i (length xs) then take (end' - i) (drop i xs) ∷ rest else []

-- One round for each entry, and one more to see the end.
abbrev pub batches {ℓ} : {A : Type ℓ} → ℕ → List A → List (List A)
batches n xs = batches_from (suc (length xs)) n 0 xs

abbrev pub find_interval : Bytes → List Interval → Interval
find_interval s [] = other s
find_interval s (i ∷ is) = let rest = find_interval s is in if bytes_eq s (text i) then i else rest

-- The string as an interval.
unfoldable pub parse_interval : Bytes → Interval
parse_interval s = find_interval s valid_intervals

-- A key with two parts is put in front; one with any other number of parts is skipped.
abbrev pub put_parts : List Bytes → List (Bytes × Bytes) → List (Bytes × Bytes)
put_parts (symbol ∷ interval ∷ []) rest = (symbol, interval) ∷ rest
put_parts _ rest = rest

-- The two parts of each stream's key.
unfoldable pub stream_parts : List Bytes → List (Bytes × Bytes)
stream_parts [] = []
stream_parts (stream ∷ streams) = put_parts (split b'@' stream) (stream_parts streams)

-- `pair[:len(pair)-n] + sep + pair[len(pair)-n:]` for a longer text.
unfoldable pub insert_before : ℕ → ℕ → Bytes → Bytes
insert_before sep n pair =
    if ltb n (length pair)
    then take (length pair - n) pair ++ (sep ∷ drop (length pair - n) pair)
    else pair

abbrev pub max_streams_per_batch : ℕ
max_streams_per_batch = 200

abbrev pub max_products_per_batch : ℕ
max_products_per_batch = 50

abbrev pub max_topics_per_batch : ℕ
max_topics_per_batch = 10

abbrev pub max_args_per_batch : ℕ
max_args_per_batch = 20

abbrev pub binance_stream : Bytes × Bytes → Bytes
binance_stream (symbol, interval) = to_lower symbol ++ codes "@kline_" ++ interval

-- Messages with the numbers from `id` on.
abbrev pub number_batches : ℕ → List (List Bytes) → List Message
number_batches id [] = []
number_batches id (batch ∷ bs) = Message.binance_subscribe batch id ∷ number_batches (suc id) bs

-- `subscribeBinance`
unfoldable pub subscribe_binance : List (Bytes × ℕ) → List Message
subscribe_binance active_streams =
    number_batches 1
      (batches max_streams_per_batch (map binance_stream (stream_parts (active active_streams))))

-- BTCUSDT as BTC/USD.
unfoldable pub kraken_symbol : Bytes → Bytes
kraken_symbol symbol = insert_before b'/' 3 (replace_all (codes "USDT") (codes "USD") symbol)

abbrev pub kraken_message : Bytes × Bytes → Message
kraken_message (symbol, interval) =
    Message.kraken_subscribe (kraken_symbol (to_upper symbol))
      (convert_interval_to_kraken (parse_interval interval))

-- `subscribeKraken`
unfoldable pub subscribe_kraken : List (Bytes × ℕ) → List Message
subscribe_kraken active_streams = map kraken_message (stream_parts (active active_streams))

abbrev pub add_product : Option (List Bytes) → Bytes → List Bytes
add_product none pair = pair ∷ []
add_product (some pairs) pair = pairs ++ (pair ∷ [])

-- The products by Coinbase's name of their interval.
unfoldable pub interval_groups :
    List (Bytes × Bytes) → List (Bytes × List Bytes) → List (Bytes × List Bytes)
interval_groups [] groups = groups
interval_groups ((symbol, interval) ∷ streams) groups =
    let pair = insert_before b'-' 4 (to_upper symbol) in
    let name = convert_interval_to_coinbase (parse_interval interval) in
    interval_groups streams (store name (add_product (load name groups) pair) groups)

unfoldable pub coinbase_messages : List (Bytes × List Bytes) → List Message
coinbase_messages [] = []
coinbase_messages ((name, products) ∷ groups) =
    map (λ batch. Message.coinbase_subscribe batch name) (batches max_products_per_batch products)
    ++ coinbase_messages groups

-- `subscribeCoinbase`
unfoldable pub subscribe_coinbase : List (Bytes × ℕ) → List Message
subscribe_coinbase active_streams =
    coinbase_messages (interval_groups (stream_parts (active active_streams)) [])

abbrev pub bybit_topic : Bytes × Bytes → Bytes
bybit_topic (symbol, interval) =
    codes "kline."
    ++ convert_interval_to_bybit (parse_interval interval)
    ++ (b'.' ∷ to_upper symbol)

-- `subscribeBybit`
unfoldable pub subscribe_bybit : List (Bytes × ℕ) → List Message
subscribe_bybit active_streams =
    map Message.bybit_subscribe
      (batches max_topics_per_batch (map bybit_topic (stream_parts (active active_streams))))

-- The channel and the instrument of an argument.
abbrev pub okx_arg : Bytes × Bytes → Bytes × Bytes
okx_arg (symbol, interval) =
    (convert_interval_to_okx (parse_interval interval), insert_before b'-' 4 (to_upper symbol))

-- `subscribeOKX`
unfoldable pub subscribe_okx : List (Bytes × ℕ) → List Message
subscribe_okx active_streams =
    map Message.okx_subscribe
      (batches max_args_per_batch (map okx_arg (stream_parts (active active_streams))))

abbrev pub gateio_message : ℕ → Bytes × Bytes → Message
gateio_message unix_time (symbol, interval) =
    Message.gateio_subscribe unix_time (convert_interval_to_gateio (parse_interval interval))
      (insert_before b'_' 4 (to_upper symbol))

-- `subscribeGateIO`; all messages carry one time.
unfoldable pub subscribe_gateio : ℕ → List (Bytes × ℕ) → List Message
subscribe_gateio unix_time active_streams =
    map (gateio_message unix_time) (stream_parts (active active_streams))

-- The `switch ex.Name` of `connectExchange`; another name is sent nothing.
unfoldable pub subscribe_exchange : Bytes → ℕ → List (Bytes × ℕ) → List Message
subscribe_exchange name unix_time active_streams =
    if bytes_eq name (codes "Binance")
    then subscribe_binance active_streams
    else (if bytes_eq name (codes "Kraken")
        then subscribe_kraken active_streams
        else (if bytes_eq name (codes "Coinbase")
            then subscribe_coinbase active_streams
            else (if bytes_eq name (codes "Bybit")
                then subscribe_bybit active_streams
                else (if bytes_eq name (codes "OKX")
                    then subscribe_okx active_streams
                    else (if bytes_eq name (codes "Gate.io")
                        then subscribe_gateio unix_time active_streams
                        else [])))))
