-- ===== src/Grpc.antt =====
-- internal/grpc/candle_handler.go: the handlers of the market service, over the candle service and
-- the reference counts of the exchange aggregator. Each handler runs as one step; a stream ends when
-- its client is gone or a `Send` fails, and what Redis delivers to it is a list. A request's empty
-- fields are empty, and its limit, if it is negative, is given as zero.
pub mod Balance
use nyyu_market.Prelude.{
  ℕ, suc, ◌+◌, ◌-◌, ◌*◌, ◌/◌, ◌%◌, List, [], ◌∷◌, ◌++◌, Bool, true, false, Option, none, some,
  if◌then◌else◌, ltb, ◌==◌, length, map,
}
use nyyu_market.Prelude.Text.{Bytes, codes}
use nyyu_market.Prelude.Strings.{Integer, is_empty}
use nyyu_market.Decimal.{Decimal}
use nyyu_market.Models.Interval.{Interval, m1, text}
use nyyu_market.Models.Candle.{Candle, Price, spot}
use nyyu_market.Time.{Time, to_unix_milli}
use nyyu_market.Stats.Ring.{Query}
use nyyu_market.Aggregator.Streams.{Streams, subscribe_to_interval, unsubscribe_from_interval}
use nyyu_market.Aggregator.Handlers.Report.{unix_milli}
use nyyu_market.Candles
use nyyu_market.Candles.{Service, LatestQuery, or_spot, convert_candle_to_price}

pub data RpcError : Type 0 where
  invalid_argument not_found failed send_failed internal : RpcError

-- A protobuf `Candle` and a `Price`; decimals are texts and times milliseconds.
pub record PbCandle : Type 0 where
  pub symbol : Bytes
  pub interval : Bytes
  pub open_time : ℕ
  pub close_time : ℕ
  pub open_price : Bytes
  pub high : Bytes
  pub low : Bytes
  pub close_price : Bytes
  pub volume : Bytes
  pub quote_volume : Bytes
  pub trade_count : ℕ
  pub is_closed : Bool
  pub source : Bytes
  pub contract_type : Bytes

pub record PbPrice : Type 0 where
  pub symbol : Bytes
  pub last_price : Bytes
  pub price_change_24h : Bytes
  pub price_change_24h_percent : Bytes
  pub high_24h : Bytes
  pub low_24h : Bytes
  pub volume_24h : Bytes
  pub quote_volume_24h : Bytes
  pub updated_at : Time

-- What the handlers reach: whether Redis answers, the database and the memory of the exchange
-- aggregator, `none` if that is nil.
pub record Backend (d : Decimal) : Type 0 where
  pub redis_up : Bool
  pub query : Query d
  pub latest : LatestQuery d
  pub available : Option (List Bytes)
  pub memory : Option (Bytes → Interval → Option (Candle d.Number))
  pub exchanges : ℕ
  pub default_limit : ℕ
  pub max_limit : ℕ

pub record Server (d : Decimal) : Type 0 where
  pub streams : Streams
  pub service : Service d

-- A stream: whether Redis confirms, what it delivers (`none` cannot be parsed), and which `Send`
-- succeeds.
pub record Channel (d : Decimal) : Type 0 where
  pub confirmed : Bool
  pub delivered : List (Option (Candle d.Number))
  pub send : ℕ → Bool

-- `decimal.String` is a parameter.
module _ (d : Decimal) (to_string : d.Number → Bytes) where
  open d use {Number}

  -- `candleToProto`; the number of trades is an `int32` in two's complement.
  unfoldable pub candle_to_proto : Candle Number → PbCandle
  candle_to_proto c = record {
    symbol = c.symbol;
    interval = text c.interval;
    open_time = to_unix_milli c.open_time;
    close_time = to_unix_milli c.close_time;
    open_price = to_string c.open_price;
    high = to_string c.high;
    low = to_string c.low;
    close_price = to_string c.close_price;
    volume = to_string c.volume;
    quote_volume = to_string c.quote_volume;
    trade_count = c.trade_count % 4294967296;
    is_closed = c.is_closed;
    source = c.source;
    contract_type = c.contract_type;
  }

  -- `priceToProto`
  unfoldable pub price_to_proto : Price Number → PbPrice
  price_to_proto p = record {
    symbol = p.symbol;
    last_price = to_string p.last_price;
    price_change_24h = to_string p.price_change_24h;
    price_change_24h_percent = to_string p.price_change_24p;
    high_24h = to_string p.high_24h;
    low_24h = to_string p.low_24h;
    volume_24h = to_string p.volume_24h;
    quote_volume_24h = to_string p.quote_volume_24h;
    updated_at = p.updated_at;
  }

module _ (d : Decimal) where
  open d use {Number}

  -- `SubscribeToInterval` and `UnsubscribeFromInterval` of the candle service, whose errors the
  -- handlers log: without an exchange aggregator nothing is done.
  unfoldable pub subscribed : Backend d → Bytes → Interval → Server d → Server d
  subscribed b symbol interval s = elim b.memory [
    | some memory ↦ record s {
      streams = subscribe_to_interval b.exchanges symbol (text interval) s.streams;
    }
    | none ↦ s
  ]

  unfoldable pub unsubscribed : Backend d → Bytes → Interval → Server d → Server d
  unsubscribed b symbol interval s = elim b.memory [
    | some memory ↦ record s {
      streams = unsubscribe_from_interval symbol (text interval) s.streams;
    }
    | none ↦ s
  ]

  -- A result of the candle service, or an error.
  pub data Reply (A : Type 0) : Type 0 where
    ok : A → Reply A
    err : RpcError → Reply A

  abbrev pub reply_or : {A : Type 0} → RpcError → Option A → Reply A
  reply_or e none = Reply.err e
  reply_or e (some a) = Reply.ok a

  -- The instant of an optional number of milliseconds.
  abbrev pub time_of : Option ℕ → Time
  time_of none = 0
  time_of (some ms) = unix_milli (false, ms)

  abbrev pub is_missing : Bytes → Interval → Bool
  is_missing symbol interval = if is_empty symbol then true else is_empty (text interval)

  -- `GetCandles`
  unfoldable pub get_candles :
      Backend d
      → Bytes
      → Interval
      → Bytes
      → Bytes
      → Option ℕ
      → Option ℕ
      → ℕ
      → Server d
      → Reply (List (Candle Number)) × Server d
  get_candles b symbol interval source contract start_time end_time limit s =
      let s' = subscribed b symbol interval s in
      let (rows, service) =
        Candles.get_candles d b.default_limit b.max_limit b.redis_up b.query symbol interval source
          (or_spot contract) (time_of start_time) (time_of end_time)
          (if limit == 0 then b.default_limit else limit) s'.service in
      if is_missing symbol interval
      then (Reply.err RpcError.invalid_argument, s)
      else (reply_or RpcError.failed rows, record s' { service = service })

  -- `GetLatestCandle`
  unfoldable pub get_latest_candle :
      Backend d → Bytes → Interval → Bytes → Bytes → Server d → Reply (Candle Number) × Server d
  get_latest_candle b symbol interval source contract s =
      let s' = subscribed b symbol interval s in
      let (c, service) =
        Candles.get_latest_candle d b.redis_up b.latest b.memory symbol interval source
          (or_spot contract) s'.service in
      if is_missing symbol interval
      then (Reply.err RpcError.invalid_argument, s)
      else (reply_or RpcError.failed c, record s' { service = service })

  -- The loop over what Redis delivers, from the number of the next `Send`: what was sent, and whether
  -- the client went before a `Send` failed.
  unfoldable pub forward :
      (ℕ → Bool) → ℕ → List (Option (Candle Number)) → List (Candle Number) × Bool
  forward send i [] = ([], true)
  forward send i (none ∷ cs) = forward send i cs
  forward send i (some c ∷ cs) =
      let (sent, gone) = forward send (suc i) cs in if send i then (c ∷ sent, gone) else ([], false)

  -- The first candle, and then those that are delivered.
  abbrev pub stream_from : Channel d → Option (Candle Number) → List (Candle Number) × Bool
  stream_from ch none = forward ch.send 0 ch.delivered
  stream_from ch (some c) = forward ch.send 0 (some c ∷ ch.delivered)

  abbrev pub end_of : Bool → Option RpcError
  end_of true = none
  end_of false = some RpcError.send_failed

  -- `SubscribeCandles`: the candles sent and the error, if any. The subscription is taken back on
  -- every way out behind it.
  unfoldable pub subscribe_candles :
      Backend d
      → Channel d
      → Bytes
      → Interval
      → Bytes
      → Server d
      → List (Candle Number) × Option RpcError × Server d
  unfolding forward
  subscribe_candles b ch symbol interval source s =
      let s' = subscribed b symbol interval s in
      let (c, service) =
        Candles.get_latest_candle d b.redis_up b.latest b.memory symbol interval source spot
          s'.service in
      let (sent, gone) = stream_from ch c in
      if is_missing symbol interval
      then ([], some RpcError.invalid_argument, s)
      else (if ch.confirmed
          then (sent, end_of gone, unsubscribed b symbol interval (record s' { service = service }))
          else ([], some RpcError.internal, unsubscribed b symbol interval s'))

  -- `GetPrice`
  unfoldable pub get_price : Backend d → Time → Bytes → Server d → Reply (Price Number) × Server d
  get_price b now symbol s =
      let s' = subscribed b symbol m1 s in
      let (p, service) =
        Candles.get_price_ticker d b.redis_up b.query b.latest b.memory now symbol s'.service in
      if is_empty symbol
      then (Reply.err RpcError.invalid_argument, s)
      else (reply_or RpcError.failed p, record s' { service = service })

  unfoldable pub subscribed_each : Backend d → List Bytes → Server d → Server d
  subscribed_each b [] s = s
  subscribed_each b (symbol ∷ symbols) s = subscribed_each b symbols (subscribed b symbol m1 s)

  unfoldable pub unsubscribed_each : Backend d → List Bytes → Server d → Server d
  unsubscribed_each b [] s = s
  unsubscribed_each b (symbol ∷ symbols) s =
      unsubscribed_each b symbols (unsubscribed b symbol m1 s)

  -- `GetPrices`
  unfoldable pub get_prices :
      Backend d → Time → List Bytes → Server d → Reply (List (Price Number)) × Server d
  unfolding subscribed_each
  get_prices b now symbols s =
      let s' = subscribed_each b symbols s in
      let (ps, service) =
        Candles.get_price_tickers d b.redis_up b.query b.latest b.available b.memory now symbols
          s'.service in
      (reply_or RpcError.failed ps, record s' { service = service })

  -- The prices that `SubscribePrices` sends: first those of its symbols, then those of the candles
  -- delivered, with the calculator's statistics as they are then.
  abbrev pub sent_price :
      (ℕ → Bool)
      → ℕ
      → Price Number
      → List (Price Number) × Bool × Service d
      → Service d
      → List (Price Number) × Bool × Service d
  sent_price send i p (sent, gone, service) before =
      if send i then (p ∷ sent, gone, service) else ([], false, before)

  unfoldable pub forward_prices :
      Backend d
      → (ℕ → Bool)
      → Time
      → ℕ
      → List (Option (Candle Number))
      → Service d
      → List (Price Number) × Bool × Service d
  forward_prices b send now i [] service = ([], true, service)
  forward_prices b send now i (none ∷ cs) service = forward_prices b send now i cs service
  forward_prices b send now i (some c ∷ cs) service =
      let (p, service') = convert_candle_to_price d b.query now c service in
      sent_price send i p (forward_prices b send now (suc i) cs service') service'

  unfoldable pub first_prices :
      Backend d
      → (ℕ → Bool)
      → Time
      → ℕ
      → List Bytes
      → List (Option (Candle Number))
      → Service d
      → List (Price Number) × Bool × Service d
  unfolding forward_prices
  first_prices b send now i [] cs service = forward_prices b send now i cs service
  first_prices b send now i (symbol ∷ symbols) cs service =
      let (o, service') =
        Candles.get_price_ticker d b.redis_up b.query b.latest b.memory now symbol service in
      elim o [
        | none ↦ first_prices b send now i symbols cs service'
        | some p ↦
            sent_price send i p (first_prices b send now (suc i) symbols cs service') service'
      ]

  -- `SubscribePrices`, all at one instant.
  unfoldable pub subscribe_prices :
      Backend d
      → Channel d
      → Time
      → List Bytes
      → Server d
      → List (Price Number) × Option RpcError × Server d
  unfolding subscribed_each unsubscribed_each first_prices
  subscribe_prices b ch now symbols s =
      let s' = subscribed_each b symbols s in
      let (sent, gone, service) = first_prices b ch.send now 0 symbols ch.delivered s'.service in
      if length symbols == 0
      then ([], some RpcError.invalid_argument, s)
      else (if ch.confirmed
          then (sent, end_of gone, unsubscribed_each b symbols (record s' { service = service }))
          else ([], some RpcError.internal, unsubscribed_each b symbols s'))
