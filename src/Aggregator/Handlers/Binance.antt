-- ===== src/Aggregator/Handlers/Binance.antt =====
-- `processBinanceMessage` of internal/services/aggregator/exchange_aggregator.go, with
-- `json.Unmarshal` into the struct `BinanceKlineMessage`: a key goes to the field that it names, or
-- else to the first field whose name differs only in case; null leaves a field alone, a value of
-- another type too, and is an error. Other keys are skipped. Keys are ASCII.
use nyyu_market.Prelude.{
  ℕ, ◌-◌, List, [], ◌∷◌, Bool, true, false, ◌&&◌, Option, none, some, if◌then◌else◌, ltb, leb,
}
use nyyu_market.Prelude.Text.{Bytes, codes, bytes_eq}
use nyyu_market.Prelude.Strings.{Integer, to_lower}
use nyyu_market.Prelude.Json.{Json, Fields}
use nyyu_market.Prelude.Maps.{load, bytes_key}
use nyyu_market.Decimal.{Decimal}
use nyyu_market.Models.Candle.{Candle, spot}
use nyyu_market.Time.{Time}
use nyyu_market.Aggregator.Subscribe.{parse_interval}
use nyyu_market.Aggregator.Handlers.Report.{parse_decimal, unix_milli}

-- The fields of the struct, by the names of their tags.
pub data TopField : Type 0 where
  event_type symbol kline : TopField

pub data KlineField : Type 0 where
  start_time close_time symbol interval open_str close high : KlineField
  low base_asset_volume number_of_trades is_kline_closed : KlineField
  quote_asset_volume taker_buy_base_volume taker_buy_quote_volume : KlineField

abbrev pub top_tags : List (Bytes × TopField)
top_tags =
    (codes "e", TopField.event_type)
    ∷ (codes "s", TopField.symbol)
    ∷ (codes "k", TopField.kline)
    ∷ []

abbrev pub kline_tags : List (Bytes × KlineField)
kline_tags =
    (codes "t", KlineField.start_time)
    ∷ (codes "T", KlineField.close_time)
    ∷ (codes "s", KlineField.symbol)
    ∷ (codes "i", KlineField.interval)
    ∷ (codes "o", KlineField.open_str)
    ∷ (codes "c", KlineField.close)
    ∷ (codes "h", KlineField.high)
    ∷ (codes "l", KlineField.low)
    ∷ (codes "v", KlineField.base_asset_volume)
    ∷ (codes "n", KlineField.number_of_trades)
    ∷ (codes "x", KlineField.is_kline_closed)
    ∷ (codes "q", KlineField.quote_asset_volume)
    ∷ (codes "V", KlineField.taker_buy_base_volume)
    ∷ (codes "Q", KlineField.taker_buy_quote_volume)
    ∷ []

pub record Kline : Type 0 where
  pub start_time : Integer
  pub close_time : Integer
  pub symbol : Bytes
  pub interval : Bytes
  pub open_str : Bytes
  pub close : Bytes
  pub high : Bytes
  pub low : Bytes
  pub base_asset_volume : Bytes
  pub number_of_trades : Integer
  pub is_kline_closed : Bool
  pub quote_asset_volume : Bytes
  pub taker_buy_base_volume : Bytes
  pub taker_buy_quote_volume : Bytes

pub record BinanceKlineMessage : Type 0 where
  pub event_type : Bytes
  pub symbol : Bytes
  pub kline : Kline

-- The first tag that is the key but for case.
unfoldable pub folded : {F : Type 0} → Bytes → List (Bytes × F) → Option F
folded key [] = none
folded key ((tag, f) ∷ tags) =
    if bytes_eq (to_lower tag) (to_lower key) then some f else folded key tags

abbrev pub or_folded : {F : Type 0} → Option F → Option F → Option F
or_folded (some f) o = some f
or_folded none o = o

unfoldable pub field_of : {F : Type 0} → Bytes → List (Bytes × F) → Option F
field_of key tags = or_folded (load key tags) (folded key tags)

-- What a field holds afterwards, and whether the value fits.
abbrev pub set_string : Json → Bytes → Bytes × Bool
set_string (Json.str s) old = (s, true)
set_string Json.null old = (old, true)
set_string _ old = (old, false)

-- An integer outside of `int64` does not fit.
abbrev pub in_int64 : Integer → Bool
in_int64 (false, n) = ltb n 9223372036854775808
in_int64 (true, n) = leb n 9223372036854775808

abbrev pub set_int : Json → Integer → Integer × Bool
set_int (Json.int n) old = if in_int64 n then (n, true) else (old, false)
set_int Json.null old = (old, true)
set_int _ old = (old, false)

abbrev pub set_bool : Json → Bool → Bool × Bool
set_bool (Json.bool b) old = (b, true)
set_bool Json.null old = (old, true)
set_bool _ old = (old, false)

abbrev pub no_kline : Kline
no_kline = record {
  start_time = (false, 0);
  close_time = (false, 0);
  symbol = [];
  interval = [];
  open_str = [];
  close = [];
  high = [];
  low = [];
  base_asset_volume = [];
  number_of_trades = (false, 0);
  is_kline_closed = false;
  quote_asset_volume = [];
  taker_buy_base_volume = [];
  taker_buy_quote_volume = [];
}

abbrev pub no_message : BinanceKlineMessage
no_message = record { event_type = []; symbol = []; kline = no_kline }

unfoldable pub set_kline_field : Option KlineField → Json → Kline → Kline × Bool
set_kline_field none v k = (k, true)
set_kline_field (some KlineField.start_time) v k =
    let (x, ok) = set_int v k.start_time in (record k { start_time = x }, ok)
set_kline_field (some KlineField.close_time) v k =
    let (x, ok) = set_int v k.close_time in (record k { close_time = x }, ok)
set_kline_field (some KlineField.symbol) v k =
    let (x, ok) = set_string v k.symbol in (record k { symbol = x }, ok)
set_kline_field (some KlineField.interval) v k =
    let (x, ok) = set_string v k.interval in (record k { interval = x }, ok)
set_kline_field (some KlineField.open_str) v k =
    let (x, ok) = set_string v k.open_str in (record k { open_str = x }, ok)
set_kline_field (some KlineField.close) v k =
    let (x, ok) = set_string v k.close in (record k { close = x }, ok)
set_kline_field (some KlineField.high) v k =
    let (x, ok) = set_string v k.high in (record k { high = x }, ok)
set_kline_field (some KlineField.low) v k =
    let (x, ok) = set_string v k.low in (record k { low = x }, ok)
set_kline_field (some KlineField.base_asset_volume) v k =
    let (x, ok) = set_string v k.base_asset_volume in (record k { base_asset_volume = x }, ok)
set_kline_field (some KlineField.number_of_trades) v k =
    let (x, ok) = set_int v k.number_of_trades in (record k { number_of_trades = x }, ok)
set_kline_field (some KlineField.is_kline_closed) v k =
    let (x, ok) = set_bool v k.is_kline_closed in (record k { is_kline_closed = x }, ok)
set_kline_field (some KlineField.quote_asset_volume) v k =
    let (x, ok) = set_string v k.quote_asset_volume in (record k { quote_asset_volume = x }, ok)
set_kline_field (some KlineField.taker_buy_base_volume) v k =
    let (x, ok) = set_string v k.taker_buy_base_volume in
    (record k { taker_buy_base_volume = x }, ok)
set_kline_field (some KlineField.taker_buy_quote_volume) v k =
    let (x, ok) = set_string v k.taker_buy_quote_volume in
    (record k { taker_buy_quote_volume = x }, ok)

unfoldable pub set_kline : Fields → Kline → Kline × Bool
set_kline Fields.end k = (k, true)
set_kline (Fields.field key v fs) k =
    let (k', ok) = set_kline_field (field_of key kline_tags) v k in
    let (k'', ok') = set_kline fs k' in (k'', ok && ok')

unfoldable pub set_field : Option TopField → Json → BinanceKlineMessage → BinanceKlineMessage × Bool
set_field none v m = (m, true)
set_field (some TopField.event_type) v m =
    let (x, ok) = set_string v m.event_type in (record m { event_type = x }, ok)
set_field (some TopField.symbol) v m =
    let (x, ok) = set_string v m.symbol in (record m { symbol = x }, ok)
set_field (some TopField.kline) (Json.obj fs) m =
    let (k, ok) = set_kline fs m.kline in (record m { kline = k }, ok)
set_field (some TopField.kline) Json.null m = (m, true)
set_field (some TopField.kline) _ m = (m, false)

unfoldable pub set_message : Fields → BinanceKlineMessage → BinanceKlineMessage × Bool
set_message Fields.end m = (m, true)
set_message (Fields.field key v fs) m =
    let (m', ok) = set_field (field_of key top_tags) v m in
    let (m'', ok') = set_message fs m' in (m'', ok && ok')

abbrev pub if_ok : BinanceKlineMessage × Bool → Option BinanceKlineMessage
if_ok (m, true) = some m
if_ok (m, false) = none

-- `json.Unmarshal`, from the value of the message; `none` is an error.
unfoldable pub decode : Json → Option BinanceKlineMessage
decode (Json.obj fs) = if_ok (set_message fs no_message)
decode Json.null = some no_message
decode _ = none

-- A number of trades below zero is taken in two's complement.
abbrev pub count_of : Integer → ℕ
count_of (false, n) = n
count_of (true, n) = 18446744073709551616 - n

module _ (d : Decimal) (new_from_string : Bytes → Option d.Number) where
  open d use {Number}

  -- The candle of a message.
  unfoldable pub binance_candle : Time → BinanceKlineMessage → Candle Number
  binance_candle now msg = record {
    symbol = msg.symbol;
    interval = parse_interval msg.kline.interval;
    open_time = unix_milli msg.kline.start_time;
    close_time = unix_milli msg.kline.close_time;
    open_price = parse_decimal d new_from_string msg.kline.open_str;
    high = parse_decimal d new_from_string msg.kline.high;
    low = parse_decimal d new_from_string msg.kline.low;
    close_price = parse_decimal d new_from_string msg.kline.close;
    volume = parse_decimal d new_from_string msg.kline.base_asset_volume;
    quote_volume = parse_decimal d new_from_string msg.kline.quote_asset_volume;
    trade_count = count_of msg.kline.number_of_trades;
    source = codes "binance";
    is_closed = msg.kline.is_kline_closed;
    contract_type = spot;
    created_at = now;
    updated_at = now;
    taker_buy_base_volume = parse_decimal d new_from_string msg.kline.taker_buy_base_volume;
    taker_buy_quote_volume = parse_decimal d new_from_string msg.kline.taker_buy_quote_volume;
  }

  abbrev pub binance_report : Time → Option BinanceKlineMessage → List (Candle Number)
  binance_report now none = []
  binance_report now (some msg) =
      if bytes_eq msg.event_type (codes "kline") then binance_candle now msg ∷ [] else []

  unfoldable pub binance_candles : Time → Option Json → List (Candle Number)
  binance_candles now none = []
  binance_candles now (some v) = binance_report now (decode v)
