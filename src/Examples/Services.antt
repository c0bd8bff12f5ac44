-- ===== src/Examples/Services.antt =====
-- Proxies, mark prices, cached candles and the handlers that users call.
use nyyu_market.Prelude.{
  ℕ, ◌+◌, List, [], ◌∷◌, true, false, Option, none, some, if◌then◌else◌, All, ◌==◌, ◌≡◌, ◌≢◌, inl,
  refl, arith,
}
use nyyu_market.Prelude.Text.{Bytes, codes, bytes_eq, NoColon}
use nyyu_market.Prelude.Strings.{to_upper}
use nyyu_market.Prelude.Maps.{load, bytes_key}
use nyyu_market.Decimal.{units, units-DecimalSums, units-DecimalProducts}
use nyyu_market.Models.Interval.{Interval, m1, m5, text}
use nyyu_market.Models.Candle.{Candle, spot}
use nyyu_market.Proxy.{new_proxy_service, Fetched, get_proxy_list_with_working_first}
use nyyu_market.Proxy.Parse.{IsProxy}
use nyyu_market.Proxy.Served.{Event, serve_all, serve_all-dials}
use nyyu_market.Aggregator.Connection.{World, Dial, Dialed, dial_with_proxy}
use nyyu_market.Aggregator.Exchange.{ExchangeAggregator}
use nyyu_market.Aggregator.Streams.{new_streams}
use nyyu_market.Aggregator.Streams.Counts.{view, is_at}
use nyyu_market.Aggregator.Realtime.{new_realtime_candle_aggregator}
use nyyu_market.MarkPrices.{new_service}
use nyyu_market.MarkPrices.Funding.{IsIndex, update_all, update_all-IsIndex}
use nyyu_market.Candles
use nyyu_market.Candles.{
  Service, LatestQuery, latest_key, or_spot, one, memory_of, batch_create_candles, create_candle,
}
use nyyu_market.Candles.Reading.{batch_create_candles-fresh}
use nyyu_market.Candles.Stale.{create_candle-stale}
use nyyu_market.Grpc.{
  Backend, Server, Channel, is_missing, subscribe_candles, get_candles, get_latest_candle,
}
use nyyu_market.Grpc.Balance.{subscribe_candles-releases, get_candles-adds_user}
use nyyu_market.Examples.{evening, first_minute, second_minute}

abbrev proxy_events : List Event
proxy_events =
    Event.fetch evening (Fetched.answer 200 (codes "10.0.0.1:1080" ∷ codes "# none" ∷ []) true)
    ∷ Event.connected 0
    ∷ []

abbrev proxy_world : World
proxy_world = record {
  proxies = some (get_proxy_list_with_working_first (serve_all proxy_events new_proxy_service));
  dial = λ p. Dial.failed;
  waited = true;
  write = λ i. true;
  active_streams = [];
}

serve_all-dials_example :
    All IsProxy (get_proxy_list_with_working_first (serve_all proxy_events new_proxy_service))
    × (dial_with_proxy proxy_world ≢ Dialed.no_proxies_available)
serve_all-dials_example = serve_all-dials proxy_events proxy_world refl

abbrev quotes : ExchangeAggregator ℕ
quotes = record {
  realtime_agg = new_realtime_candle_aggregator units (some 10);
  interval_agg = none;
  aggregated_prices = (codes "BTCUSDT", (codes "okx", 100) ∷ (codes "kraken", 104) ∷ []) ∷ [];
  pending_candles = [];
}

update_all-IsIndex_example :
    All
      (IsIndex units)
      (update_all units 20 ((evening, codes "BTCUSDT", quotes) ∷ []) (new_service units)).published
update_all-IsIndex_example =
    update_all-IsIndex units units-DecimalSums units-DecimalProducts 20
      ((evening, codes "BTCUSDT", quotes) ∷ [])

-- The database's latest candle, and a cache that has an older one for readers without a source.
abbrev latest : LatestQuery units
latest symbol interval source contract = some second_minute

abbrev cached : Service units
cached = record {
  cache = (latest_key (codes "BTCUSDT") m1 [] spot, one first_minute) ∷ [];
  published = [];
  stats = none;
}

-- An exchange aggregator that has a candle of every symbol but BTCUSDT.
abbrev memory : Bytes → Interval → Option (Candle ℕ)
memory symbol interval = if bytes_eq symbol (codes "BTCUSDT") then none else some first_minute

nothing_for_all : memory_of units (some memory) [] (codes "BTCUSDT") m1 ≡ none
unfolding bytes_eq
nothing_for_all = refl

nothing_for_binance : memory_of units (some memory) (codes "binance") (codes "BTCUSDT") m1 ≡ none
unfolding bytes_eq
nothing_for_binance = refl

batch_create_candles-fresh_example :
    (Candles.get_latest_candle units true latest
      (some memory)
      (codes "BTCUSDT")
      m1
      (codes "binance")
      spot
      (batch_create_candles units true true (second_minute ∷ []) cached).1).0
    ≡ latest (codes "BTCUSDT") m1 (codes "binance") (or_spot spot)
batch_create_candles-fresh_example =
    batch_create_candles-fresh units (second_minute ∷ []) latest (some memory) (codes "BTCUSDT") m1
      (codes "binance") spot cached nothing_for_binance (inl refl)

colon_free : NoColon (codes "BTCUSDT")
colon_free = ground arith

cached-first_minute :
    load (latest_key (codes "BTCUSDT") m1 [] spot) cached.cache ≡ some (one first_minute)
unfolding load bytes_eq text
cached-first_minute = refl

create_candle-stale_example :
    (Candles.get_latest_candle units true latest
      (some memory)
      (codes "BTCUSDT")
      m1
      []
      spot
      (create_candle units true true second_minute cached).1).0
    ≡ some first_minute
create_candle-stale_example =
    create_candle-stale units second_minute first_minute latest (some memory) cached nothing_for_all
      (λ e. cc) refl colon_free (λ e. cc) cached-first_minute

abbrev backend : Backend units
backend = record {
  redis_up = true;
  query = λ symbol interval source contract start stop limit. some (first_minute ∷ []);
  latest = latest;
  available = none;
  memory = some memory;
  exchanges = 6;
  default_limit = 100;
  max_limit = 1000;
}

abbrev server : Server units
server = record { streams = new_streams; service = cached }

-- A stream whose second `Send` fails.
abbrev channel : Channel units
channel = record {
  confirmed = true;
  delivered = some first_minute ∷ none ∷ some second_minute ∷ [];
  send = λ i. i == 0;
}

subscribe_candles-releases_example :
    view
      (subscribe_candles units backend channel (codes "btcusdt") m5 [] server).2.streams
      (codes "BTCUSDT")
      (codes "5m")
    ≡ view new_streams (codes "BTCUSDT") (codes "5m")
unfolding load
subscribe_candles-releases_example =
    subscribe_candles-releases units backend channel (codes "btcusdt") m5 [] server
      (λ y i. omega arith) (codes "BTCUSDT") (codes "5m")

not_missing : is_missing units (codes "btcusdt") m5 ≡ false
unfolding text
not_missing = refl

get_candles-adds_user_example :
    let users =
      if is_at (to_upper (codes "btcusdt")) (text m5) (codes "BTCUSDT") (codes "5m")
      then view new_streams (codes "BTCUSDT") (codes "5m") + 1
      else view new_streams (codes "BTCUSDT") (codes "5m") in
    (view
        (get_candles units backend (codes "btcusdt") m5 [] spot none none 10 server).1.streams
        (codes "BTCUSDT")
        (codes "5m")
      ≡ users)
    × (view
          (get_latest_candle units backend (codes "btcusdt") m5 [] spot server).1.streams
          (codes "BTCUSDT")
          (codes "5m")
        ≡ users)
unfolding load
get_candles-adds_user_example =
    get_candles-adds_user units backend (codes "btcusdt") m5 [] spot none none 10 server memory refl
      not_missing (λ y i. omega arith) (codes "BTCUSDT") (codes "5m")
