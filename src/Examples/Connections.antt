-- ===== src/Examples/Connections.antt =====
-- Users of two symbols, and an exchange that connects over a proxy and fails.
use nyyu_market.Prelude.{
  ℕ, ◌+◌, ◌*◌, List, [], ◌∷◌, ◌++◌, true, false, none, some, if◌then◌else◌, map, ◌≡◌, refl, arith,
}
use nyyu_market.Prelude.Text.{Bytes, codes, bytes_eq}
use nyyu_market.Prelude.Maps.{load, bytes_key}
use nyyu_market.Prelude.Strings.{to_upper}
use nyyu_market.Time.{second, unix}
use nyyu_market.Aggregator.Limiter.{ExchangeRateLimiter, new_exchange_rate_limiter, get_limiter}
use nyyu_market.Aggregator.Streams.{Request, serve_all, new_streams, stream_key}
use nyyu_market.Aggregator.Streams.Counts.{view, replay, serve_all-refines}
use nyyu_market.Aggregator.Streams.Shared.{entry, users_of}
use nyyu_market.Aggregator.Streams.Steps.{Matched, serve_all-IsShared}
use nyyu_market.Aggregator.Subscribe.{
  subscribe_exchange, subscribe_binance, subscribe_bybit, subscribe_okx, stream_parts, active,
  binance_stream, bybit_topic, okx_arg, max_streams_per_batch, max_topics_per_batch,
  max_args_per_batch,
}
use nyyu_market.Aggregator.Subscribe.Batches.{
  SentInBatches, topics, channels, subscribe-SentInBatches,
}
use nyyu_market.Aggregator.Connection.{
  World, Link, Dial, Dialed, Step, Reaches, new_exchange, on_tick, on_reconnect, on_read_error,
  attempt, connect_exchange, handle_connection_error, idle, dial_with_proxy, dial_each, proxy_list,
}
use nyyu_market.Aggregator.Connection.Attempts.{
  dial_with_proxy-first, gives_up, first_connected, choice_or, if_empty,
}
use nyyu_market.Aggregator.Connection.Backoff.{Fails, is_dialed, Fails-waits}
use nyyu_market.Aggregator.Connection.Reachable.{
  IsConsistent, AskedWhile, last_round, Reaches-IsConsistent, Reaches-recovers,
}
use nyyu_market.Examples.{evening}
use nyyu_market.Examples.Limits.{half_more, tenth_less}

abbrev requests : List Request
requests =
    Request.subscribe (codes "btcusdt") (codes "1m")
    ∷ Request.subscribe (codes "BTCUSDT") (codes "5m")
    ∷ Request.unsubscribe (codes "BTCUSDT") (codes "1m")
    ∷ []

requests-Matched : Matched requests (λ _ _. 0)
unfolding to_upper bytes_eq
requests-Matched = (omega arith, tt)

serve_all-refines_example :
    view (serve_all 6 requests new_streams) (codes "BTCUSDT") (codes "5m")
    ≡ replay requests (λ _ _. 0) (codes "BTCUSDT") (codes "5m")
serve_all-refines_example =
    serve_all-refines 6 requests (omega arith) (codes "BTCUSDT") (codes "5m")

serve_all-IsShared_example :
    load (stream_key (to_upper (codes "BTCUSDT"))) (serve_all 6 requests new_streams).active_streams
    ≡ entry (users_of (serve_all 6 requests new_streams) (to_upper (codes "BTCUSDT")))
serve_all-IsShared_example =
    serve_all-IsShared 6 requests (omega arith) requests-Matched (codes "BTCUSDT")

abbrev two_streams : List (Bytes × ℕ)
two_streams = (codes "btcusdt@1m", 1) ∷ (codes "ethusdt@1m", 2) ∷ []

subscribe-SentInBatches_example :
    let parts = stream_parts (active two_streams) in
    SentInBatches topics max_streams_per_batch
      (map binance_stream parts)
      (subscribe_binance two_streams)
    × SentInBatches topics max_topics_per_batch
        (map bybit_topic parts)
        (subscribe_bybit two_streams)
    × SentInBatches channels max_args_per_batch (map okx_arg parts) (subscribe_okx two_streams)
subscribe-SentInBatches_example = subscribe-SentInBatches two_streams

-- The first proxy is refused and the second one connects.
abbrev second_proxy : Bytes
second_proxy = codes "http://b:2"

abbrev world : World
world = record {
  proxies = some (codes "http://a:1" ∷ second_proxy ∷ []);
  dial = λ p. if bytes_eq p second_proxy then Dial.connected else Dial.forbidden;
  waited = true;
  write = λ i. true;
  active_streams = two_streams;
}

abbrev limiters : List (Bytes × ExchangeRateLimiter)
limiters = (codes "OKX", new_exchange_rate_limiter (codes "OKX")) ∷ []

abbrev start_link : Link
start_link = record {
  exchange = new_exchange (codes "OKX") evening;
  limiters = limiters;
  working_proxy = none;
  sent = [];
}

dial_with_proxy-first_example : dial_with_proxy world ≡ (
    if gives_up world.dial (proxy_list world.proxies)
    then Dialed.attempts_failed
    else choice_or
        (if_empty (proxy_list world.proxies))
        (first_connected world.dial (proxy_list world.proxies)))
dial_with_proxy-first_example = dial_with_proxy-first world

-- A network in which every proxy refuses.
abbrev refusing : World
refusing = record world { dial = λ p. Dial.forbidden }

abbrev lost_link : Link
lost_link = (on_read_error evening start_link).link

abbrev failed_twice : Link
failed_twice =
    (attempt half_more tenth_less refusing (evening + 5 * second) (evening + 6 * second)
      lost_link).link

no_proxy : is_dialed (dial_with_proxy refusing) ≡ false
unfolding dial_with_proxy dial_each
no_proxy = refl

twice : Fails half_more tenth_less 2 failed_twice
twice =
    Fails.not_dialed refusing (evening + 5 * second) (evening + 6 * second) lost_link
      (Fails.lost evening start_link (Fails.fresh start_link refl)) no_proxy

Fails-waits_example :
    (on_reconnect half_more tenth_less world
        (evening + 9 * second)
        (evening + 10 * second)
        failed_twice
      ≡ idle failed_twice)
    × (on_tick half_more tenth_less world
          (evening + 9 * second)
          (evening + 10 * second)
          failed_twice
        ≡ idle failed_twice)
unfolding attempt connect_exchange dial_with_proxy dial_each on_read_error handle_connection_error
Fails-waits_example =
    Fails-waits half_more tenth_less 1 world (evening + 9 * second) (evening + 10 * second)
      failed_twice twice (omega arith) (ground arith)

abbrev connected_at_once :
    Reaches half_more tenth_less
      (codes "OKX")
      evening
      limiters
      (on_tick half_more tenth_less world evening (evening + second) start_link)
connected_at_once =
    Reaches.step Reaches.start (Step.tick world evening (evening + second) start_link)

Reaches-IsConsistent_example :
    let m = on_tick half_more tenth_less world evening (evening + second) start_link in
    IsConsistent m
    × AskedWhile half_more tenth_less m.is_listening
        (last_round half_more tenth_less connected_at_once)
        m.link
Reaches-IsConsistent_example = Reaches-IsConsistent half_more tenth_less connected_at_once

connects : dial_with_proxy world ≡ Dialed.dialed second_proxy
unfolding dial_with_proxy dial_each bytes_eq
connects = refl

limited : get_limiter (codes "OKX") limiters ≡ some (new_exchange_rate_limiter (codes "OKX"))
unfolding get_limiter load bytes_eq
limited = refl

Reaches-recovers_example :
    let m = on_tick half_more tenth_less world evening (evening + second) start_link in
    (m.is_listening ≡ true)
    × (m.link.sent ≡ [] ++ subscribe_exchange (codes "OKX") (unix evening) two_streams)
Reaches-recovers_example =
    Reaches-recovers half_more tenth_less {name = codes "OKX"} {start = evening}
      {limiters = limiters} world evening (evening + second) start_link second_proxy
      (new_exchange_rate_limiter (codes "OKX")) Reaches.start (omega arith) connects limited refl
      (λ j. refl)
