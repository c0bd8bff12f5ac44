-- ===== src/Aggregator/Connection.antt =====
-- The connection of one exchange, of internal/services/aggregator/exchange_aggregator.go:
-- `manageExchangeConnection` with `connectExchange`, `dialWithProxy`, `listenExchange` and
-- `handleConnectionError`. What the network answers is a `World`: a parameter of each attempt.
pub mod Backoff
pub mod Attempts
pub mod Reachable
use nyyu_market.Prelude.{
  ℕ, zero, suc, ◌+◌, ◌-◌, ◌*◌, ◌%◌, List, [], ◌∷◌, ◌++◌, Bool, true, false, not, ◌&&◌, Option, none,
  some, if◌then◌else◌, ltb, ◌==◌, length, ◌≡◌,
}
use nyyu_market.Prelude.Text.{Bytes}
use nyyu_market.Prelude.Maps.{store, bytes_key}
use nyyu_market.Time.{Time, Duration, second, unix}
use nyyu_market.Aggregator.Limiter.{
  ExchangeRateLimiter, get_limiter, record_rate_limit_hit, record_success,
}
use nyyu_market.Aggregator.Subscribe.{Message, write_all, subscribe_exchange}

-- `Exchange`, without what never changes but its name; `has_conn` is `conn != nil`. The counters
-- are `int64` in two's complement.
pub record Exchange : Type 0 where
  pub name : Bytes
  pub has_conn : Bool
  pub is_healthy : Bool
  pub msg_count : ℕ
  pub error_count : ℕ
  pub last_update : Time
  pub failure_count : ℕ
  pub last_failure_time : Time
  pub backoff_until : Time
  pub is_connecting : Bool
  pub is_subscribed : Bool
  pub last_connect_time : Time

abbrev pub new_exchange : Bytes → Time → Exchange
new_exchange name now = record {
  name = name;
  has_conn = false;
  is_healthy = false;
  msg_count = 0;
  error_count = 0;
  last_update = now;
  failure_count = 0;
  last_failure_time = 0;
  backoff_until = 0;
  is_connecting = false;
  is_subscribed = false;
  last_connect_time = 0;
}

-- A value of `int64`, below 2 ^ 64.
abbrev pub int64 : ℕ → ℕ
int64 n = n % 18446744073709551616

-- `t.Add(d)`, for a duration that may be negative.
abbrev pub add_duration : Time → ℕ → Time
add_duration t d = if ltb d 9223372036854775808 then t + d else t - (18446744073709551616 - d)

-- `time.Duration(n*n) * time.Second`, at most 60 seconds.
unfoldable pub backoff_duration : ℕ → ℕ
backoff_duration n =
    let d = int64 (int64 (n * n) * second) in
    if ltb (60 * second) d && ltb d 9223372036854775808 then 60 * second else d

-- `handleConnectionError`
unfoldable pub handle_connection_error : Time → Exchange → Exchange
handle_connection_error now ex = record ex {
  is_healthy = false;
  error_count = int64 (ex.error_count + 1);
  failure_count = int64 (ex.failure_count + 1);
  last_failure_time = now;
  backoff_until = add_duration now (backoff_duration (int64 (ex.failure_count + 1)));
}

-- What a dial through a proxy gives.
pub data Dial : Type 0 where
  connected forbidden failed : Dial

-- What `dialWithProxy` returns: the proxy used, or one of its two errors.
pub data Dialed : Type 0 where
  dialed : Bytes → Dialed
  attempts_failed no_proxies_available : Dialed

abbrev pub after_last : Bool → Dialed
after_last true = Dialed.attempts_failed
after_last false = Dialed.no_proxies_available

abbrev pub is_direct : Bytes → Bool
is_direct [] = true
is_direct (c ∷ s) = false

abbrev pub dial_next : ℕ → Bytes → Dial → Dialed → Dialed
dial_next i proxy Dial.connected rest = Dialed.dialed proxy
dial_next i proxy Dial.forbidden rest = rest
dial_next i proxy Dial.failed rest =
    if (i == 0) && is_direct proxy then Dialed.attempts_failed else rest

-- The loop over the proxies; an empty text is no proxy, and `tried` is `lastErr != nil`.
unfoldable pub dial_each : (Bytes → Dial) → ℕ → Bool → List Bytes → Dialed
dial_each dial i tried [] = after_last tried
dial_each dial i tried (proxy ∷ proxies) =
    dial_next i proxy (dial proxy) (dial_each dial (suc i) true proxies)

-- What an attempt meets: the list of the proxy service, if there is one; the answers to a dial, to
-- the rate limiter's `Wait` and to each `WriteJSON`; the active streams.
pub record World : Type 0 where
  pub proxies : Option (List Bytes)
  pub dial : Bytes → Dial
  pub waited : Bool
  pub write : ℕ → Bool
  pub active_streams : List (Bytes × ℕ)

abbrev pub proxy_list : Option (List Bytes) → List Bytes
proxy_list none = [] ∷ []
proxy_list (some proxies) = proxies

-- `dialWithProxy`
unfoldable pub dial_with_proxy : World → Dialed
dial_with_proxy w = dial_each w.dial 0 false (proxy_list w.proxies)

-- The exchange with what it shares with others: the limiters, the proxy that was marked as working
-- and the messages sent.
pub record Link : Type 0 where
  pub exchange : Exchange
  pub limiters : List (Bytes × ExchangeRateLimiter)
  pub working_proxy : Option Bytes
  pub sent : List Message

-- The errors of `connectExchange`.
pub data ConnectError : Type 0 where
  dial_failed limiter_not_found wait_failed subscribe_failed : ConnectError

abbrev pub mark_working : Option (List Bytes) → Bytes → Option Bytes → Option Bytes
mark_working none proxy old = old
mark_working (some proxies) proxy old = if is_direct proxy then old else some proxy

abbrev pub done_connecting : Link × Option ConnectError → Link × Option ConnectError
done_connecting (link, e) =
    (record link { exchange = record link.exchange { is_connecting = false } }, e)

-- The goroutine of an exchange: whether it is in `listenExchange`.
pub record Manager : Type 0 where
  pub link : Link
  pub is_listening : Bool

abbrev pub after_connect : Time → Link × Option ConnectError → Manager
after_connect later (link, none) = record { link = link; is_listening = true }
after_connect later (link, some e) = record {
  link = record link { exchange = handle_connection_error later link.exchange };
  is_listening = false;
}

abbrev pub idle : Link → Manager
idle link = record { link = link; is_listening = false }

-- `listenExchange`: a message, which also goes to the exchange's handler, and a read error.
unfoldable pub on_message : Time → Link → Manager
on_message now link = record {
  link = record link {
    exchange = record link.exchange {
      msg_count = int64 (link.exchange.msg_count + 1);
      last_update = now;
    };
  };
  is_listening = true;
}

unfoldable pub on_read_error : Time → Link → Manager
on_read_error now link = idle (record link { exchange = handle_connection_error now link.exchange })

abbrev pub new_manager : Bytes → Time → List (Bytes × ExchangeRateLimiter) → Manager
new_manager name now limiters = idle (record {
  exchange = new_exchange name now;
  limiters = limiters;
  working_proxy = none;
  sent = [];
})

module _ (grow shrink : Duration → Duration) where
  -- The end of `connectExchange`, from what the subscription gave.
  abbrev pub subscribed :
      Time → ExchangeRateLimiter → List Message × Bool → Link → Link × Option ConnectError
  subscribed now limiter (sent, true) link = (
    record link {
      exchange = record link.exchange { is_subscribed = true };
      limiters = store link.exchange.name (record_success shrink now limiter) link.limiters;
      sent = link.sent ++ sent;
    },
    none,
  )
  subscribed now limiter (sent, false) link = (
    record link {
      exchange = record link.exchange { is_healthy = false };
      limiters = store link.exchange.name (record_rate_limit_hit grow now limiter) link.limiters;
      sent = link.sent ++ sent;
    },
    some ConnectError.subscribe_failed,
  )

  abbrev pub with_limiter :
      World → Time → Option ExchangeRateLimiter → Link → Link × Option ConnectError
  with_limiter w now none link = (link, some ConnectError.limiter_not_found)
  with_limiter w now (some limiter) link =
      if w.waited
      then subscribed now limiter
          (write_all w.write 0 (subscribe_exchange link.exchange.name (unix now) w.active_streams))
          link
      else (link, some ConnectError.wait_failed)

  abbrev pub with_connection : World → Time → Dialed → Link → Link × Option ConnectError
  with_connection w now (Dialed.dialed proxy) link =
      with_limiter w now (get_limiter link.exchange.name link.limiters) (record link {
        working_proxy = mark_working w.proxies proxy link.working_proxy;
        exchange = record link.exchange {
          has_conn = true;
          is_healthy = true;
          last_update = now;
          last_connect_time = now;
          failure_count = 0;
          is_subscribed = false;
        };
      })
  with_connection w now _ link = (link, some ConnectError.dial_failed)

  -- `connectExchange`, all at one instant, with its error.
  unfoldable pub connect_exchange : World → Time → Link → Link × Option ConnectError
  connect_exchange w now link = done_connecting (
      with_connection w now (dial_with_proxy w) (record link {
        exchange = record link.exchange { is_connecting = true; has_conn = false };
      }))

  -- An attempt at the instant `now`, whose error is handled at `later`.
  unfoldable pub attempt : World → Time → Time → Link → Manager
  attempt w now later link = after_connect later (connect_exchange w now link)

  -- The case of `reconnectChan`.
  unfoldable pub on_reconnect : World → Time → Time → Link → Manager
  on_reconnect w now later link =
      let ex = link.exchange in
      if ex.is_connecting
      then idle link
      else (if ex.is_healthy && ltb (now - ex.last_connect_time) (5 * second)
          then idle link
          else (if ltb now ex.backoff_until then idle link else attempt w now later link))

  -- The case of the ticker.
  unfoldable pub on_tick : World → Time → Time → Link → Manager
  on_tick w now later link =
      let ex = link.exchange in
      if ex.is_connecting
      then idle link
      else (if ex.is_healthy && ltb (now - ex.last_update) (60 * second)
          then idle link
          else (if ltb now ex.backoff_until then idle link else attempt w now later link))

  -- One round of the goroutine: out of `listenExchange` it waits for a signal or the ticker, in it for
  -- the connection. Between the rounds others change what they share with it in any way.
  pub data Step : Manager → Manager → Type 0 where
    reconnect :
        (w : World) (now later : Time) (link : Link)
        → Step (idle link) (on_reconnect w now later link)
    tick :
        (w : World) (now later : Time) (link : Link) → Step (idle link) (on_tick w now later link)
    message :
        (now : Time) (link : Link)
        → Step (record { link = link; is_listening = true }) (on_message now link)
    read_error :
        (now : Time) (link : Link)
        → Step (record { link = link; is_listening = true }) (on_read_error now link)
    others :
        (limiters : List (Bytes × ExchangeRateLimiter)) (working_proxy : Option Bytes) (m : Manager)
        → Step m (record m {
          link = record m.link { limiters = limiters; working_proxy = working_proxy };
        })

  -- What a goroutine of an exchange comes to, from its beginning.
  pub data Reaches (name : Bytes) (now : Time) (limiters : List (Bytes × ExchangeRateLimiter))
      : Manager → Type 0 where
    start : Reaches name now limiters (new_manager name now limiters)
    step : {m m' : Manager} → Reaches name now limiters m → Step m m' → Reaches name now limiters m'
