-- ===== src/Aggregator/Limiter.antt =====
-- internal/services/aggregator/rate_limiter.go: the adaptive backoff of an exchange, and the batcher
-- of subscription requests. The token bucket of golang.org/x/time/rate and the products of a
-- duration with a float64 are parameters. A priority is a number that is not negative.
pub mod Backoff
pub mod Batches
use nyyu_market.Prelude.{
  ℕ, ◌+◌, ◌-◌, ◌*◌, ◌%◌, List, [], ◌∷◌, ◌++◌, map, Bool, true, false, ◌&&◌, Option, none, some,
  if◌then◌else◌, ltb, leb, ◌==◌, length,
}
use nyyu_market.Prelude.Text.{Bytes}
use nyyu_market.Prelude.Maps.{load, store, bytes_key}
use nyyu_market.Models.Interval.{Interval, text}
use nyyu_market.Time.{Time, Duration, second, minute}

-- The fields of `ExchangeRateLimiter` that its methods change; `limiter` and `queue` are not. The
-- counters are `int64` in two's complement.
pub record ExchangeRateLimiter : Type 0 where
  pub name : Bytes
  pub request_count : ℕ
  pub rate_limit_hits : ℕ
  pub last_rate_limit_hit : Time
  pub backoff_duration : Duration
  pub max_backoff : Duration

-- What `RegisterExchange` stores.
unfoldable pub new_exchange_rate_limiter : Bytes → ExchangeRateLimiter
new_exchange_rate_limiter name = record {
  name = name;
  request_count = 0;
  rate_limit_hits = 0;
  last_rate_limit_hit = 0;
  backoff_duration = 0;
  max_backoff = 5 * minute;
}

-- `RateLimiterManager`: its map of limiters.
unfoldable pub register_exchange :
    Bytes → List (Bytes × ExchangeRateLimiter) → List (Bytes × ExchangeRateLimiter)
register_exchange name limiters = store name (new_exchange_rate_limiter name) limiters

-- `GetLimiter`; `none` is the error.
unfoldable pub get_limiter : Bytes → List (Bytes × ExchangeRateLimiter) → Option ExchangeRateLimiter
get_limiter exchange limiters = load exchange limiters

-- `Allow`, from what the token bucket would answer.
unfoldable pub allow : Time → Bool → ExchangeRateLimiter → Bool
allow now limiter_allows e =
    if ltb 0 e.backoff_duration && ltb (now - e.last_rate_limit_hit) e.backoff_duration
    then false
    else limiter_allows

-- `RecordRateLimitHit`; `grow` is the product with `backoffMultiplier`.
unfoldable pub record_rate_limit_hit :
    (Duration → Duration) → Time → ExchangeRateLimiter → ExchangeRateLimiter
record_rate_limit_hit grow now e = record e {
  rate_limit_hits = (e.rate_limit_hits + 1) % 18446744073709551616;
  last_rate_limit_hit = now;
  backoff_duration =
      if e.backoff_duration == 0
      then second
      else (if ltb e.max_backoff (grow e.backoff_duration)
          then e.max_backoff
          else grow e.backoff_duration);
}

-- `RecordSuccess`; `shrink` is the product with 0.9.
unfoldable pub record_success :
    (Duration → Duration) → Time → ExchangeRateLimiter → ExchangeRateLimiter
record_success shrink now e = record e {
  request_count = (e.request_count + 1) % 18446744073709551616;
  backoff_duration =
      if ltb 0 e.backoff_duration
      then (if ltb (5 * minute) (now - e.last_rate_limit_hit)
          then 0
          else (if ltb (shrink e.backoff_duration) second then 0 else shrink e.backoff_duration))
      else e.backoff_duration;
}

-- `SubscriptionRequest`; its callback is not called in this file.
pub record SubscriptionRequest : Type 0 where
  pub exchange : Bytes
  pub symbol : Bytes
  pub interval : Interval
  pub priority : ℕ

-- `SubscriptionBatcher`; `flushed` has the batches that `flushCallback` was started with.
pub record SubscriptionBatcher : Type 0 where
  pub requests : List (Bytes × SubscriptionRequest)
  pub max_batch_size : ℕ
  pub flushed : List (List SubscriptionRequest)

-- `NewSubscriptionBatcher`
unfoldable pub new_subscription_batcher : ℕ → SubscriptionBatcher
new_subscription_batcher max_size = record {
  requests = [];
  max_batch_size = max_size;
  flushed = [];
}

-- `symbol@interval`
unfoldable pub request_key : SubscriptionRequest → Bytes
request_key req = req.symbol ++ (b'@' ∷ text req.interval)

-- `flushLocked`, which `Flush` calls under the lock.
unfoldable pub flush : SubscriptionBatcher → SubscriptionBatcher
flush b =
    if length b.requests == 0
    then b
    else record b { requests = []; flushed = b.flushed ++ (map (λ e. e.1) b.requests ∷ []) }

-- `Add`, from what stands under the request's key.
abbrev pub add_to :
    SubscriptionRequest → SubscriptionBatcher → Option SubscriptionRequest → SubscriptionBatcher
add_to req b (some existing) =
    if ltb existing.priority req.priority
    then record b { requests = store (request_key req) req b.requests }
    else b
add_to req b none =
    let b' : SubscriptionBatcher = record b { requests = store (request_key req) req b.requests } in
    if leb b.max_batch_size (length b'.requests) then flush b' else b'

unfoldable pub add : SubscriptionRequest → SubscriptionBatcher → SubscriptionBatcher
add req b = add_to req b (load (request_key req) b.requests)
