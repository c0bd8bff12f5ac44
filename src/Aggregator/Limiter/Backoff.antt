-- ===== src/Aggregator/Limiter/Backoff.antt =====
-- The backoff of an exchange stays within its bounds, and holds requests back.
use nyyu_market.Prelude.{◌+◌, ◌≤◌, ◌<◌, List, [], ◌∷◌, Bool, false, ◌≡◌, ◌⊎◌, inl, refl, arith}
use nyyu_market.Prelude.Text.{Bytes}
use nyyu_market.Time.{Time, Duration, second}
use nyyu_market.Aggregator.Limiter.{
  ExchangeRateLimiter, new_exchange_rate_limiter, allow, record_rate_limit_hit, record_success,
}

-- What happens to an exchange's limiter, and when.
pub data Event : Type 0 where
  hit success : Time → Event

-- The backoff is off, or between a second and the maximum, which is a second at least.
pub record IsBounded (e : ExchangeRateLimiter) : Type 0 where
  pub at_most : e.backoff_duration ≤ e.max_backoff
  pub not_short : (e.backoff_duration ≡ 0) ⊎ (second ≤ e.backoff_duration)
  pub room : second ≤ e.max_backoff

module _ (grow shrink : Duration → Duration) where
  abbrev pub react : Event → ExchangeRateLimiter → ExchangeRateLimiter
  react (Event.hit now) e = record_rate_limit_hit grow now e
  react (Event.success now) e = record_success shrink now e

  unfoldable pub react_all : List Event → ExchangeRateLimiter → ExchangeRateLimiter
  react_all [] e = e
  react_all (x ∷ xs) e = react_all xs (react x e)

  module _ (grows : (b : Duration) → b ≤ grow b) (shrinks : (b : Duration) → shrink b ≤ b) where
    react-IsBounded : (x : Event) (e : ExchangeRateLimiter) → IsBounded e → IsBounded (react x e)
    unfolding record_rate_limit_hit record_success
    react-IsBounded (Event.hit now) e w = record {
      at_most = ground (arith, w.at_most, w.room);
      not_short = ground (arith, w.not_short, w.room, grows e.backoff_duration);
      room = w.room;
    }
    react-IsBounded (Event.success now) e w = record {
      at_most = ground (arith, w.at_most, shrinks e.backoff_duration);
      not_short = ground (arith, w.not_short);
      room = w.room;
    }

    react_all-from :
        (xs : List Event) (e : ExchangeRateLimiter) → IsBounded e → IsBounded (react_all xs e)
    unfolding react_all
    react_all-from [] e w = w
    react_all-from (x ∷ xs) e w = react_all-from xs (react x e) (react-IsBounded x e w)

    -- Whatever sequence of rate limit hits and successes a registered exchange meets, its backoff is
    -- zero or at least a second, and at most the maximum, if `grow` lowers no duration and `shrink`
    -- raises none.
    pub react_all-IsBounded :
        (name : Bytes) (xs : List Event) → IsBounded (react_all xs (new_exchange_rate_limiter name))
    unfolding new_exchange_rate_limiter
    react_all-IsBounded name xs =
        react_all-from xs (new_exchange_rate_limiter name)
          record { at_most = omega arith; not_short = inl refl; room = omega arith }

    -- If `grow` lowers no duration and `shrink` raises none: after any sequence of hits and
    -- successes of a registered exchange that ends in a hit, `Allow` refuses for a second,
    -- whatever the token bucket would answer.
    pub react_all-refuses :
        (name : Bytes) (xs : List Event) (t now : Time) (limiter_allows : Bool)
        → t ≤ now
        → now < t + second
        → allow now limiter_allows
            (record_rate_limit_hit grow t (react_all xs (new_exchange_rate_limiter name)))
          ≡ false
    unfolding allow record_rate_limit_hit
    react_all-refuses name xs t now limiter_allows h k =
        let e = react_all xs (new_exchange_rate_limiter name) in
        let w = react_all-IsBounded name xs in
        ground (arith, w.not_short, w.room, grows e.backoff_duration)
