-- ===== src/Aggregator/Connection/Backoff.antt =====
-- After a failure no signal and no tick leads to an attempt before the backoff is over.
use nyyu_market.Prelude.{
  ℕ, suc, ◌+◌, ◌*◌, ◌<◌, ◌≤◌, List, Bool, true, false, Option, if◌then◌else◌, ltb, ◌≡◌, ◌∙◌, ap,
  arith,
}
use nyyu_market.Prelude.Text.{Bytes}
use nyyu_market.Time.{Time, Duration, second}
use nyyu_market.Aggregator.Limiter.{ExchangeRateLimiter}
use nyyu_market.Aggregator.Connection.{
  Dialed, World, Link, Exchange, int64, backoff_duration, handle_connection_error, on_read_error,
  on_reconnect, on_tick, dial_with_proxy, connect_exchange, attempt, idle,
}

square-lt : (n : ℕ) → n < 90000 → n * n ≤ 8100000000
square-lt n h = grind arith

-- The seconds that a failure keeps the exchange from connecting.
abbrev pub pause : ℕ → Duration
pause n = if ltb 60 (n * n) then 60 * second else n * n * second

backoff_duration-pause : (n : ℕ) → n < 90000 → backoff_duration n ≡ pause n
unfolding backoff_duration
backoff_duration-pause n h = ground (arith, square-lt n h)

backoff_until-failure :
    (now : Time) (ex : Exchange)
    → ex.failure_count + 1 < 90000
    → (handle_connection_error now ex).backoff_until ≡ now + pause (ex.failure_count + 1)
unfolding handle_connection_error
backoff_until-failure now ex h =
    let n = ex.failure_count + 1 in
    let small : int64 n ≡ n = omega arith in
    rw (small, backoff_duration-pause n h) (ground (arith, square-lt n h))

abbrev pub is_dialed : Dialed → Bool
is_dialed (Dialed.dialed proxy) = true
is_dialed _ = false

module _ (grow shrink : Duration → Duration) where
  -- An exchange has failed so often in a row since it was made or since a dial connected: the
  -- connection was lost, no proxy could be dialed, or one was and the attempt failed behind that.
  -- What it shares with others may change in between.
  pub data Fails : ℕ → Link → Type 0 where
    fresh : (link : Link) → link.exchange.failure_count ≡ 0 → Fails 0 link
    lost :
        {n : ℕ} (now : Time) (link : Link)
        → Fails n link
        → Fails (suc n) (on_read_error now link).link
    not_dialed :
        {n : ℕ} (w : World) (now later : Time) (link : Link)
        → Fails n link
        → is_dialed (dial_with_proxy w) ≡ false
        → Fails (suc n) (attempt grow shrink w now later link).link
    not_subscribed :
        (w : World) (now later : Time) (link : Link)
        → is_dialed (dial_with_proxy w) ≡ true
        → (attempt grow shrink w now later link).is_listening ≡ false
        → Fails 1 (attempt grow shrink w now later link).link
    others :
        {n : ℕ} (limiters : List (Bytes × ExchangeRateLimiter)) (working_proxy : Option Bytes)
        (link : Link)
        → Fails n link
        → Fails n (record link { limiters = limiters; working_proxy = working_proxy })

  -- The failures are counted, and the last one has set the end of the backoff.
  abbrev IsCounted : ℕ → Link → Type 0
  IsCounted n link =
      (link.exchange.failure_count ≡ n)
      × (0 < n → link.exchange.backoff_until ≡ link.exchange.last_failure_time + pause n)

  failure-IsCounted :
      (n : ℕ) (now : Time) (ex : Exchange)
      → suc n < 90000
      → ex.failure_count ≡ n
      → let f = handle_connection_error now ex in
        (f.failure_count ≡ suc n) × (f.backoff_until ≡ f.last_failure_time + pause (suc n))
  unfolding handle_connection_error
  failure-IsCounted n now ex h e =
      let counted : ex.failure_count + 1 ≡ suc n = omega (arith, e) in
      (
        omega (arith, e),
        backoff_until-failure now ex (omega (arith, e)) ∙ ap (λ k. now + pause k) counted,
      )

  not_dialed-failure :
      (w : World) (now later : Time) (link : Link)
      → is_dialed (dial_with_proxy w) ≡ false
      → (attempt grow shrink w now later link).link.exchange
        ≡ handle_connection_error later
            (record link.exchange { is_connecting = false; has_conn = false })
  unfolding attempt connect_exchange
  not_dialed-failure w now later link h = ground (arith, h)

  -- What the error handler was given when an attempt failed behind its dial.
  not_subscribed-failure :
      (w : World) (now later : Time) (link : Link)
      → is_dialed (dial_with_proxy w) ≡ true
      → (attempt grow shrink w now later link).is_listening ≡ false
      → (ex : Exchange) × (ex.failure_count ≡ 0)
        × ((attempt grow shrink w now later link).link.exchange ≡ handle_connection_error later ex)
  unfolding attempt connect_exchange
  not_subscribed-failure w now later link h l = (
    (connect_exchange grow shrink w now link).0.exchange,
    ground (arith, h, l),
    ground (arith, h, l),
  )

  Fails-IsCounted : {n : ℕ} {link : Link} → Fails n link → n < 90000 → IsCounted n link
  unfolding on_read_error
  Fails-IsCounted (Fails.fresh link e) h = (e, λ p. absurd (omega (arith, p)))
  Fails-IsCounted (Fails.lost {n} now link f) h =
      let r = failure-IsCounted n now link.exchange h (Fails-IsCounted f (omega (arith, h))).0 in
      (r.0, λ p. r.1)
  Fails-IsCounted (Fails.not_dialed {n} w now later link f e) h =
      let r =
        failure-IsCounted n later (record link.exchange { is_connecting = false; has_conn = false })
          h (Fails-IsCounted f (omega (arith, h))).0 in
      rw (not_dialed-failure w now later link e) (r.0, λ p. r.1)
  Fails-IsCounted (Fails.not_subscribed w now later link e l) h =
      let (ex, z, q) = not_subscribed-failure w now later link e l in
      let r = failure-IsCounted 0 later ex h z in rw q (r.0, λ p. r.1)
  Fails-IsCounted (Fails.others limiters working_proxy link f) h = Fails-IsCounted f h

  -- When an exchange has failed `n` times in a row, with n from 1 to 89999, a signal or a tick that
  -- comes sooner than n * n seconds, and sooner than a minute, after the last failure leaves
  -- everything as it is.
  pub Fails-waits :
      (n : ℕ) (w : World) (t later : Time) (link : Link)
      → Fails (suc n) link
      → suc n < 90000
      → t < link.exchange.last_failure_time + pause (suc n)
      → (on_reconnect grow shrink w t later link ≡ idle link)
        × (on_tick grow shrink w t later link ≡ idle link)
  unfolding on_reconnect on_tick
  Fails-waits n w t later link f h k =
      let e = (Fails-IsCounted f h).1 (omega arith) in (ground (arith, e), ground (arith, e))
