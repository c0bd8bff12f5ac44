-- ===== src/Aggregator/Connection/Reachable.antt =====
-- What holds between the rounds of an exchange's goroutine, whatever the network answers.
use nyyu_market.Prelude.{
  ℕ, ◌≤◌, List, ◌++◌, Bool, Option, true, false, none, some, ◌≡◌, refl, arith,
}
use nyyu_market.Prelude.Text.{Bytes}
use nyyu_market.Time.{Time, Duration, unix}
use nyyu_market.Aggregator.Limiter.{ExchangeRateLimiter, get_limiter}
use nyyu_market.Aggregator.Subscribe.{subscribe_exchange}
use nyyu_market.Aggregator.Connection.Attempts.{IsAsked, attempt-IsAsked, attempt-listens}
use nyyu_market.Aggregator.Connection.{
  Dialed, World, Link, Manager, Step, Reaches, dial_with_proxy, connect_exchange, attempt, on_tick,
  on_reconnect, on_message, on_read_error, handle_connection_error, idle,
}

-- No attempt is under way, the exchange is healthy exactly while its goroutine listens, and then it
-- has a connection that is marked as subscribed, and no failure counts.
pub record IsConsistent (m : Manager) : Type 0 where
  pub not_connecting : m.link.exchange.is_connecting ≡ false
  pub healthy : m.link.exchange.is_healthy ≡ m.is_listening
  pub connected : m.is_listening ≡ true → m.link.exchange.has_conn ≡ true
  pub subscribed : m.is_listening ≡ true → m.link.exchange.is_subscribed ≡ true
  pub no_failure : m.is_listening ≡ true → m.link.exchange.failure_count ≡ 0

module _ (grow shrink : Duration → Duration) where
  attempt-IsConsistent :
      (w : World) (now later : Time) (link : Link)
      → IsConsistent (attempt grow shrink w now later link)
  unfolding attempt connect_exchange handle_connection_error
  attempt-IsConsistent w now later link = ground arith

  on_reconnect-IsConsistent :
      (w : World) (now later : Time) (link : Link)
      → IsConsistent (idle link)
      → IsConsistent (on_reconnect grow shrink w now later link)
  unfolding on_reconnect
  on_reconnect-IsConsistent w now later link c =
      ground (arith, attempt-IsConsistent w now later link)

  on_tick-IsConsistent :
      (w : World) (now later : Time) (link : Link)
      → IsConsistent (idle link)
      → IsConsistent (on_tick grow shrink w now later link)
  unfolding on_tick
  on_tick-IsConsistent w now later link c = ground (arith, attempt-IsConsistent w now later link)

  Step-IsConsistent : {m m' : Manager} → Step grow shrink m m' → IsConsistent m → IsConsistent m'
  unfolding on_message on_read_error handle_connection_error
  Step-IsConsistent (Step.reconnect w now later link) c =
      on_reconnect-IsConsistent w now later link c
  Step-IsConsistent (Step.tick w now later link) c = on_tick-IsConsistent w now later link c
  Step-IsConsistent (Step.message now link) c = ground arith
  Step-IsConsistent (Step.read_error now link) c = ground arith
  Step-IsConsistent (Step.others limiters working_proxy m) c = ground arith

  pub Reaches-kept :
      {name : Bytes} {start : Time} {limiters : List (Bytes × ExchangeRateLimiter)} {m : Manager}
      → Reaches grow shrink name start limiters m
      → IsConsistent m
  Reaches-kept Reaches.start = ground arith
  Reaches-kept (Reaches.step r st) = Step-IsConsistent st (Reaches-kept r)

  -- What the last signal or tick met, and when, out of what came before a step.
  abbrev pub last_of_step :
      {m m' : Manager} → Step grow shrink m m' → Option (World × Time) → Option (World × Time)
  last_of_step (Step.reconnect w now later link) before = some (w, now)
  last_of_step (Step.tick w now later link) before = some (w, now)
  last_of_step (Step.message now link) before = before
  last_of_step (Step.read_error now link) before = before
  last_of_step (Step.others limiters working_proxy m) before = before

  unfoldable pub last_round :
      {name : Bytes} {start : Time} {limiters : List (Bytes × ExchangeRateLimiter)} {m : Manager}
      → Reaches grow shrink name start limiters m
      → Option (World × Time)
  last_round Reaches.start = none
  last_round (Reaches.step r st) = last_of_step st (last_round r)

  abbrev pub AskedIn : Option (World × Time) → Link → Type 0
  AskedIn none link = ⊥
  AskedIn (some (w, now)) link = IsAsked w now link

  -- While the goroutine listens.
  abbrev pub AskedWhile : Bool → Option (World × Time) → Link → Type 0
  AskedWhile true o link = AskedIn o link
  AskedWhile false o link = Unit

  asked_while :
      (listening : Bool) (o : Option (World × Time)) (link : Link)
      → (listening ≡ true → AskedIn o link)
      → AskedWhile listening o link
  asked_while true o link h = h refl
  asked_while false o link h = tt

  on_reconnect-IsAsked :
      (w : World) (now later : Time) (link : Link)
      → (on_reconnect grow shrink w now later link).is_listening ≡ true
      → IsAsked w now (on_reconnect grow shrink w now later link).link
  unfolding on_reconnect
  on_reconnect-IsAsked w now later link h =
      ground (arith, attempt-IsAsked grow shrink w now later link)

  on_tick-IsAsked :
      (w : World) (now later : Time) (link : Link)
      → (on_tick grow shrink w now later link).is_listening ≡ true
      → IsAsked w now (on_tick grow shrink w now later link).link
  unfolding on_tick
  on_tick-IsAsked w now later link h = ground (arith, attempt-IsAsked grow shrink w now later link)

  Step-AskedIn :
      {m m' : Manager} (st : Step grow shrink m m') (o : Option (World × Time))
      → (m.is_listening ≡ true → AskedIn o m.link)
      → m'.is_listening ≡ true
      → AskedIn (last_of_step st o) m'.link
  unfolding on_message on_read_error
  Step-AskedIn (Step.reconnect w now later link) o h l = on_reconnect-IsAsked w now later link l
  Step-AskedIn (Step.tick w now later link) o h l = on_tick-IsAsked w now later link l
  Step-AskedIn (Step.message now link) none h l = h refl
  Step-AskedIn (Step.message now link) (some (w, t)) h l = h refl
  Step-AskedIn (Step.read_error now link) o h l = absurd (ground (arith, l))
  Step-AskedIn (Step.others limiters working_proxy m) none h l = h l
  Step-AskedIn (Step.others limiters working_proxy m) (some (w, t)) h l = h l

  Reaches-AskedIn :
      {name : Bytes} {start : Time} {limiters : List (Bytes × ExchangeRateLimiter)} {m : Manager}
      → (r : Reaches grow shrink name start limiters m) → m.is_listening ≡ true
      → AskedIn (last_round r) m.link
  unfolding last_round
  Reaches-AskedIn Reaches.start l = absurd (ground (arith, l))
  Reaches-AskedIn (Reaches.step r st) l = Step-AskedIn st (last_round r) (Reaches-AskedIn r) l

  -- Whatever an exchange's goroutine meets, between its rounds no attempt is under way, and the
  -- exchange is healthy exactly while the goroutine listens. While it listens there is a connection,
  -- which is marked as subscribed, no failure counts, and the last messages that the goroutine sent
  -- are those for all streams that were active at the last signal or tick, with which it connected.
  pub Reaches-IsConsistent :
      {name : Bytes} {start : Time} {limiters : List (Bytes × ExchangeRateLimiter)} {m : Manager}
      → (r : Reaches grow shrink name start limiters m)
      → IsConsistent m × AskedWhile m.is_listening (last_round r) m.link
  Reaches-IsConsistent {m = m} r =
      (Reaches-kept r, asked_while m.is_listening (last_round r) m.link (Reaches-AskedIn r))

  Reaches-attempts :
      {name : Bytes} {start : Time} {limiters : List (Bytes × ExchangeRateLimiter)}
      → (w : World) (now later : Time) (link : Link)
      → Reaches grow shrink name start limiters (idle link)
      → link.exchange.backoff_until ≤ now
      → (on_tick grow shrink w now later link ≡ attempt grow shrink w now later link)
        × (on_reconnect grow shrink w now later link ≡ attempt grow shrink w now later link)
  unfolding on_tick on_reconnect
  Reaches-attempts w now later link r h =
      let c = Reaches-kept r in
      (ground (arith, c.not_connecting, c.healthy), ground (arith, c.not_connecting, c.healthy))

  -- An exchange whose goroutine has come to a state in which it does not listen, and whose backoff is
  -- over, recovers at the next tick if the network answers well: if the dial connects, the exchange
  -- has a limiter that lets the attempt pass, and every write succeeds, then the goroutine listens
  -- after the tick, and the exchange was sent all its messages for the active streams.
  pub Reaches-recovers :
      {name : Bytes} {start : Time} {limiters : List (Bytes × ExchangeRateLimiter)}
      → (w : World) (now later : Time) (link : Link) (proxy : Bytes) (limiter : ExchangeRateLimiter)
      → Reaches grow shrink name start limiters (idle link)
      → link.exchange.backoff_until ≤ now
      → dial_with_proxy w ≡ Dialed.dialed proxy
      → get_limiter link.exchange.name link.limiters ≡ some limiter
      → w.waited ≡ true
      → ((j : ℕ) → w.write j ≡ true)
      → let m = on_tick grow shrink w now later link in
        (m.is_listening ≡ true)
        × (m.link.sent
            ≡ link.sent ++ subscribe_exchange link.exchange.name (unix now) w.active_streams)
  Reaches-recovers w now later link proxy limiter r h e l p ok =
      rw (Reaches-attempts w now later link r h).0
        (attempt-listens grow shrink w now later link proxy limiter e l p ok)
