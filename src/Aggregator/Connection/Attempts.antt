-- ===== src/Aggregator/Connection/Attempts.antt =====
-- What `dialWithProxy` chooses, and an attempt that nothing hinders.
use nyyu_market.Prelude.{
  ℕ, suc, List, [], ◌∷◌, ◌++◌, Bool, true, false, ◌&&◌, Option, none, some, ◌≡◌, refl, arith,
  if◌then◌else◌,
}
use nyyu_market.Prelude.Text.{Bytes}
use nyyu_market.Prelude.Maps.{bytes_key}
use nyyu_market.Time.{Time, Duration, unix}
use nyyu_market.Aggregator.Limiter.{ExchangeRateLimiter, get_limiter}
use nyyu_market.Aggregator.Subscribe.{Message, write_all, subscribe_exchange}
use nyyu_market.Aggregator.Connection.{
  World, Link, Dial, Dialed, dial_each, dial_with_proxy, proxy_list, is_direct, connect_exchange,
  attempt,
}

abbrev pub is_connected : Dial → Bool
is_connected Dial.connected = true
is_connected _ = false

-- The first proxy that connects.
unfoldable pub first_connected : (Bytes → Dial) → List Bytes → Option Bytes
first_connected dial [] = none
first_connected dial (p ∷ ps) = if is_connected (dial p) then some p else first_connected dial ps

-- The list begins with a direct connection that fails, and not by 403.
abbrev pub gives_up : (Bytes → Dial) → List Bytes → Bool
gives_up dial [] = false
gives_up dial (p ∷ ps) = is_direct p && (elim (dial p) [ Dial.failed ↦ true | _ ↦ false ])

abbrev pub choice_or : Dialed → Option Bytes → Dialed
choice_or otherwise (some p) = Dialed.dialed p
choice_or otherwise none = otherwise

abbrev pub if_empty : List Bytes → Dialed
if_empty [] = Dialed.no_proxies_available
if_empty (p ∷ ps) = Dialed.attempts_failed

dial_each-later :
    (dial : Bytes → Dial) (i : ℕ) (ps : List Bytes)
    → dial_each dial (suc i) true ps ≡ choice_or Dialed.attempts_failed (first_connected dial ps)
unfolding dial_each first_connected
dial_each-later dial i [] = refl
dial_each-later dial i (p ∷ ps) = ground (arith, dial_each-later dial (suc i) ps)

dial_each-first :
    (dial : Bytes → Dial) (ps : List Bytes)
    → dial_each dial 0 false ps ≡ (
        if gives_up dial ps
        then Dialed.attempts_failed
        else choice_or (if_empty ps) (first_connected dial ps))
unfolding dial_each first_connected
dial_each-first dial [] = refl
dial_each-first dial (p ∷ ps) = ground (arith, dial_each-later dial 0 ps)

-- `dialWithProxy` gives up at once if its list begins with a direct connection that fails otherwise
-- than by 403; else it takes the first proxy of the list that connects, and fails if there is none,
-- with "no proxies available" exactly if the list is empty. With no proxy service the list is the
-- direct connection.
pub dial_with_proxy-first :
    (w : World)
    → let ps = proxy_list w.proxies in
      dial_with_proxy w ≡ (
        if gives_up w.dial ps
        then Dialed.attempts_failed
        else choice_or (if_empty ps) (first_connected w.dial ps))
unfolding dial_with_proxy
dial_with_proxy-first w = dial_each-first w.dial (proxy_list w.proxies)

write_all-true :
    (write : ℕ → Bool) (i : ℕ) (ms : List Message)
    → ((j : ℕ) → write j ≡ true)
    → write_all write i ms ≡ (ms, true)
unfolding write_all
write_all-true write i [] h = refl
write_all-true write i (m ∷ ms) h = rw (write_all-true write (suc i) ms h, h i)

write_all_complete :
    (write : ℕ → Bool) (i : ℕ) (ms : List Message)
    → (write_all write i ms).1 ≡ true
    → (write_all write i ms).0 ≡ ms
unfolding write_all
write_all_complete write i [] h = refl
write_all_complete write i (m ∷ ms) h = ground (arith, write_all_complete write (suc i) ms, h)

-- The messages that were sent last are those of an attempt in `w` at the instant `now`.
abbrev pub IsAsked : World → Time → Link → Type 0
IsAsked w now link =
    (before : List Message) × (link.sent
      ≡ before ++ subscribe_exchange link.exchange.name (unix now) w.active_streams)

module _ (grow shrink : Duration → Duration) where
  -- An attempt after which the goroutine listens.
  pub attempt-IsAsked :
      (w : World) (now later : Time) (link : Link)
      → (attempt grow shrink w now later link).is_listening ≡ true
      → IsAsked w now (attempt grow shrink w now later link).link
  unfolding attempt connect_exchange
  attempt-IsAsked w now later link h =
      let e =
        write_all_complete w.write 0
          (subscribe_exchange link.exchange.name (unix now) w.active_streams) in
      (link.sent, ground (arith, h, e))

  -- An attempt in which a dial connects, the exchange has a limiter that lets it pass, and every write
  -- succeeds: the goroutine listens, and the exchange was sent all its messages for the active
  -- streams.
  pub attempt-listens :
      (w : World) (now later : Time) (link : Link) (proxy : Bytes) (limiter : ExchangeRateLimiter)
      → dial_with_proxy w ≡ Dialed.dialed proxy
      → get_limiter link.exchange.name link.limiters ≡ some limiter
      → w.waited ≡ true
      → ((j : ℕ) → w.write j ≡ true)
      → let m = attempt grow shrink w now later link in
        (m.is_listening ≡ true)
        × (m.link.sent
            ≡ link.sent ++ subscribe_exchange link.exchange.name (unix now) w.active_streams)
  unfolding attempt connect_exchange
  attempt-listens w now later link proxy limiter h l p ok =
      let e =
        write_all-true w.write 0 (subscribe_exchange link.exchange.name (unix now) w.active_streams)
          ok in
      (ground (arith, h, l, p, e), ground (arith, h, l, p, e))
