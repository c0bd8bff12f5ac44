-- ===== src/Grpc/Balance.antt =====
-- The users that the handlers of internal/grpc/candle_handler.go add to the exchange aggregator.
use nyyu_market.Prelude.{
  ℕ, ◌+◌, ◌<◌, false, Option, none, some, if◌then◌else◌, ◌≡◌, refl, ◌∙◌, ap, arith, Bool-cases, inl,
  inr,
}
use nyyu_market.Prelude.Text.{Bytes}
use nyyu_market.Prelude.Strings.{to_upper}
use nyyu_market.Decimal.{Decimal}
use nyyu_market.Models.Interval.{Interval, text}
use nyyu_market.Models.Candle.{Candle}
use nyyu_market.Aggregator.Streams.{
  Streams, Request, subscribe_to_interval, unsubscribe_from_interval,
}
use nyyu_market.Aggregator.Streams.Counts.{Users, is_at, change, view, serve-view, change_congr}
use nyyu_market.Grpc.{
  Backend, Channel, Server, is_missing, subscribed, unsubscribed, subscribe_candles, get_candles,
  get_latest_candle,
}

-- One subscription and its release.
change-cancels :
    (symbol interval : Bytes) (f : Users) (s i : Bytes)
    → change
        (Request.unsubscribe symbol interval)
        (change (Request.subscribe symbol interval) f)
        s
        i
      ≡ f s i
change-cancels symbol interval f s i = ground arith

taken_back :
    (exchanges : ℕ) (symbol interval : Bytes) (st : Streams)
    → ((s i : Bytes) → view st s i < 2147483646)
    → (s i : Bytes)
    → view
        (unsubscribe_from_interval symbol interval
          (subscribe_to_interval exchanges symbol interval st))
        s
        i
      ≡ view st s i
taken_back exchanges symbol interval st h s i =
    let add = Request.subscribe symbol interval in
    let step : (s' i' : Bytes)
        → view (subscribe_to_interval exchanges symbol interval st) s' i'
          ≡ change add (view st) s' i' =
      serve-view exchanges add st (λ s' i'. omega (arith, h s' i')) in
    serve-view exchanges (Request.unsubscribe symbol interval)
      (subscribe_to_interval exchanges symbol interval st)
      (λ s' i'. rw (step s' i') (ground (arith, h s' i'))) s i
    ∙ change_congr (Request.unsubscribe symbol interval)
        (view (subscribe_to_interval exchanges symbol interval st)) (change add (view st)) s i
        (step s i)
    ∙ change-cancels symbol interval (view st) s i

module _ (d : Decimal) where
  -- A subscription that is taken back.
  released :
      (b : Backend d) (symbol : Bytes) (interval : Interval) (s s' : Server d)
      → ((y i : Bytes) → view s.streams y i < 2147483646)
      → s'.streams ≡ (subscribed d b symbol interval s).streams
      → (y i : Bytes) → view (unsubscribed d b symbol interval s').streams y i ≡ view s.streams y i
  unfolding subscribed unsubscribed
  released b symbol interval s s' h e y i = release b.memory refl e
    where
      release :
          (m : Option (Bytes → Interval → Option (Candle d.Number)))
          → b.memory ≡ m
          → s'.streams ≡ (subscribed d b symbol interval s).streams
          → view (unsubscribed d b symbol interval s').streams y i ≡ view s.streams y i
      release none q e' = rw q (ap (λ st. view st y i) (rw q at e'))
      release (some m) q e' = rw q (
          ap (λ st. view (unsubscribe_from_interval symbol (text interval) st) y i) (rw q at e')
          ∙ taken_back b.exchanges symbol (text interval) s.streams h y i)

  subscribed-adds :
      (b : Backend d) (memory : Bytes → Interval → Option (Candle d.Number)) (symbol : Bytes)
      (interval : Interval) (s : Server d)
      → b.memory ≡ some memory
      → ((y i : Bytes) → view s.streams y i < 2147483647)
      → (y i : Bytes)
      → view (subscribed d b symbol interval s).streams y i
        ≡ change (Request.subscribe symbol (text interval)) (view s.streams) y i
  unfolding subscribed
  subscribed-adds b memory symbol interval s q h y i =
      rw q (serve-view b.exchanges (Request.subscribe symbol (text interval)) s.streams h y i)

  -- A stream of candles leaves the number of users of each symbol and interval as it was: on a bad
  -- request, when Redis does not confirm, when a `Send` fails and when the client goes. There are
  -- fewer than 2 ^ 31 - 2 users of each.
  pub subscribe_candles-releases :
      (b : Backend d) (ch : Channel d) (symbol : Bytes) (interval : Interval) (source : Bytes)
      (s : Server d)
      → ((y i : Bytes) → view s.streams y i < 2147483646)
      → (y i : Bytes)
      → view (subscribe_candles d b ch symbol interval source s).2.streams y i ≡ view s.streams y i
  unfolding subscribe_candles
  subscribe_candles-releases b ch symbol interval source s h y i =
      elim (Bool-cases (is_missing d symbol interval)) [
        | inl e ↦ rw e refl
        | inr e ↦ elim (Bool-cases ch.confirmed) [
          | inl c ↦ rw (e, c) (released b symbol interval s _ h refl y i)
          | inr c ↦ rw (e, c) (released b symbol interval s _ h refl y i)
        ]
      ]

  -- Where there is an exchange aggregator, each call of `GetCandles` and of `GetLatestCandle` with a
  -- symbol and an interval leaves one user more than before of the symbol in upper case and the
  -- interval, and as many as before of the others, whatever is answered. There are fewer than 2 ^ 31
  -- - 1 users of each.
  pub get_candles-adds_user :
      (b : Backend d) (symbol : Bytes) (interval : Interval) (source contract : Bytes)
      (start_time end_time : Option ℕ) (limit : ℕ) (s : Server d)
      (memory : Bytes → Interval → Option (Candle d.Number))
      → b.memory ≡ some memory
      → is_missing d symbol interval ≡ false
      → ((y i : Bytes) → view s.streams y i < 2147483647)
      → (y i : Bytes)
      → let users =
          if is_at (to_upper symbol) (text interval) y i
          then view s.streams y i + 1
          else view s.streams y i in
        (view
            (get_candles d b symbol interval source contract start_time end_time limit s).1.streams
            y
            i
          ≡ users)
        × (view (get_latest_candle d b symbol interval source contract s).1.streams y i ≡ users)
  unfolding get_candles get_latest_candle
  get_candles-adds_user b symbol interval source contract start_time end_time limit s memory q e h y
        i =
      rw e (
        subscribed-adds b memory symbol interval s q h y i,
        subscribed-adds b memory symbol interval s q h y i,
      )
