-- ===== src/Examples/Limits.antt =====
-- An exchange that hits its limit twice, and a batcher for two requests at a time.
use nyyu_market.Prelude.{◌+◌, ◌-◌, ◌*◌, ◌/◌, List, [], ◌∷◌, arith}
use nyyu_market.Prelude.Text.{codes}
use nyyu_market.Prelude.Maps.{store, bytes_key}
use nyyu_market.Models.Interval.{m1, h1}
use nyyu_market.Time.{Duration, second}
use nyyu_market.Aggregator.Limiter.{
  new_exchange_rate_limiter, SubscriptionRequest, SubscriptionBatcher, new_subscription_batcher,
  request_key,
}
use nyyu_market.Aggregator.Limiter.Backoff.{Event, IsBounded, react_all, react_all-IsBounded}
use nyyu_market.Aggregator.Limiter.Batches.{IsReady, add_all, add_all-IsReady}
use nyyu_market.Examples.{evening}

abbrev pub half_more : Duration → Duration
half_more b = b + b / 2

abbrev pub tenth_less : Duration → Duration
tenth_less b = b - b / 10

abbrev events : List Event
events =
    Event.hit evening ∷ Event.hit (evening + second) ∷ Event.success (evening + 3 * second) ∷ []

react_all-IsBounded_example :
    IsBounded (react_all half_more tenth_less events (new_exchange_rate_limiter (codes "okx")))
react_all-IsBounded_example =
    react_all-IsBounded half_more tenth_less (λ b. omega arith) (λ b. omega arith) (codes "okx")
      events

abbrev bitcoin : SubscriptionRequest
bitcoin = record { exchange = codes "okx"; symbol = codes "BTCUSDT"; interval = m1; priority = 1 }

abbrev ether : SubscriptionRequest
ether = record { exchange = codes "okx"; symbol = codes "ETHUSDT"; interval = h1; priority = 2 }

add_all-IsReady_example : IsReady (add_all (bitcoin ∷ ether ∷ []) (new_subscription_batcher 2))
add_all-IsReady_example = add_all-IsReady 2 (bitcoin ∷ ether ∷ []) (omega arith)

abbrev waiting : SubscriptionBatcher
waiting = record {
  requests = store (request_key bitcoin) bitcoin [];
  max_batch_size = 2;
  flushed = [];
}
