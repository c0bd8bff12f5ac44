-- ===== src/Candles/Reading.antt =====
-- What is read after candles were written.
use nyyu_market.Prelude.{
  List, [], ◌∷◌, Bool, true, false, Option, none, some, ◌≡◌, refl, inl, inr, arith, Bool-cases,
}
use nyyu_market.Prelude.Text.{Bytes}
use nyyu_market.Prelude.Maps.{load, delete, bytes_key, load-delete, load-delete_self}
use nyyu_market.Prelude.Choice.{AnyOf}
use nyyu_market.Decimal.{Decimal}
use nyyu_market.Models.Interval.{Interval}
use nyyu_market.Models.Candle.{Candle}
use nyyu_market.Candles.{
  Service, Cached, latest_key, or_spot, invalidate, invalidate_each, batch_create_candles,
  get_latest_candle, latest_from, memory_of, LatestQuery,
}

module _ (d : Decimal) where
  open d use {Number}

  abbrev pub key_of : Candle Number → Bytes
  key_of c = latest_key c.symbol c.interval c.source c.contract_type

  load-delete-none :
      (k j : Bytes) (m : List (Bytes × Cached Number))
      → load k m ≡ none
      → load k (delete j m) ≡ none
  load-delete-none k j m h = ground (arith, load-delete j k m, h)

  invalidate-none :
      (c : Candle Number) (k : Bytes) (s : Service d)
      → load k s.cache ≡ none
      → load k (invalidate d true c s).cache ≡ none
  invalidate-none c k s h = load-delete-none k (key_of c) _ (load-delete-none k _ s.cache h)

  invalidate_each-none :
      (cs : List (Candle Number)) (k : Bytes) (s : Service d)
      → load k s.cache ≡ none
      → load k (invalidate_each d true cs s).cache ≡ none
  unfolding invalidate_each
  invalidate_each-none [] k s h = h
  invalidate_each-none (c ∷ []) k s h = invalidate-none c k s h
  invalidate_each-none (c ∷ c' ∷ cs) k s h =
      invalidate_each-none (c' ∷ cs) k (invalidate d true c s) (invalidate-none c k s h)

  invalidated :
      (c : Candle Number) (k : Bytes) (s : Service d)
      → key_of c ≡ k
      → load k (invalidate d true c s).cache ≡ none
  invalidated c k s e = rw (← e) (load-delete_self (key_of c) _)

  invalidate_each-key :
      (cs : List (Candle Number)) (k : Bytes) (s : Service d)
      → AnyOf (λ c. key_of c ≡ k) cs
      → load k (invalidate_each d true cs s).cache ≡ none
  unfolding invalidate_each
  invalidate_each-key [] k s h = absurd h
  invalidate_each-key (c ∷ []) k s (inl e) = invalidated c k s e
  invalidate_each-key (c ∷ []) k s (inr h) = absurd h
  invalidate_each-key (c ∷ c' ∷ cs) k s (inl e) =
      invalidate_each-none (c' ∷ cs) k (invalidate d true c s) (invalidated c k s e)
  invalidate_each-key (c ∷ c' ∷ cs) k s (inr h) =
      invalidate_each-key (c' ∷ cs) k (invalidate d true c s) h

  asked :
      (up : Bool) (key : Bytes) (s : Service d) (o : Option (Candle Number))
      → (latest_from d up key none none o s).0 ≡ o
  asked up key s none = refl
  asked up key s (some c) = refl

  -- With no candle in memory and none in the cache, the database is asked.
  latest-missed :
      (up : Bool) (latest : LatestQuery d)
      (memory : Option (Bytes → Interval → Option (Candle Number))) (symbol : Bytes)
      (interval : Interval) (source contract : Bytes) (s : Service d)
      → memory_of d memory source symbol interval ≡ none
      → load (latest_key symbol interval source (or_spot contract)) s.cache ≡ none
      → (get_latest_candle d up latest memory symbol interval source contract s).0
        ≡ latest symbol interval source (or_spot contract)
  unfolding get_latest_candle
  latest-missed up latest memory symbol interval source contract s n h = elim (Bool-cases up) [
    | inl e ↦
        rw (e, n, h)
          (asked true (latest_key symbol interval source (or_spot contract)) s
            (latest symbol interval source (or_spot contract)))
    | inr off ↦
        rw (off, n)
          (asked false (latest_key symbol interval source (or_spot contract)) s
            (latest symbol interval source (or_spot contract)))
  ]

  -- When the database has taken a batch and Redis answers, then `GetLatestCandle` with the symbol,
  -- interval, source and contract type of any candle of the batch gives what the database answers,
  -- whatever was cached before, if memory has no candle to give: the source is one of an exchange, or
  -- there is no exchange aggregator, or it has no candle of the symbol and interval.
  pub batch_create_candles-fresh :
      (cs : List (Candle Number)) (latest : LatestQuery d)
      (memory : Option (Bytes → Interval → Option (Candle Number))) (symbol : Bytes)
      (interval : Interval) (source contract : Bytes) (s : Service d)
      → memory_of d memory source symbol interval ≡ none
      → AnyOf (λ c. key_of c ≡ latest_key symbol interval source (or_spot contract)) cs
      → (get_latest_candle d true latest memory symbol interval source contract
          (batch_create_candles d true true cs s).1).0
        ≡ latest symbol interval source (or_spot contract)
  unfolding batch_create_candles
  batch_create_candles-fresh [] latest memory symbol interval source contract s n h = absurd h
  batch_create_candles-fresh (c ∷ cs) latest memory symbol interval source contract s n h =
      latest-missed true latest memory symbol interval source contract _ n
        (invalidate_each-key (c ∷ cs) (latest_key symbol interval source (or_spot contract)) s h)
