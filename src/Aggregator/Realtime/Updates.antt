-- ===== src/Aggregator/Realtime/Updates.antt =====
-- What `ProcessCandleUpdate` keeps true of the live candles, the prices and the batch channel.
use nyyu_market.Prelude.{
  ℕ, ◌+◌, ◌≤◌, ◌<◌, List, [], ◌∷◌, ◌++◌, Bool, true, false, Option, none, some, if◌then◌else◌, ltb,
  length, length-append, All, ◌≡◌, refl, arith,
}
use mathlib.Core.Path.{ap₂}
use nyyu_market.Prelude.Text.{Bytes}
use nyyu_market.Prelude.Maps.{load, store, bytes_key, All-load, All-store}
use nyyu_market.Prelude.Unique.{Unique, Unique-store}
use nyyu_market.Decimal.{Decimal, DecimalSums}
use nyyu_market.Decimal.Extremes.{sum_of}
use nyyu_market.Models.Candle.{Candle}
use nyyu_market.Time.{Time, unix}
use nyyu_market.Aggregator.Intervals.{try_send}
use nyyu_market.Aggregator.Intervals.Keys.{candle_key}
use nyyu_market.Aggregator.Realtime.Summary.{sum_and_count_eq}
use nyyu_market.Aggregator.Realtime.{
  Task, LiveCandle, AggregatedPrice, RealtimeCandleAggregator, new_realtime_candle_aggregator,
  aggregate_live_candle, new_live_candle, live_or, update_live, price_or, recalculate,
  update_live_price, send_closed, handle_closed_candle, live_key, process_candle_update,
}

store-filled : {V : Type 0} (k : Bytes) (v : V) (m : List (Bytes × V)) → 0 < length (store k v m)
unfolding store
store-filled k v [] = omega arith
store-filled k v ((j, w) ∷ m) = ground arith

ltb-true : (n : ℕ) → 0 < n → ltb 0 n ≡ true
ltb-true n h = ground arith

module _ (d : Decimal) where
  open d use {Number, zero_value, add, div, new_from_int}

  -- A live candle: it stands under its own key, has at most one entry for an exchange, and its
  -- candle is what its exchanges' data made at its last update.
  pub record IsLive (e : Bytes × LiveCandle Number) : Type 0 where
    pub keyed : e.0 ≡ candle_key e.1.symbol e.1.interval (unix e.1.open_time)
    pub exchanges_unique : Unique e.1.exchange_data
    pub current : e.1.aggregated ≡ aggregate_live_candle d e.1.last_update e.1

  -- A price: it stands under its symbol, and is the average of one price for each exchange.
  pub record IsAverage (e : Bytes × AggregatedPrice Number) : Type 0 where
    pub keyed : e.0 ≡ e.1.symbol
    pub prices_unique : Unique e.1.exchange_prices
    pub counted : e.1.exchange_count ≡ length e.1.exchange_prices
    pub average :
        e.1.last_price
        ≡ div (sum_of d (λ p. p.1) e.1.exchange_prices) (new_from_int (length e.1.exchange_prices))

  abbrev pub IsWithin : Option ℕ → List (Candle Number) → Type 0
  IsWithin none ch = Unit
  IsWithin (some cap) ch = length ch ≤ cap

  pub record IsValid (st : RealtimeCandleAggregator Number) : Type 0 where
    pub live : All IsLive st.live_candles
    pub live_unique : Unique st.live_candles
    pub prices : All IsAverage st.live_prices
    pub bounded : IsWithin st.batch_cap st.candle_batch_chan

  pub new_realtime_candle_aggregator-IsValid :
      (cap : Option ℕ) → IsValid (new_realtime_candle_aggregator d cap)
  new_realtime_candle_aggregator-IsValid none = record {
    live = tt;
    live_unique = tt;
    prices = tt;
    bounded = tt;
  }
  new_realtime_candle_aggregator-IsValid (some cap) = record {
    live = tt;
    live_unique = tt;
    prices = tt;
    bounded = omega arith;
  }

  -- An update of a live candle that stands under the candle's key, or of the new one.
  update_live-IsLive :
      (now : Time) (exchange : Bytes) (c : Candle Number) (o : Option (LiveCandle Number))
      → ((live : LiveCandle Number) → o ≡ some live → IsLive (live_key d c, live))
      → IsLive (live_key d c, update_live d now exchange c (live_or d o (new_live_candle d c)))
  unfolding update_live aggregate_live_candle
  update_live-IsLive now exchange c none h = record {
    keyed = refl;
    exchanges_unique = Unique-store exchange _ [] tt;
    current = refl;
  }
  update_live-IsLive now exchange c (some live) h = record {
    keyed = (h live refl).keyed;
    exchanges_unique = Unique-store exchange _ live.exchange_data (h live refl).exchanges_unique;
    current = refl;
  }

  recalculate-IsAverage :
      (s : DecimalSums d) (now : Time) (symbol : Bytes) (p : AggregatedPrice Number)
      → symbol ≡ p.symbol
      → Unique p.exchange_prices
      → 0 < length p.exchange_prices
      → IsAverage (symbol, recalculate d now p)
  unfolding recalculate
  recalculate-IsAverage s now symbol p e u n =
      let same = sum_and_count_eq d s p.exchange_prices zero_value 0 in
      rw (same, ltb-true (0 + length p.exchange_prices) (omega arith))
        record {
          keyed = e;
          prices_unique = u;
          counted = omega arith;
          average = ap₂ (λ a k. div a (new_from_int k)) (s.zero-add _) (omega arith);
        }

  price_or-IsAverage :
      (s : DecimalSums d) (now : Time) (symbol exchange : Bytes) (price : Number)
      (o : Option (AggregatedPrice Number))
      → ((p : AggregatedPrice Number) → o ≡ some p → IsAverage (symbol, p))
      → let p = price_or d o symbol now in
        IsAverage (
          symbol,
          recalculate d now (record p { exchange_prices = store exchange price p.exchange_prices }),
        )
  price_or-IsAverage s now symbol exchange price none h =
      recalculate-IsAverage s now symbol _ refl (Unique-store exchange price [] tt)
        (store-filled exchange price [])
  price_or-IsAverage s now symbol exchange price (some p) h =
      recalculate-IsAverage s now symbol _ (h p refl).keyed
        (Unique-store exchange price p.exchange_prices (h p refl).prices_unique)
        (store-filled exchange price p.exchange_prices)

  update_live_price-IsValid :
      (s : DecimalSums d) (now : Time) (symbol exchange : Bytes) (price : Number)
      (st : RealtimeCandleAggregator Number)
      → IsValid st
      → IsValid (update_live_price d now symbol exchange price st)
  unfolding update_live_price
  update_live_price-IsValid s now symbol exchange price st w = record {
    live = w.live;
    live_unique = w.live_unique;
    prices =
        All-store IsAverage symbol _ st.live_prices
          (price_or-IsAverage s now symbol exchange price (load symbol st.live_prices)
            (λ p e. All-load IsAverage symbol st.live_prices w.prices e))
          w.prices;
    bounded = w.bounded;
  }

  send_closed-IsWithin :
      (cap : Option ℕ) (c : Candle Number) (ch : List (Candle Number))
      → IsWithin cap ch
      → IsWithin cap (send_closed d cap c ch)
  unfolding try_send
  send_closed-IsWithin none c ch h = tt
  send_closed-IsWithin (some cap) c ch h = ground (arith, length-append ch (c ∷ []))

  handle_closed_candle-IsValid :
      (live : LiveCandle Number) (o : Option (Candle Number)) (st : RealtimeCandleAggregator Number)
      → IsValid st
      → IsValid (handle_closed_candle d live o st)
  unfolding handle_closed_candle
  handle_closed_candle-IsValid live none st w = w
  handle_closed_candle-IsValid live (some c) st w = record {
    live = w.live;
    live_unique = w.live_unique;
    prices = w.prices;
    bounded = send_closed-IsWithin st.batch_cap c st.candle_batch_chan w.bounded;
  }

  stored-IsValid :
      (now : Time) (exchange : Bytes) (c : Candle Number) (st : RealtimeCandleAggregator Number)
      → IsValid st
      → let live =
          update_live d now exchange c
            (live_or d (load (live_key d c) st.live_candles) (new_live_candle d c)) in
        IsValid (record st {
          live_candles = store (live_key d c) live st.live_candles;
          started = st.started ++ (Task.publish_candle c.symbol c.interval live.aggregated ∷ []);
        })
  stored-IsValid now exchange c st w = record {
    live =
        All-store IsLive (live_key d c) _ st.live_candles
          (update_live-IsLive now exchange c (load (live_key d c) st.live_candles)
            (λ live e. All-load IsLive (live_key d c) st.live_candles w.live e))
          w.live;
    live_unique = Unique-store (live_key d c) _ st.live_candles w.live_unique;
    prices = w.prices;
    bounded = w.bounded;
  }

  if-IsValid :
      (b : Bool) (st st' : RealtimeCandleAggregator Number)
      → IsValid st
      → IsValid st'
      → IsValid (if b then st else st')
  if-IsValid true st st' h k = h
  if-IsValid false st st' h k = k

  -- By the laws of decimal sums: `ProcessCandleUpdate`, of any candle from any exchange, keeps the
  -- state well-formed: each live candle stands once and under its own key, with one entry for an
  -- exchange, and its candle is what these entries make; each price is the average of one price
  -- for each exchange; the batch channel is within its capacity.
  pub process_candle_update-IsValid :
      (s : DecimalSums d) (now : Time) (exchange : Bytes) (c : Candle Number)
      (st : RealtimeCandleAggregator Number)
      → IsValid st
      → IsValid (process_candle_update d now exchange c st)
  unfolding process_candle_update
  process_candle_update-IsValid s now exchange c st w =
      let live =
        update_live d now exchange c
          (live_or d (load (live_key d c) st.live_candles) (new_live_candle d c)) in
      let priced =
        update_live_price-IsValid s now c.symbol exchange c.close_price _
          (stored-IsValid now exchange c st w) in
      if-IsValid c.is_closed _ _ (handle_closed_candle-IsValid live live.aggregated _ priced) priced
