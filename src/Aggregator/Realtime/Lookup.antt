-- ===== src/Aggregator/Realtime/Lookup.antt =====
-- What the `RealtimeCandleAggregator` answers, and its subscriptions.
use nyyu_market.Prelude.{
  ℕ, ◌-◌, ◌*◌, List, [], ◌∷◌, ◌++◌, ◌&&◌, Option, none, some, if◌then◌else◌, ltb,
}
use nyyu_market.Prelude.Text.{Bytes, has_proper_prefix}
use nyyu_market.Prelude.Maps.{load, store, bytes_key}
use nyyu_market.Decimal.{Decimal}
use nyyu_market.Models.Interval.{Interval}
use nyyu_market.Models.Candle.{Candle, spot}
use nyyu_market.Time.{Time, unix, day}
use nyyu_market.Aggregator.Intervals.Keys.{series_key, series_prefix}
use nyyu_market.Aggregator.Realtime.State.{LiveCandle, RealtimeCandleAggregator}

module _ (d : Decimal) where
  open d use {Number, zero_value}

  -- What `Range` leaves in the two variables of `GetLatestCandle`.
  unfoldable pub scan_live :
      Bytes
      → Interval
      → List (Bytes × LiveCandle Number)
      → ℕ × Option (Candle Number)
      → ℕ × Option (Candle Number)
  scan_live symbol interval [] acc = acc
  scan_live symbol interval ((key, live) ∷ es) (latest_timestamp, latest_candle) =
      scan_live symbol interval es (
        if has_proper_prefix (series_prefix symbol interval) key
          && ltb latest_timestamp (unix live.open_time)
        then (unix live.open_time, live.aggregated)
        else (latest_timestamp, latest_candle))

  -- What `GetCandles` of the repository answers; `none` is an error.
  abbrev pub Query : Type 0
  Query = Bytes → Interval → Bytes → Bytes → Time → Time → ℕ → Option (List (Candle Number))

  -- The rest of `GetLatestCandle`, from what the maps have; the query is `none` with a nil `repo`.
  abbrev pub latest_from :
      Option Query
      → Time
      → Bytes
      → Interval
      → Option (Candle Number)
      → Option (Candle Number)
      → RealtimeCandleAggregator Number
      → Option (Candle Number) × RealtimeCandleAggregator Number
  latest_from repo now symbol interval (some c) closed st = (some c, st)
  latest_from repo now symbol interval none (some c) st = (some c, st)
  latest_from none now symbol interval none none st = (none, st)
  latest_from (some get_candles) now symbol interval none none st =
      elim (get_candles symbol interval [] spot (now - 30 * day) now 1) [
        | some (c ∷ cs) ↦ (
          some c,
          record st { latest_candles = store (series_key symbol interval) c st.latest_candles },
        )
        | _ ↦ (none, st)
      ]

  -- `GetLatestCandle`
  unfoldable pub get_latest_candle :
      Option Query
      → Time
      → Bytes
      → Interval
      → RealtimeCandleAggregator Number
      → Option (Candle Number) × RealtimeCandleAggregator Number
  get_latest_candle repo now symbol interval st =
      latest_from repo now symbol interval (scan_live symbol interval st.live_candles (0, none)).1
        (load (series_key symbol interval) st.latest_candles) st

  -- `GetAggregatedPrice`
  unfoldable pub get_aggregated_price : Bytes → RealtimeCandleAggregator Number → Number × ℕ
  get_aggregated_price symbol st = elim (load symbol st.live_prices) [
    | some p ↦ (p.last_price, p.exchange_count)
    | none ↦ (zero_value, 0)
  ]

  abbrev pub subscribers : Option (List ℕ) → List ℕ
  subscribers none = []
  subscribers (some subs) = subs

  -- `SubscribeCandle` and `SubscribePrice`
  unfoldable pub subscribe_candle :
      Bytes → Interval → ℕ → RealtimeCandleAggregator Number → RealtimeCandleAggregator Number
  subscribe_candle symbol interval callback st =
      let key = series_key symbol interval in
      record st {
        candle_subscribers =
            store key (subscribers (load key st.candle_subscribers) ++ (callback ∷ []))
              st.candle_subscribers;
      }

  unfoldable pub subscribe_price :
      Bytes → ℕ → RealtimeCandleAggregator Number → RealtimeCandleAggregator Number
  subscribe_price symbol callback st = record st {
    price_subscribers =
        store symbol (subscribers (load symbol st.price_subscribers) ++ (callback ∷ []))
          st.price_subscribers;
  }
