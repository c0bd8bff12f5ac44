-- ===== src/Aggregator/Intervals/Closed.antt =====
-- What `closeExpiredIntervals` closes, and what it keeps.
use nyyu_market.Prelude.{
  ◌≤◌, List, [], ◌∷◌, true, none, some, ◌≡◌, ◌↔◌, ◌∙◌, arith, inl, inr, Bool-cases, All,
}
use nyyu_market.Prelude.Text.{Bytes, NoColon, has_proper_prefix}
use nyyu_market.Prelude.Choice.{AnyOf}
use nyyu_market.Prelude.Maps.{load, bytes_key, nat_key, All-load}
use nyyu_market.Decimal.{Decimal}
use nyyu_market.Models.Interval.{Interval, s1, m1, other}
use nyyu_market.Time.{Time, unix}
use nyyu_market.Aggregator.Period.{intervals, is_built}
use nyyu_market.Aggregator.Build.{BuildingCandle}
use nyyu_market.Aggregator.Intervals.Keys.{series_prefix, has_series_prefix_iff}
use nyyu_market.Aggregator.Intervals.Closing.{
  close_each-load-none, close_each-load-some, expires_any,
}
use nyyu_market.Aggregator.Intervals.Invariant.{IsEntry, IsValid, built-is_named, intervals-built}
use nyyu_market.Aggregator.Intervals.{IntervalAggregator, expires, close_expired_intervals}

pub in_intervals : (i : Interval) → is_built i ≡ true → AnyOf (λ j. j ≡ i) intervals
in_intervals s1 h = cc
in_intervals m1 h = cc
in_intervals (other s) h = cc
in_intervals i h = ground arith

module _ (d : Decimal) where
  -- An entry expires for an interval and a symbol exactly if they are its own and its time is over.
  expires_iff :
      (symbol : Bytes) (i : Interval) (t : Time) (k : Bytes) (b : BuildingCandle d.Number)
      → NoColon symbol
      → is_built i ≡ true
      → IsEntry (k, b)
      → (expires d symbol i t (k, b) ≡ true)
        ↔ ((symbol ≡ b.symbol) × (i ≡ b.interval) × (b.close_time ≤ t))
  unfolding expires
  expires_iff symbol i t k b hs hi e =
      let pre : (has_proper_prefix (series_prefix symbol i) k ≡ true)
          ↔ ((symbol ≡ b.symbol) × (i ≡ b.interval)) =
        rw (e.keyed) (
          has_series_prefix_iff symbol b.symbol i b.interval (unix b.open_time) hs e.colon_free
            (built-is_named i hi) (built-is_named b.interval e.built)) in
      (λ h. ground (arith, pre, e.filled, h), λ h. ground (arith, pre, e.filled, h))

  expires_any_sound :
      (symbol : Bytes) (t : Time) (k : Bytes) (b : BuildingCandle d.Number) (is : List Interval)
      → NoColon symbol
      → All (λ i. is_built i ≡ true) is
      → IsEntry (k, b)
      → expires_any d symbol t is (k, b) ≡ true
      → (symbol ≡ b.symbol) × (b.close_time ≤ t)
  expires_any_sound symbol t k b [] hs hi e h = absurd (ground arith)
  expires_any_sound symbol t k b (i ∷ is) hs hi e h =
      elim (Bool-cases (expires d symbol i t (k, b))) [
        | inl x ↦ let (p, _, r) = (expires_iff symbol i t k b hs hi.0 e).0 x in (p, r)
        | inr x ↦ expires_any_sound symbol t k b is hs hi.1 e (ground arith)
      ]

  expires_any_complete :
      (symbol : Bytes) (t : Time) (k : Bytes) (b : BuildingCandle d.Number) (is : List Interval)
      → NoColon symbol
      → All (λ i. is_built i ≡ true) is
      → IsEntry (k, b)
      → symbol ≡ b.symbol
      → b.close_time ≤ t
      → AnyOf (λ i. i ≡ b.interval) is
      → expires_any d symbol t is (k, b) ≡ true
  expires_any_complete symbol t k b (i ∷ is) hs hi e p r (inl x) =
      ground (arith, (expires_iff symbol i t k b hs hi.0 e).1 (p, x, r))
  expires_any_complete symbol t k b (i ∷ is) hs hi e p r (inr x) =
      ground (arith, expires_any_complete symbol t k b is hs hi.1 e p r x)
  expires_any_complete symbol t k b [] hs hi e p r x = elim x [ ]

  module _ (now : Time) (symbol : Bytes) (t : Time) (st : IntervalAggregator d.Number)
      (hs : NoColon symbol) (w : IsValid st) where
    closed : IntervalAggregator d.Number
    closed = close_expired_intervals d now symbol t st

    IsEntry-of :
        (k : Bytes) (b : BuildingCandle d.Number)
        → load k st.building_candles ≡ some b
        → IsEntry (k, b)
    IsEntry-of k b h = All-load IsEntry k st.building_candles w.entries h

    -- In a well-formed state, and for a symbol without a colon: `closeExpiredIntervals` removes a
    -- building candle of the symbol whose close time has come.
    pub close_expired_intervals-closes :
        (k : Bytes) (b : BuildingCandle d.Number)
        → load k st.building_candles ≡ some b
        → symbol ≡ b.symbol
        → b.close_time ≤ t
        → load k (close_expired_intervals d now symbol t st).building_candles ≡ none
    unfolding close_expired_intervals
    close_expired_intervals-closes k b h p r =
        close_each-load-some d now symbol t intervals st k b w.unique h
        ∙ (let e = IsEntry-of k b h in
            rw (
              expires_any_complete symbol t k b intervals hs intervals-built e p r
                (in_intervals b.interval e.built)))

    -- In a well-formed state, and for a symbol without a colon: `closeExpiredIntervals` leaves a
    -- building candle as it is if it is of another symbol or its close time has not come.
    pub close_expired_intervals-keeps :
        (k : Bytes) (b : BuildingCandle d.Number)
        → load k st.building_candles ≡ some b
        → ((symbol ≡ b.symbol) × (b.close_time ≤ t) → ⊥)
        → load k (close_expired_intervals d now symbol t st).building_candles ≡ some b
    unfolding close_expired_intervals
    close_expired_intervals-keeps k b h n =
        close_each-load-some d now symbol t intervals st k b w.unique h
        ∙ elim (Bool-cases (expires_any d symbol t intervals (k, b))) [
          | inl x ↦
              absurd (
                n (
                  expires_any_sound symbol t k b intervals hs intervals-built (IsEntry-of k b h) x))
          | inr x ↦ rw x
        ]

    pub close_expired_intervals-none :
        (k : Bytes)
        → load k st.building_candles ≡ none
        → load k (close_expired_intervals d now symbol t st).building_candles ≡ none
    unfolding close_expired_intervals
    close_expired_intervals-none k h = close_each-load-none d now symbol t intervals st k w.unique h
