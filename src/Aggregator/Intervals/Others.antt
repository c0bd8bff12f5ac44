-- ===== src/Aggregator/Intervals/Others.antt =====
-- What `updateIntervalCandle`, interval by interval, does to one key of the building candles.
use nyyu_market.Prelude.{
  List, [], ◌∷◌, true, Option, some, ◌≡◌, ◌≢◌, refl, sym, ap, subst, ◌∙◌, arith, inl, inr, All,
}
use nyyu_market.Prelude.Text.{Bytes}
use nyyu_market.Prelude.Choice.{AnyOf}
use nyyu_market.Prelude.Maps.{load, bytes_key, nat_key, load-store_self, load-store_ne}
use nyyu_market.Decimal.{Decimal}
use nyyu_market.Models.Interval.{Interval}
use nyyu_market.Models.Candle.{Candle}
use nyyu_market.Time.{Time}
use nyyu_market.Aggregator.Period.{intervals, is_built}
use nyyu_market.Aggregator.Build.{BuildingCandle}
use nyyu_market.Aggregator.Intervals.Keys.{candle_key_inj}
use nyyu_market.Aggregator.Intervals.Invariant.{IsInput, built-is_named}
use nyyu_market.Aggregator.Intervals.{
  IntervalAggregator, new_building_candle, put_1m_candle, or_new, period_key,
  update_interval_candle, update_each,
}

abbrev pub Distinct : List Interval → Type 0
Distinct [] = Unit
Distinct (i ∷ is) = All (λ j. j ≢ i) is × Distinct is

pub intervals-Distinct : Distinct intervals
intervals-Distinct = ground arith

any_ne : {i j : Interval} (is : List Interval) → All (λ x. x ≢ j) is → AnyOf (λ x. x ≡ i) is → j ≢ i
any_ne [] a h e = elim h [ ]
any_ne (x ∷ is) a (inl q) e = a.0 (q ∙ sym e)
any_ne (x ∷ is) a (inr h) e = any_ne is a.1 h e

module _ (d : Decimal) (now : Time) (c : Candle d.Number) where
  -- An update leaves the candles of other periods alone.
  pub update_each-other :
      (is : List Interval) (st : IntervalAggregator d.Number) (k : Bytes)
      → All (λ j. period_key d c j ≢ k) is
      → load k (update_each d now c is st).building_candles ≡ load k st.building_candles
  unfolding update_each update_interval_candle
  update_each-other [] st k h = refl
  update_each-other (i ∷ is) st k h =
      update_each-other is (update_interval_candle d now c i st) k h.1
      ∙ load-store_ne (period_key d c i) k _ st.building_candles h.0

  -- The candle that a period's key has after an update.
  abbrev pub updated : Interval → Option (BuildingCandle d.Number) → BuildingCandle d.Number
  updated i o = put_1m_candle d c (or_new d o (new_building_candle d c i))

  module _ (v : IsInput c) where
    period_key_inj :
        (i j : Interval)
        → is_built i ≡ true
        → is_built j ≡ true
        → period_key d c i ≡ period_key d c j
        → i ≡ j
    period_key_inj i j hi hj e =
        (candle_key_inj c.symbol c.symbol i j _ _ v.colon_free v.colon_free (built-is_named i hi)
          (built-is_named j hj) e).1

    other_keys :
        (i : Interval) (is : List Interval)
        → is_built i ≡ true
        → All (λ j. is_built j ≡ true) is
        → All (λ j. j ≢ i) is
        → All (λ j. period_key d c j ≢ period_key d c i) is
    other_keys i [] hi hs ne = tt
    other_keys i (j ∷ is) hi hs ne =
        (λ e. ne.0 (period_key_inj j i hs.0 hi e), other_keys i is hi hs.1 ne.1)

    pub update_each-own :
        (is : List Interval) (i : Interval) (st : IntervalAggregator d.Number)
        → is_built i ≡ true
        → All (λ j. is_built j ≡ true) is
        → Distinct is
        → AnyOf (λ j. j ≡ i) is
        → load (period_key d c i) (update_each d now c is st).building_candles
          ≡ some (updated i (load (period_key d c i) st.building_candles))
    unfolding update_each update_interval_candle
    update_each-own [] i st hi hs ds h = elim h [ ]
    update_each-own (j ∷ is) i st hi hs ds (inl e) =
        subst
          (λ x.
            load (period_key d c x) (update_each d now c (j ∷ is) st).building_candles
            ≡ some (updated x (load (period_key d c x) st.building_candles)))
          e
          (update_each-other is (update_interval_candle d now c j st) (period_key d c j)
              (other_keys j is hs.0 hs.1 ds.0)
            ∙ load-store_self (period_key d c j) _ st.building_candles)
    update_each-own (j ∷ is) i st hi hs ds (inr h) =
        update_each-own is i (update_interval_candle d now c j st) hi hs.1 ds.1 h
        ∙ ap (λ o. some (updated i o))
            (load-store_ne (period_key d c j) (period_key d c i) _ st.building_candles
              (λ e. any_ne is ds.0 h (period_key_inj j i hs.0 hi e)))
