-- ===== src/Aggregator/Intervals/Closing.antt =====
-- Which building candles `closeExpiredIntervals` leaves.
use nyyu_market.Prelude.{
  List, [], ◌∷◌, Bool, false, ◌&&◌, ◌||◌, Option, none, some, if◌then◌else◌, ◌≡◌, refl, ap, ◌∙◌,
  arith, inl, inr, Bool-cases,
}
use nyyu_market.Prelude.Text.{Bytes, bytes_eq}
use nyyu_market.Prelude.Maps.{load, bytes_key, load-delete, bytes_eq_iff}
use nyyu_market.Prelude.Unique.{Unique, Unique-delete}
use nyyu_market.Decimal.{Decimal}
use nyyu_market.Models.Interval.{Interval}
use nyyu_market.Aggregator.Build.{BuildingCandle}
use nyyu_market.Time.{Time}
use nyyu_market.Aggregator.Intervals.{
  IntervalAggregator, expires, complete_interval_now, close_entry, close_range, close_each,
}

module _ (d : Decimal) where
  -- Whether one of the entries has the key and expires.
  abbrev hit : Bytes → Interval → Time → Bytes → List (Bytes × BuildingCandle d.Number) → Bool
  hit symbol i t k [] = false
  hit symbol i t k (e ∷ es) =
      (bytes_key.key_eq e.0 k && expires d symbol i t e) || hit symbol i t k es

  -- What a candle under a key becomes in one round.
  abbrev pub survives :
      Bytes
      → Interval
      → Time
      → Bytes
      → Option (BuildingCandle d.Number)
      → Option (BuildingCandle d.Number)
  survives symbol i t k none = none
  survives symbol i t k (some b) = if expires d symbol i t (k, b) then none else some b

  -- A candle that is there stays exactly if it expires for none of the intervals.
  abbrev pub expires_any : Bytes → Time → List Interval → Bytes × BuildingCandle d.Number → Bool
  expires_any symbol t [] e = false
  expires_any symbol t (i ∷ is) e = expires d symbol i t e || expires_any symbol t is e

  module _ (now : Time) (symbol : Bytes) (t : Time) where
    close_entry-load :
        (i : Interval) (e : Bytes × BuildingCandle d.Number) (st : IntervalAggregator d.Number)
        (k : Bytes)
        → load k (close_entry d now symbol i t e st).building_candles ≡ (
            if bytes_key.key_eq e.0 k && expires d symbol i t e
            then none
            else load k st.building_candles)
    unfolding close_entry complete_interval_now
    close_entry-load i e st k = ground (arith, load-delete e.0 k st.building_candles)

    close_range-load :
        (i : Interval) (es : List (Bytes × BuildingCandle d.Number))
        (st : IntervalAggregator d.Number) (k : Bytes)
        → load k (close_range d now symbol i t es st).building_candles
          ≡ (if hit symbol i t k es then none else load k st.building_candles)
    unfolding close_range
    close_range-load i [] st k = refl
    close_range-load i (e ∷ es) st k = ground (
      arith,
      close_entry-load i e st k,
      close_range-load i es (close_entry d now symbol i t e st) k,
    )

    hit_absent :
        (i : Interval) (k : Bytes) (m : List (Bytes × BuildingCandle d.Number))
        → load k m ≡ none
        → hit symbol i t k m ≡ false
    unfolding load
    hit_absent i k [] h = refl
    hit_absent i k ((j, b) ∷ m) h = ground (arith, hit_absent i k m)

    hit_eq :
        (i : Interval) (k : Bytes) (m : List (Bytes × BuildingCandle d.Number))
        → Unique m
        → (if hit symbol i t k m then none else load k m) ≡ survives symbol i t k (load k m)
    unfolding load
    hit_eq i k [] u = refl
    hit_eq i k ((j, b) ∷ m) u = elim (Bool-cases (bytes_eq j k)) [
      | inl s ↦
          let same : j ≡ k = (bytes_eq_iff j k).0 s in
          rw (s, same, hit_absent i k m (rw (← same) (u.0))) (ground arith)
      | inr n ↦ rw n (hit_eq i k m u.1)
    ]

    close_entry-Unique :
        (i : Interval) (e : Bytes × BuildingCandle d.Number) (st : IntervalAggregator d.Number)
        → Unique st.building_candles
        → Unique (close_entry d now symbol i t e st).building_candles
    unfolding close_entry complete_interval_now
    close_entry-Unique i e st u = elim (Bool-cases (expires d symbol i t e)) [
      | inl h ↦ rw h (Unique-delete e.0 st.building_candles u)
      | inr h ↦ rw h u
    ]

    close_range-Unique :
        (i : Interval) (es : List (Bytes × BuildingCandle d.Number))
        (st : IntervalAggregator d.Number)
        → Unique st.building_candles
        → Unique (close_range d now symbol i t es st).building_candles
    unfolding close_range
    close_range-Unique i [] st u = u
    close_range-Unique i (e ∷ es) st u =
        close_range-Unique i es (close_entry d now symbol i t e st) (close_entry-Unique i e st u)

    close_range_lem :
        (i : Interval) (st : IntervalAggregator d.Number) (k : Bytes)
        → Unique st.building_candles
        → load k (close_range d now symbol i t st.building_candles st).building_candles
          ≡ survives symbol i t k (load k st.building_candles)
    close_range_lem i st k u =
        close_range-load i st.building_candles st k ∙ hit_eq i k st.building_candles u

    -- What a candle becomes in the rounds of some intervals.
    abbrev survives_each :
        List Interval → Bytes → Option (BuildingCandle d.Number) → Option (BuildingCandle d.Number)
    survives_each [] k o = o
    survives_each (i ∷ is) k o = survives_each is k (survives symbol i t k o)

    pub close_each-Unique :
        (is : List Interval) (st : IntervalAggregator d.Number)
        → Unique st.building_candles
        → Unique (close_each d now symbol t is st).building_candles
    unfolding close_each
    close_each-Unique [] st u = u
    close_each-Unique (i ∷ is) st u =
        close_each-Unique is _ (close_range-Unique i st.building_candles st u)

    close_each-load :
        (is : List Interval) (st : IntervalAggregator d.Number) (k : Bytes)
        → Unique st.building_candles
        → load k (close_each d now symbol t is st).building_candles
          ≡ survives_each is k (load k st.building_candles)
    unfolding close_each
    close_each-load [] st k u = refl
    close_each-load (i ∷ is) st k u =
        close_each-load is _ k (close_range-Unique i st.building_candles st u)
        ∙ ap (survives_each is k) (close_range_lem i st k u)

    survives_each-none : (is : List Interval) (k : Bytes) → survives_each is k none ≡ none
    survives_each-none [] k = refl
    survives_each-none (i ∷ is) k = survives_each-none is k

    survives_each-some :
        (is : List Interval) (k : Bytes) (b : BuildingCandle d.Number)
        → survives_each is k (some b) ≡ (if expires_any symbol t is (k, b) then none else some b)
    survives_each-some [] k b = refl
    survives_each-some (i ∷ is) k b = elim (Bool-cases (expires d symbol i t (k, b))) [
      | inl h ↦ rw h (survives_each-none is k)
      | inr h ↦ rw h (survives_each-some is k b)
    ]

    pub close_each-load-none :
        (is : List Interval) (st : IntervalAggregator d.Number) (k : Bytes)
        → Unique st.building_candles
        → load k st.building_candles ≡ none
        → load k (close_each d now symbol t is st).building_candles ≡ none
    close_each-load-none is st k u h =
        close_each-load is st k u ∙ ap (survives_each is k) h ∙ survives_each-none is k

    pub close_each-load-some :
        (is : List Interval) (st : IntervalAggregator d.Number) (k : Bytes)
        (b : BuildingCandle d.Number)
        → Unique st.building_candles
        → load k st.building_candles ≡ some b
        → load k (close_each d now symbol t is st).building_candles
          ≡ (if expires_any symbol t is (k, b) then none else some b)
    close_each-load-some is st k b u h =
        close_each-load is st k u ∙ ap (survives_each is k) h ∙ survives_each-some is k b
