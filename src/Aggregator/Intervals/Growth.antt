-- ===== src/Aggregator/Intervals/Growth.antt =====
-- What `Process1mCandle` makes of each building candle.
use nyyu_market.Prelude.{
  ◌<◌, true, Option, none, some, if◌then◌else◌, ◌≡◌, ◌≢◌, refl, sym, ap, subst, ◌∙◌, arith, inl,
  inr, Bool-cases, All, All-map, leb,
}
use nyyu_market.Prelude.Text.{Bytes, bytes_eq}
use nyyu_market.Prelude.Maps.{load, bytes_key, bytes_eq_iff, nat_key, All-load}
use nyyu_market.Decimal.{Decimal}
use nyyu_market.Models.Interval.{Interval, mo1}
use nyyu_market.Models.Candle.{Candle}
use nyyu_market.Time.{Time, date_of}
use nyyu_market.Aggregator.Period.{intervals, interval_duration, is_built, is_fixed}
use nyyu_market.Aggregator.Period.Laws.{open_time_bounds, month_overrun}
use nyyu_market.Aggregator.Build.{BuildingCandle}
use nyyu_market.Aggregator.Intervals.Invariant.{
  IsEntry, IsValid, IsInput, intervals-built, period_entry, process_1m_candle-IsValid,
}
use nyyu_market.Aggregator.Intervals.Closed.{
  in_intervals, close_expired_intervals-closes, close_expired_intervals-keeps,
  close_expired_intervals-none,
}
use nyyu_market.Aggregator.Intervals.{
  IntervalAggregator, close_expired_intervals, new_building_candle, put_1m_candle, or_new,
  period_key, process_1m_candle,
}
use nyyu_market.Aggregator.Intervals.Others.{
  intervals-Distinct, update_each-other, updated, update_each-own,
}

fixed-is_built : (i : Interval) → is_fixed i ≡ true → is_built i ≡ true
fixed-is_built mo1 h = cc
fixed-is_built i h = h

fixed-ne-month : (i : Interval) → is_fixed i ≡ true → i ≢ mo1
fixed-ne-month i f e = cc (ap is_fixed e)

module _ (d : Decimal) (now : Time) (c : Candle d.Number) where
  module _ (v : IsInput c) where
    -- The candle of a period of fixed length lasts beyond each of its 1m candles.
    fixed_lasts :
        (i : Interval) (b : BuildingCandle d.Number)
        → is_fixed i ≡ true
        → is_built i ≡ true
        → IsEntry (period_key d c i, b)
        → c.open_time < b.close_time
    fixed_lasts i b f h r =
        let (_, q, o) = period_entry d c i b v h r in
        omega (
          arith,
          r.lasting,
          o,
          ap interval_duration q,
          open_time_bounds c.open_time i (fixed-ne-month i f) (omega (arith, v.recent)),
        )

    -- Only the key of its own period is the key of a candle.
    foreign_key :
        (k : Bytes) (b : BuildingCandle d.Number)
        → IsEntry (k, b)
        → ((j : Interval) → b.symbol ≡ c.symbol → b.interval ≡ j → period_key d c j ≢ k)
        → All (λ j. period_key d c j ≢ k) intervals
    foreign_key k b r n =
        All-map {Q = λ j. period_key d c j ≢ k}
          (λ j hj q.
            let (p, i, _) = period_entry d c j b v hj (subst (λ x. IsEntry (x, b)) (sym q) r) in
            n j p i q)
          intervals intervals-built

    module _ (st : IntervalAggregator d.Number) (w : IsValid st) where
      -- A 1m candle's own building candle, if its time is not over, else none.
      abbrev current : Option (BuildingCandle d.Number) → Option (BuildingCandle d.Number)
      current none = none
      current (some b) = if leb b.close_time c.open_time then none else some b

      own-IsEntry :
          (i : Interval) (b : BuildingCandle d.Number)
          → load (period_key d c i) st.building_candles ≡ some b
          → IsEntry (period_key d c i, b)
      own-IsEntry i b e = All-load IsEntry _ st.building_candles w.entries e

      closed_current :
          (i : Interval) (o : Option (BuildingCandle d.Number))
          → is_built i ≡ true
          → load (period_key d c i) st.building_candles ≡ o
          → load
              (period_key d c i)
              (close_expired_intervals d now c.symbol c.open_time st).building_candles
            ≡ current o
      closed_current i none h e =
          close_expired_intervals-none d now c.symbol c.open_time st v.colon_free w _ e
      closed_current i (some b) h e =
          let (p, _, _) = period_entry d c i b v h (own-IsEntry i b e) in
          elim (Bool-cases (leb b.close_time c.open_time)) [
            | inl x ↦ rw x (
                close_expired_intervals-closes d now c.symbol c.open_time st v.colon_free w _ b e
                  (sym p) (ground arith))
            | inr x ↦ rw x (
                close_expired_intervals-keeps d now c.symbol c.open_time st v.colon_free w _ b e
                  (λ y. ground arith))
          ]

      process_own :
          (i : Interval)
          → is_built i ≡ true
          → load (period_key d c i) (process_1m_candle d now c st).building_candles
            ≡ some (updated d now c i (current (load (period_key d c i) st.building_candles)))
      unfolding process_1m_candle
      process_own i h =
          update_each-own d now c v intervals i _ h intervals-built intervals-Distinct
            (in_intervals i h)
          ∙ ap (λ o. some (updated d now c i o)) (closed_current i _ h refl)

      current_fixed :
          (i : Interval) (o : Option (BuildingCandle d.Number))
          → is_fixed i ≡ true
          → is_built i ≡ true
          → load (period_key d c i) st.building_candles ≡ o
          → current o ≡ o
      current_fixed i none f h e = refl
      current_fixed i (some b) f h e = ground (arith, fixed_lasts i b f h (own-IsEntry i b e))

      -- In a well-formed state, and for a 1m candle from February 1970 on whose symbol has no
      -- colon: for each interval whose periods have one length, `Process1mCandle` leaves under the
      -- key of the candle's period the building candle that was there, or a new one if there was
      -- none, with the 1m candle put in.
      pub process_1m_candle-grows :
          (i : Interval)
          → is_fixed i ≡ true
          → load (period_key d c i) (process_1m_candle d now c st).building_candles
            ≡ some (
                put_1m_candle d c (
                  or_new d
                    (load (period_key d c i) st.building_candles)
                    (new_building_candle d c i)))
      process_1m_candle-grows i f =
          let h = fixed-is_built i f in
          process_own i h ∙ ap (λ o. some (updated d now c i o)) (current_fixed i _ f h refl)

      current_month :
          (o : Option (BuildingCandle d.Number))
          → load (period_key d c mo1) st.building_candles ≡ o
          → (date_of c.open_time).day_of_month ≡ 30
          → current o ≡ none
      current_month none e h = refl
      current_month (some b) e h =
          let r = own-IsEntry mo1 b e in
          let (_, q, o) = period_entry d c mo1 b v refl r in
          ground (arith, r.lasting, o, ap interval_duration q, (month_overrun c.open_time).1 h)

      -- In a well-formed state, and for a 1m candle from February 1970 on whose symbol has no
      -- colon: if it opens on the 31st of a month, `Process1mCandle` leaves the building candle of
      -- the month with nothing but this 1m candle.
      pub process_1m_candle-month_restarts :
          (date_of c.open_time).day_of_month ≡ 30
          → load (period_key d c mo1) (process_1m_candle d now c st).building_candles
            ≡ some (put_1m_candle d c (new_building_candle d c mo1))
      process_1m_candle-month_restarts h =
          process_own mo1 refl ∙ ap (λ o. some (updated d now c mo1 o)) (current_month _ refl h)

      -- In a well-formed state, and for a 1m candle from February 1970 on whose symbol has no
      -- colon: `Process1mCandle` leaves a building candle of another symbol as it is.
      pub process_1m_candle-frame :
          (k : Bytes) (b : BuildingCandle d.Number)
          → load k st.building_candles ≡ some b
          → b.symbol ≢ c.symbol
          → load k (process_1m_candle d now c st).building_candles ≡ some b
      unfolding process_1m_candle
      process_1m_candle-frame k b e n =
          update_each-other d now c intervals _ k
            (foreign_key k b (All-load IsEntry k st.building_candles w.entries e) (λ j p i q. n p))
          ∙ close_expired_intervals-keeps d now c.symbol c.open_time st v.colon_free w k b e
              (λ y. n (sym y.0))

      unexpired :
          (k : Bytes) (b : BuildingCandle d.Number) (o : Option (BuildingCandle d.Number))
          → load k st.building_candles ≡ o
          → load k (close_expired_intervals d now c.symbol c.open_time st).building_candles ≡ some b
          → b.symbol ≡ c.symbol
          → c.open_time < b.close_time
      unexpired k b none e l p =
          cc (close_expired_intervals-none d now c.symbol c.open_time st v.colon_free w k e)
      unexpired k b (some b') e l p =
          let kept =
            close_expired_intervals-keeps d now c.symbol c.open_time st v.colon_free w k b' e in
          elim (Bool-cases (leb b'.close_time c.open_time)) [
            | inl x ↦ elim (Bool-cases (bytes_eq c.symbol b'.symbol)) [
              | inl y ↦ cc (
                  close_expired_intervals-closes d now c.symbol c.open_time st v.colon_free w k b' e
                    ((bytes_eq_iff c.symbol b'.symbol).0 y) (ground arith))
              | inr y ↦ ground (
                arith,
                kept (λ z. ground (arith, bytes_eq_iff c.symbol b'.symbol)),
                l,
                bytes_eq_iff c.symbol b'.symbol,
              )
            ]
            | inr x ↦ ground (arith, kept (λ z. ground arith), l)
          ]

      -- In a well-formed state, and for a 1m candle from February 1970 on whose symbol has no
      -- colon: after `Process1mCandle`, every building candle of the symbol whose periods have one
      -- length closes later than the 1m candle opens.
      pub process_1m_candle-live :
          (k : Bytes) (b : BuildingCandle d.Number)
          → load k (process_1m_candle d now c st).building_candles ≡ some b
          → b.symbol ≡ c.symbol
          → is_fixed b.interval ≡ true
          → c.open_time < b.close_time
      unfolding process_1m_candle
      process_1m_candle-live k b e p f =
          let next = process_1m_candle-IsValid d now c st v w in
          let r : IsEntry (k, b) = All-load IsEntry k _ next.entries e in
          elim (Bool-cases (bytes_eq (period_key d c b.interval) k)) [
            | inl x ↦
                let q = (bytes_eq_iff (period_key d c b.interval) k).0 x in
                fixed_lasts b.interval b f r.built (subst (λ y. IsEntry (y, b)) (sym q) r)
            | inr x ↦
                unexpired k b _ refl
                  (sym (
                      update_each-other d now c intervals
                        (close_expired_intervals d now c.symbol c.open_time st) k
                        (foreign_key k b r (λ j _ i q. cc (
                          (bytes_eq_iff (period_key d c b.interval) k).1
                            (ap (period_key d c) i ∙ q)))))
                    ∙ e)
                  p
          ]
