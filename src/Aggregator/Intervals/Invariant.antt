-- ===== src/Aggregator/Intervals/Invariant.antt =====
-- The invariant of an `IntervalAggregator`, which `Process1mCandle` keeps.
use nyyu_market.Prelude.{
  ℕ, ◌+◌, ◌≤◌, ◌<◌, List, [], ◌∷◌, true, Option, none, some, ◌≡◌, refl, sym, ap, ◌∙◌, arith, inl,
  inr, Bool-cases, length, length-append, All,
}
use nyyu_market.Prelude.Text.{Bytes, NoColon}
use nyyu_market.Prelude.Maps.{load, store, bytes_key, nat_key, All-load, All-store, All-delete}
use nyyu_market.Prelude.Unique.{Unique, Unique-store, Unique-delete}
use nyyu_market.Decimal.{Decimal}
use nyyu_market.Models.Interval.{Interval, s1, m1, other}
use nyyu_market.Models.Candle.{Candle}
use nyyu_market.Time.{Time, unix, of_unix}
use nyyu_market.Aggregator.Period.{intervals, get_interval_open_time, interval_duration, is_built}
use nyyu_market.Aggregator.Period.Laws.{IsRecent, open_time_whole}
use nyyu_market.Aggregator.Build.{BuildingCandle}
use nyyu_market.Aggregator.Intervals.Keys.{candle_key, candle_key_inj, is_named}
use nyyu_market.Aggregator.Intervals.{
  IntervalAggregator, batch_cap, try_send, new_interval_aggregator, expires, complete_interval_now,
  close_entry, close_range, close_each, close_expired_intervals, new_building_candle, put_1m_candle,
  or_new, period_key, update_interval_candle, update_each, process_1m_candle,
}

-- A stored 1m candle: it stands under its own minute, and belongs to the symbol and the period.
pub record IsMinuteOf {Number : Type 0} (symbol : Bytes) (interval : Interval) (open_time : Time)
    (x : ℕ × Candle Number) : Type 0 where
  pub keyed : x.0 ≡ unix x.1.open_time
  pub same_symbol : x.1.symbol ≡ symbol
  pub in_period : get_interval_open_time x.1.open_time interval ≡ open_time

-- A building candle: it stands under its own key, lasts its interval, and has 1m candles of its
-- period alone, at most one for a minute.
pub record IsEntry {Number : Type 0} (e : Bytes × BuildingCandle Number) : Type 0 where
  pub keyed : e.0 ≡ candle_key e.1.symbol e.1.interval (unix e.1.open_time)
  pub colon_free : NoColon e.1.symbol
  pub built : is_built e.1.interval ≡ true
  pub whole : of_unix (unix e.1.open_time) ≡ e.1.open_time
  pub lasting : e.1.close_time ≡ e.1.open_time + interval_duration e.1.interval
  pub filled : 0 < length e.1.candles_1m
  pub minutes_unique : Unique e.1.candles_1m
  pub minutes : All (IsMinuteOf e.1.symbol e.1.interval e.1.open_time) e.1.candles_1m

pub record IsValid {Number : Type 0} (st : IntervalAggregator Number) : Type 0 where
  pub unique : Unique st.building_candles
  pub entries : All IsEntry st.building_candles
  pub bounded : length st.batch_chan ≤ batch_cap

-- What the aggregator expects of a 1m candle.
pub record IsInput {Number : Type 0} (c : Candle Number) : Type 0 where
  pub colon_free : NoColon c.symbol
  pub recent : IsRecent c.open_time

pub new_interval_aggregator-IsValid : (Number : Type 0) → IsValid (new_interval_aggregator Number)
new_interval_aggregator-IsValid Number = record { unique = tt; entries = tt; bounded = omega arith }

pub built-is_named : (i : Interval) → is_built i ≡ true → is_named i ≡ true
built-is_named s1 h = cc
built-is_named m1 h = cc
built-is_named (other s) h = cc
built-is_named i h = refl

pub intervals-built : All (λ i. is_built i ≡ true) intervals
intervals-built = ground arith

length-try_send {ℓ} :
    {A : Type ℓ} (cap : ℕ) (a : A) (ch : List A)
    → length ch ≤ cap
    → length (try_send cap a ch) ≤ cap
unfolding try_send
length-try_send cap a ch h = ground (arith, length-append ch (a ∷ []))

module _ (d : Decimal) (now : Time) where
  close_entry-IsValid :
      (symbol : Bytes) (i : Interval) (t : Time) (e : Bytes × BuildingCandle d.Number)
      (st : IntervalAggregator d.Number)
      → IsValid st
      → IsValid (close_entry d now symbol i t e st)
  unfolding close_entry complete_interval_now
  close_entry-IsValid symbol i t e st v = elim (Bool-cases (expires d symbol i t e)) [
    | inl h ↦ rw h (record {
      unique = Unique-delete e.0 st.building_candles v.unique;
      entries = All-delete IsEntry e.0 st.building_candles v.entries;
      bounded = length-try_send batch_cap _ st.batch_chan v.bounded;
    })
    | inr h ↦ rw h v
  ]

  close_range-IsValid :
      (symbol : Bytes) (i : Interval) (t : Time) (es : List (Bytes × BuildingCandle d.Number))
      (st : IntervalAggregator d.Number)
      → IsValid st
      → IsValid (close_range d now symbol i t es st)
  unfolding close_range
  close_range-IsValid symbol i t [] st v = v
  close_range-IsValid symbol i t (e ∷ es) st v =
      close_range-IsValid symbol i t es _ (close_entry-IsValid symbol i t e st v)

  close_each-IsValid :
      (symbol : Bytes) (t : Time) (is : List Interval) (st : IntervalAggregator d.Number)
      → IsValid st
      → IsValid (close_each d now symbol t is st)
  unfolding close_each
  close_each-IsValid symbol t [] st v = v
  close_each-IsValid symbol t (i ∷ is) st v =
      close_each-IsValid symbol t is _ (close_range-IsValid symbol i t st.building_candles st v)

  pub close_expired_intervals-IsValid :
      (symbol : Bytes) (t : Time) (st : IntervalAggregator d.Number)
      → IsValid st
      → IsValid (close_expired_intervals d now symbol t st)
  unfolding close_expired_intervals
  close_expired_intervals-IsValid symbol t st v = close_each-IsValid symbol t intervals st v

module _ (d : Decimal) where
  -- The entry under the key of a candle's period is that period's, of that symbol.
  pub period_entry :
      (c : Candle d.Number) (i : Interval) (b : BuildingCandle d.Number)
      → IsInput c
      → is_built i ≡ true
      → IsEntry (period_key d c i, b)
      → (b.symbol ≡ c.symbol)
        × (b.interval ≡ i)
        × (b.open_time ≡ get_interval_open_time c.open_time i)
  period_entry c i b v h e =
      let (p, q, r) =
        candle_key_inj c.symbol b.symbol i b.interval (unix (get_interval_open_time c.open_time i))
          (unix b.open_time) v.colon_free e.colon_free (built-is_named i h)
          (built-is_named b.interval e.built) e.keyed in
      (sym p, sym q, sym e.whole ∙ ap of_unix (sym r) ∙ open_time_whole c.open_time i h v.recent)

  store-filled :
      (k : ℕ) (c : Candle d.Number) (m : List (ℕ × Candle d.Number)) → 0 < length (store k c m)
  unfolding store
  store-filled k c [] = omega arith
  store-filled k c ((j, w) ∷ m) = ground arith

  put_1m_candle-IsEntry :
      (c : Candle d.Number) (i : Interval) (b : BuildingCandle d.Number)
      → IsInput c
      → is_built i ≡ true
      → IsEntry (period_key d c i, b)
      → IsEntry (period_key d c i, put_1m_candle d c b)
  unfolding put_1m_candle
  put_1m_candle-IsEntry c i b v h e =
      let (p, q, r) = period_entry c i b v h e in
      let k = unix c.open_time in
      record {
        keyed = e.keyed;
        colon_free = e.colon_free;
        built = e.built;
        whole = e.whole;
        lasting = e.lasting;
        filled = store-filled k c b.candles_1m;
        minutes_unique = Unique-store k c b.candles_1m e.minutes_unique;
        minutes =
            All-store (IsMinuteOf b.symbol b.interval b.open_time) k c b.candles_1m
              (record {
                keyed = refl;
                same_symbol = sym p;
                in_period = ap (get_interval_open_time c.open_time) q ∙ sym r;
              })
              e.minutes;
      }

  new_building_candle-IsEntry :
      (c : Candle d.Number) (i : Interval)
      → IsInput c
      → is_built i ≡ true
      → IsEntry (period_key d c i, put_1m_candle d c (new_building_candle d c i))
  unfolding put_1m_candle new_building_candle store load
  new_building_candle-IsEntry c i v h = record {
    keyed = refl;
    colon_free = v.colon_free;
    built = h;
    whole = open_time_whole c.open_time i h v.recent;
    lasting = refl;
    filled = omega arith;
    minutes_unique = (refl, tt);
    minutes = (record { keyed = refl; same_symbol = refl; in_period = refl }, tt);
  }

  updated-IsEntry :
      (c : Candle d.Number) (i : Interval) (o : Option (BuildingCandle d.Number))
      → IsInput c
      → is_built i ≡ true
      → ((b : BuildingCandle d.Number) → o ≡ some b → IsEntry (period_key d c i, b))
      → IsEntry (period_key d c i, put_1m_candle d c (or_new d o (new_building_candle d c i)))
  updated-IsEntry c i none v h f = new_building_candle-IsEntry c i v h
  updated-IsEntry c i (some b) v h f = put_1m_candle-IsEntry c i b v h (f b refl)

module _ (d : Decimal) (now : Time) where
  update_interval_candle-IsValid :
      (c : Candle d.Number) (i : Interval) (st : IntervalAggregator d.Number)
      → IsInput c
      → is_built i ≡ true
      → IsValid st
      → IsValid (update_interval_candle d now c i st)
  unfolding update_interval_candle
  update_interval_candle-IsValid c i st v h w =
      let key = period_key d c i in
      let m = st.building_candles in
      record {
        unique = Unique-store key _ m w.unique;
        entries =
            All-store IsEntry key _ m
              (updated-IsEntry d c i (load key m) v h (λ b e. All-load IsEntry key m w.entries e))
              w.entries;
        bounded = w.bounded;
      }

  update_each-IsValid :
      (c : Candle d.Number) (is : List Interval) (st : IntervalAggregator d.Number)
      → IsInput c
      → All (λ i. is_built i ≡ true) is
      → IsValid st
      → IsValid (update_each d now c is st)
  unfolding update_each
  update_each-IsValid c [] st v h w = w
  update_each-IsValid c (i ∷ is) st v h w =
      update_each-IsValid c is _ v h.1 (update_interval_candle-IsValid c i st v h.0 w)

  -- `Process1mCandle` of a 1m candle from February 1970 on, whose symbol has no colon, keeps the
  -- state well-formed: each key has one building candle, which stands under the key of its own
  -- symbol, interval and open time, lasts its interval, and has 1m candles of its symbol and
  -- period alone, at least one and at most one for a minute; and the batch channel is within its
  -- capacity.
  pub process_1m_candle-IsValid :
      (c : Candle d.Number) (st : IntervalAggregator d.Number)
      → IsInput c
      → IsValid st
      → IsValid (process_1m_candle d now c st)
  unfolding process_1m_candle
  process_1m_candle-IsValid c st v w =
      update_each-IsValid c intervals _ v intervals-built
        (close_expired_intervals-IsValid d now c.symbol c.open_time st w)
