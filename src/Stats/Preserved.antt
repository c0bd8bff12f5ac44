-- ===== src/Stats/Preserved.antt =====
-- What each operation of the calculator leaves in its map.
use nyyu_market.Prelude.{
  ℕ, ◌+◌, ◌≤◌, ◌<◌, List, [], ◌∷◌, true, false, Option, none, some, get_elem?, set, length, All,
  ◌≡◌, leb, ltb, ◌-◌, refl, sym, ap, ◌∙◌, arith, Bool-cases, inl, inr,
}
use nyyu_market.Prelude.Lists.{length-set, length-replicate, get_elem?-set_ne, get_elem?-replicate}
use native.Mathlib.Decide.{dec_lt}
use nyyu_market.Prelude.Text.{Bytes}
use nyyu_market.Prelude.Maps.{load, bytes_key, All-load, All-store, All-delete}
use nyyu_market.Decimal.{Decimal, DecimalSums, DecimalOrder}
use nyyu_market.Decimal.Extremes.{sum_of}
use nyyu_market.Models.Interval.{m1}
use nyyu_market.Models.Candle.{Candle, spot}
use nyyu_market.Time.{Time, Duration, day}
use nyyu_market.Stats.Ring.{
  Symbol24hStats, ring_size, slot, empty_ring, present, new_stats, recalculate_high_low, fill_from,
  warm_stats, Calculator, or_new_stats, process_candle, Query, warmup_symbol, get_24h_stats,
  cleanup_from, is_1m, warmed, served, cleanup_stale_symbols,
}
use nyyu_market.Stats.Totals.{
  IsTotal, new_stats-IsTotal, push_candle-IsTotal, sum-exchange, sum-replicate,
  recalculate_high_low-extremes,
}

leb-true : (a b : ℕ) → a ≤ b → leb a b ≡ true
leb-true a b h = ground arith

leb-false : (a b : ℕ) → b < a → leb a b ≡ false
leb-false a b h = ground arith

-- The calls that the calculator serves, with the time of each.
pub data Call (d : Decimal) : Type 0 where
  process : Time → Candle d.Number → Call d
  get : Time → Bytes → d.Number → Call d
  cleanup : Time → Duration → Call d

module _ (d : Decimal) (get_candles : Query d) where
  abbrev pub serve : Call d → Calculator d → Calculator d
  serve (Call.process now c) m = process_candle d now c m
  serve (Call.get now symbol price) m = (get_24h_stats d get_candles now symbol price m).1
  serve (Call.cleanup now max_age) m = cleanup_stale_symbols d now max_age m

  unfoldable pub serve_all : List (Call d) → Calculator d → Calculator d
  serve_all [] m = m
  serve_all (call ∷ calls) m = serve_all calls (serve call m)

module _ (d : Decimal) (s : DecimalSums d) (o : DecimalOrder d) where
  open d use {Number, add}

  -- Statistics whose slots from `i` on are free, with sums over the others.
  record Filled (i : ℕ) (t : Symbol24hStats Number) : Type 0 where
    sized : length t.candles ≡ ring_size
    free : (k : ℕ) → i ≤ k → k < ring_size → get_elem? t.candles k ≡ some none
    volume_sum : t.volume_24h ≡ sum_of d (λ c. c.volume) (present t.candles)
    quote_sum : t.quote_volume_24h ≡ sum_of d (λ c. c.quote_volume) (present t.candles)

  sum-free :
      (f : Candle Number → Number) (xs : List (Option (Candle Number))) (i : ℕ) (c : Candle Number)
      (v : Number)
      → i < length xs
      → get_elem? xs i ≡ some none
      → v ≡ sum_of d f (present xs)
      → add v (f c) ≡ sum_of d f (present (set xs i (some c)))
  sum-free f xs i c v h free e =
      ap (λ x. add x (f c)) (sym (rw (slot, free) refl)) ∙ sum-exchange d s f xs i c v h e

  fill_from-Filled :
      (cs : List (Candle Number)) (i : ℕ) (t : Symbol24hStats Number)
      → Filled i t
      → Filled ring_size (fill_from d i cs t)
  unfolding fill_from
  fill_from-Filled [] i t r = record {
    sized = r.sized;
    free = λ k h l. absurd (omega arith);
    volume_sum = r.volume_sum;
    quote_sum = r.quote_sum;
  }
  fill_from-Filled (c ∷ cs) i t r = elim (dec_lt i ring_size) [
    | no stop ↦ rw (leb-true ring_size i (omega arith)) record {
      sized = r.sized;
      free = λ k h l. absurd (omega arith);
      volume_sum = r.volume_sum;
      quote_sum = r.quote_sum;
    }
    | yes on ↦
        let inside : i < length t.candles = omega (arith, r.sized) in
        rw (leb-false ring_size i on) (
          fill_from-Filled cs (i + 1) _ record {
            sized = length-set t.candles i (some c) ∙ r.sized;
            free = λ k h l.
                get_elem?-set_ne t.candles i k (some c) (λ e. omega arith)
                ∙ r.free k (omega arith) l;
            volume_sum =
                sum-free (λ x. x.volume) t.candles i c t.volume_24h inside
                  (r.free i (omega arith) on) r.volume_sum;
            quote_sum =
                sum-free (λ x. x.quote_volume) t.candles i c t.quote_volume_24h inside
                  (r.free i (omega arith) on) r.quote_sum;
          })
  ]

  start-Filled :
      (symbol : Bytes) (now : Time) → Filled 0 (record (new_stats d symbol now) { is_warm = true })
  unfolding new_stats empty_ring
  start-Filled symbol now = record {
    sized = length-replicate {A = Option (Candle Number)} ring_size none;
    free = λ k h l. get_elem?-replicate {A = Option (Candle Number)} ring_size none k l;
    volume_sum = sum-replicate d s (λ c. c.volume) ring_size;
    quote_sum = sum-replicate d s (λ c. c.quote_volume) ring_size;
  }

  -- Statistics made of the database's candles are those of the candles in the ring.
  warm_stats-IsTotal :
      (symbol : Bytes) (now : Time) (c : Candle Number) (cs : List (Candle Number))
      → IsTotal d (warm_stats d symbol now c cs)
  unfolding warm_stats recalculate_high_low
  warm_stats-IsTotal symbol now c cs =
      let start : Symbol24hStats Number = record (new_stats d symbol now) { is_warm = true } in
      let t = fill_from d 0 (c ∷ cs) start in
      let r = fill_from-Filled (c ∷ cs) 0 start (start-Filled symbol now) in
      record {
        sized = r.sized;
        index_in = omega arith;
        volume_sum = r.volume_sum;
        quote_sum = r.quote_sum;
        highest = (recalculate_high_low-extremes d s o t).0;
        lowest = (recalculate_high_low-extremes d s o t).1;
      }

  -- The statistics of every symbol are those of the candles in its ring.
  abbrev pub AllTotal : Calculator d → Type 0
  AllTotal m = All (λ e. IsTotal d e.1) m

  or_new-IsTotal :
      (q : Option (Symbol24hStats Number)) (symbol : Bytes) (now : Time) (m : Calculator d)
      → AllTotal m
      → load symbol m ≡ q
      → IsTotal d (or_new_stats d q symbol now)
  or_new-IsTotal none symbol now m h e = new_stats-IsTotal d s o symbol now
  or_new-IsTotal (some t) symbol now m h e = All-load (λ x. IsTotal d x.1) symbol m h e

  -- `ProcessCandle`, whatever the candle's interval, keeps the statistics of every symbol those of
  -- the candles in its ring.
  pub process_candle-AllTotal :
      (now : Time) (c : Candle Number) (m : Calculator d)
      → AllTotal m
      → AllTotal (process_candle d now c m)
  unfolding process_candle
  process_candle-AllTotal now c m h = elim (Bool-cases (is_1m d c.interval)) [
    | inl y ↦ rw y (
        All-store (λ x. IsTotal d x.1) c.symbol _ m
          (push_candle-IsTotal d s o now c _
            (or_new-IsTotal (load c.symbol m) c.symbol now m h refl))
          h)
    | inr n ↦ rw n h
  ]

  warmed-AllTotal :
      (now : Time) (symbol : Bytes) (price : Number) (m : Calculator d)
      (answer : Option (List (Candle Number)))
      → AllTotal m
      → AllTotal (warmed d now symbol price m answer).1
  warmed-AllTotal now symbol price m none h = h
  warmed-AllTotal now symbol price m (some []) h = h
  warmed-AllTotal now symbol price m (some (c ∷ cs)) h =
      All-store (λ x. IsTotal d x.1) symbol _ m (warm_stats-IsTotal symbol now c cs) h

  warmup_symbol-AllTotal :
      (get_candles : Query d) (now : Time) (symbol : Bytes) (price : Number) (m : Calculator d)
      → AllTotal m
      → AllTotal (warmup_symbol d get_candles now symbol price m).1
  unfolding warmup_symbol
  warmup_symbol-AllTotal get_candles now symbol price m h =
      warmed-AllTotal now symbol price m (get_candles symbol m1 [] spot (now - day) now ring_size) h

  served-AllTotal :
      (get_candles : Query d) (now : Time) (symbol : Bytes) (price : Number) (m : Calculator d)
      (found : Option (Symbol24hStats Number))
      → AllTotal m
      → AllTotal (served d get_candles now symbol price m found).1
  served-AllTotal get_candles now symbol price m none h =
      warmup_symbol-AllTotal get_candles now symbol price m h
  served-AllTotal get_candles now symbol price m (some t) h = elim (Bool-cases t.is_warm) [
    | inl y ↦ rw y h
    | inr n ↦ rw n (warmup_symbol-AllTotal get_candles now symbol price m h)
  ]

  -- `Get24hStats`, whatever the database answers, keeps the statistics of every symbol those of the
  -- candles in its ring.
  pub get_24h_stats-AllTotal :
      (get_candles : Query d) (now : Time) (symbol : Bytes) (price : Number) (m : Calculator d)
      → AllTotal m
      → AllTotal (get_24h_stats d get_candles now symbol price m).1
  unfolding get_24h_stats
  get_24h_stats-AllTotal get_candles now symbol price m h =
      served-AllTotal get_candles now symbol price m (load symbol m) h

  cleanup_from-AllTotal :
      (now : Time) (max_age : Duration) (es m : Calculator d)
      → AllTotal m
      → AllTotal (cleanup_from d now max_age es m)
  unfolding cleanup_from
  cleanup_from-AllTotal now max_age [] m h = h
  cleanup_from-AllTotal now max_age ((key, t) ∷ es) m h =
      elim (Bool-cases (ltb max_age (now - t.last_update))) [
        | inl y ↦
            rw y (cleanup_from-AllTotal now max_age es _ (All-delete (λ x. IsTotal d x.1) key m h))
        | inr n ↦ rw n (cleanup_from-AllTotal now max_age es m h)
      ]

  cleanup_stale_symbols-AllTotal :
      (now : Time) (max_age : Duration) (m : Calculator d)
      → AllTotal m
      → AllTotal (cleanup_stale_symbols d now max_age m)
  unfolding cleanup_stale_symbols
  cleanup_stale_symbols-AllTotal now max_age m h = cleanup_from-AllTotal now max_age m m h

  serve-AllTotal :
      (get_candles : Query d) (call : Call d) (m : Calculator d)
      → AllTotal m
      → AllTotal (serve d get_candles call m)
  serve-AllTotal g (Call.process now c) m h = process_candle-AllTotal now c m h
  serve-AllTotal g (Call.get now symbol price) m h = get_24h_stats-AllTotal g now symbol price m h
  serve-AllTotal g (Call.cleanup now max_age) m h = cleanup_stale_symbols-AllTotal now max_age m h

  -- By the laws of decimal sums and order, whatever calls of `ProcessCandle`, `Get24hStats` and
  -- `CleanupStaleSymbols` a calculator serves, and whatever the database answers: if the
  -- statistics of every symbol start as those of the candles in its ring, they end so. That is,
  -- both volumes are the sums of the candles' volumes, the high is one of their highs and no other
  -- is greater, and the low is one of their lows and no other is less, if there are candles.
  pub serve_all-AllTotal :
      (get_candles : Query d) (calls : List (Call d)) (m : Calculator d)
      → AllTotal m
      → AllTotal (serve_all d get_candles calls m)
  unfolding serve_all
  serve_all-AllTotal g [] m h = h
  serve_all-AllTotal g (call ∷ calls) m h =
      serve_all-AllTotal g calls (serve d g call m) (serve-AllTotal g call m h)
