-- ===== src/Stats/Ring.antt =====
-- internal/services/candle/streaming_price_calculator.go: a ring of the last 1440 1m candles of a
-- symbol, with sums, extremes and an open price that each new candle brings up to date. The mutex
-- guards one call at a time.
use nyyu_market.Prelude.{
  ℕ, ◌+◌, ◌-◌, ◌%◌, List, [], ◌∷◌, Bool, true, false, Option, none, some, if◌then◌else◌, get_elem?,
  set, length, leb, ltb, ◌==◌,
}
use nyyu_market.Prelude.Text.{Bytes}
use nyyu_market.Prelude.Lists.{replicate}
use nyyu_market.Prelude.Maps.{load, store, delete, bytes_key}
use nyyu_market.Decimal.{Decimal}
use nyyu_market.Models.Interval.{Interval, m1}
use nyyu_market.Models.Candle.{Candle, Price, spot}
use nyyu_market.Time.{Time, Duration, day}

-- The slots of the ring: 24 hours of minutes.
abbrev pub ring_size : ℕ
ring_size = 1440

pub record Symbol24hStats (Number : Type 0) : Type 0 where
  pub symbol : Bytes
  pub candles : List (Option (Candle Number))
  pub next_index : ℕ
  pub is_full : Bool
  pub open_24h : Number
  pub high_24h : Number
  pub low_24h : Number
  pub volume_24h : Number
  pub quote_volume_24h : Number
  pub last_update : Time
  pub is_warm : Bool

-- `stats.candles[i]`: nil if the slot is free.
abbrev pub slot {ℓ} : {A : Type ℓ} → List (Option A) → ℕ → Option A
slot xs i = elim (get_elem? xs i) [ none ↦ none | some o ↦ o ]

unfoldable pub empty_ring : (A : Type 0) → List (Option A)
empty_ring A = replicate ring_size none

-- The candles that are not nil.
abbrev pub present {ℓ} : {A : Type ℓ} → List (Option A) → List A
present [] = []
present (none ∷ xs) = present xs
present (some a ∷ xs) = a ∷ present xs

module _ (d : Decimal) where
  open d use {
    Number, zero_value, add, sub, mul, div, greater_than, less_than, is_zero, new_from_int,
  }

  -- The literal of `LoadOrStore` for a new symbol.
  unfoldable pub new_stats : Bytes → Time → Symbol24hStats Number
  new_stats symbol now = record {
    symbol = symbol;
    candles = empty_ring (Candle Number);
    next_index = 0;
    is_full = false;
    open_24h = zero_value;
    high_24h = zero_value;
    low_24h = zero_value;
    volume_24h = zero_value;
    quote_volume_24h = zero_value;
    last_update = now;
    is_warm = false;
  }

  -- The loop of `recalculateHighLow`, over its variables `first`, `maxHigh` and `minLow`.
  unfoldable pub high_low_from :
      Bool → Number → Number → List (Option (Candle Number)) → Number × Number
  high_low_from first max_high min_low [] = (max_high, min_low)
  high_low_from first max_high min_low (none ∷ xs) = high_low_from first max_high min_low xs
  high_low_from true max_high min_low (some c ∷ xs) = high_low_from false c.high c.low xs
  high_low_from false max_high min_low (some c ∷ xs) =
      high_low_from false (if greater_than c.high max_high then c.high else max_high)
        (if less_than c.low min_low then c.low else min_low) xs

  -- `recalculateHighLow`
  unfoldable pub recalculate_high_low : Symbol24hStats Number → Symbol24hStats Number
  recalculate_high_low s =
      let (max_high, min_low) = high_low_from true zero_value zero_value s.candles in
      record s { high_24h = max_high; low_24h = min_low }

  abbrev pub take_off : (Candle Number → Number) → Option (Candle Number) → Number → Number
  take_off f none v = v
  take_off f (some c) v = sub v (f c)

  abbrev pub open_or : Option (Candle Number) → Number → Number
  open_or none v = v
  open_or (some c) v = c.open_price

  -- What `ProcessCandle` does to the statistics of the candle's symbol.
  unfoldable pub push_candle : Time → Candle Number → Symbol24hStats Number → Symbol24hStats Number
  unfolding recalculate_high_low
  push_candle now c s =
      let old_candle = slot s.candles s.next_index in
      let next = (s.next_index + 1) % ring_size in
      let t : Symbol24hStats Number = recalculate_high_low (record s {
        candles = set s.candles s.next_index (some c);
        next_index = next;
        is_full = if next == 0 then true else s.is_full;
        volume_24h = add (take_off (λ x. x.volume) old_candle s.volume_24h) c.volume;
        quote_volume_24h =
            add (take_off (λ x. x.quote_volume) old_candle s.quote_volume_24h) c.quote_volume;
      }) in
      record t {
        open_24h = open_or (slot t.candles t.next_index) t.open_24h;
        last_update = now;
        is_warm = true;
      }

  abbrev pub Calculator : Type 0
  Calculator = List (Bytes × Symbol24hStats Number)

  abbrev pub or_new_stats : Option (Symbol24hStats Number) → Bytes → Time → Symbol24hStats Number
  or_new_stats none symbol now = new_stats symbol now
  or_new_stats (some s) symbol now = s

  abbrev pub is_1m : Interval → Bool
  is_1m m1 = true
  is_1m _ = false

  -- `ProcessCandle`
  unfoldable pub process_candle : Time → Candle Number → Calculator → Calculator
  process_candle now c m =
      if is_1m c.interval
      then store c.symbol (push_candle now c (or_new_stats (load c.symbol m) c.symbol now)) m
      else m

  -- The price that both branches of `Get24hStats` return.
  unfoldable pub price_of : Symbol24hStats Number → Bytes → Number → Time → Price Number
  price_of s symbol current_price now =
      let price_change = sub current_price s.open_24h in
      record {
        symbol = symbol;
        last_price = current_price;
        price_change_24h = price_change;
        price_change_24p =
            if is_zero s.open_24h
            then zero_value
            else mul (div price_change s.open_24h) (new_from_int 100);
        high_24h = s.high_24h;
        low_24h = s.low_24h;
        volume_24h = s.volume_24h;
        quote_volume_24h = s.quote_volume_24h;
        updated_at = now;
      }

  unfoldable pub basic_price : Bytes → Number → Time → Price Number
  basic_price symbol current_price now = record {
    symbol = symbol;
    last_price = current_price;
    price_change_24h = zero_value;
    price_change_24p = zero_value;
    high_24h = zero_value;
    low_24h = zero_value;
    volume_24h = zero_value;
    quote_volume_24h = zero_value;
    updated_at = now;
  }

  -- The loop that fills the ring from the database's candles, over its index.
  unfoldable pub fill_from :
      ℕ → List (Candle Number) → Symbol24hStats Number → Symbol24hStats Number
  fill_from i [] s = s
  fill_from i (c ∷ cs) s =
      let rest = fill_from (i + 1) cs (record s {
        candles = set s.candles i (some c);
        volume_24h = add s.volume_24h c.volume;
        quote_volume_24h = add s.quote_volume_24h c.quote_volume;
      }) in
      if leb ring_size i then s else rest

  -- The statistics that `warmupSymbol` makes of the candles `c ∷ cs`.
  unfoldable pub warm_stats :
      Bytes → Time → Candle Number → List (Candle Number) → Symbol24hStats Number
  unfolding recalculate_high_low
  warm_stats symbol now c cs =
      let s = fill_from 0 (c ∷ cs) (record (new_stats symbol now) { is_warm = true }) in
      let n = length (c ∷ cs) in
      record (recalculate_high_low s) {
        next_index = n % ring_size;
        is_full = if leb ring_size n then true else false;
        open_24h = c.open_price;
      }

  -- What `GetCandles` of the repository answers; `none` is an error.
  abbrev pub Query : Type 0
  Query = Bytes → Interval → Bytes → Bytes → Time → Time → ℕ → Option (List (Candle Number))

  -- What `warmupSymbol` does with the database's answer.
  abbrev pub warmed :
      Time
      → Bytes
      → Number
      → Calculator
      → Option (List (Candle Number))
      → Option (Price Number) × Calculator
  warmed now symbol current_price m none = (none, m)
  warmed now symbol current_price m (some []) = (some (basic_price symbol current_price now), m)
  warmed now symbol current_price m (some (c ∷ cs)) =
      let s = warm_stats symbol now c cs in
      (some (price_of s symbol current_price now), store symbol s m)

  -- `warmupSymbol`
  unfoldable pub warmup_symbol :
      Query → Time → Bytes → Number → Calculator → Option (Price Number) × Calculator
  warmup_symbol get_candles now symbol current_price m =
      warmed now symbol current_price m (get_candles symbol m1 [] spot (now - day) now ring_size)

  -- `Get24hStats`, from what the map has for the symbol.
  abbrev pub served :
      Query
      → Time
      → Bytes
      → Number
      → Calculator
      → Option (Symbol24hStats Number)
      → Option (Price Number) × Calculator
  served get_candles now symbol current_price m none =
      warmup_symbol get_candles now symbol current_price m
  served get_candles now symbol current_price m (some s) =
      if s.is_warm
      then (some (price_of s symbol current_price now), m)
      else warmup_symbol get_candles now symbol current_price m

  unfoldable pub get_24h_stats :
      Query → Time → Bytes → Number → Calculator → Option (Price Number) × Calculator
  get_24h_stats get_candles now symbol current_price m =
      served get_candles now symbol current_price m (load symbol m)

  -- `CleanupStaleSymbols`, over the entries of its `Range`.
  unfoldable pub cleanup_from :
      Time → Duration → List (Bytes × Symbol24hStats Number) → Calculator → Calculator
  cleanup_from now max_age [] m = m
  cleanup_from now max_age ((key, s) ∷ es) m =
      cleanup_from now max_age es (if ltb max_age (now - s.last_update) then delete key m else m)

  unfoldable pub cleanup_stale_symbols : Time → Duration → Calculator → Calculator
  cleanup_stale_symbols now max_age m = cleanup_from now max_age m m
