-- ===== src/Candles.antt =====
-- internal/services/candle/candle_service.go: candles from memory, Redis or the database, and price
-- tickers. What the database answers, whether Redis does, and the candles in the exchange
-- aggregator's memory are arguments; a value's time to live is not kept, but an entry may be dropped
-- at any time. The candles of a batch are different objects.
pub mod Reading
pub mod Stale
use nyyu_market.Prelude.{
  ℕ, List, [], ◌∷◌, ◌++◌, Bool, true, false, ◌&&◌, ◌||◌, Option, none, some, if◌then◌else◌, ltb,
  leb, ◌==◌, map,
}
use nyyu_market.Prelude.Text.{Bytes, codes, bytes_eq}
use nyyu_market.Prelude.Strings.{is_empty}
use nyyu_market.Prelude.Maps.{load, store, delete, bytes_key}
use nyyu_market.Decimal.{Decimal}
use nyyu_market.Models.Interval.{Interval, m1, text}
use nyyu_market.Models.Candle.{Candle, Price, spot}
use nyyu_market.Time.{Time}
use nyyu_market.Stats.Ring.{Calculator, Query, get_24h_stats, process_candle, basic_price}

-- A value of the cache.
pub data Cached (Number : Type 0) : Type 0 where
  many : List (Candle Number) → Cached Number
  one : Candle Number → Cached Number

-- `stats` is `stats24hCalc`, `none` if it is nil.
pub record Service (d : Decimal) : Type 0 where
  pub cache : List (Bytes × Cached d.Number)
  pub published : List (Bytes × Candle d.Number)
  pub stats : Option (Calculator d)

-- `%s:%s:%s:%s`
abbrev pub cache_key : Bytes → Interval → Bytes → Bytes → Bytes
cache_key symbol interval source contract_type =
    symbol ++ (b':' ∷ (text interval ++ (b':' ∷ (source ++ (b':' ∷ contract_type)))))

abbrev pub latest_key : Bytes → Interval → Bytes → Bytes → Bytes
latest_key symbol interval source contract_type =
    codes "latest:" ++ cache_key symbol interval source contract_type

-- `nyyu:market:candle:%s:%s`
abbrev pub channel : Bytes → Interval → Bytes
channel symbol interval = codes "nyyu:market:candle:" ++ (symbol ++ (b':' ∷ text interval))

abbrev pub or_spot : Bytes → Bytes
or_spot contract_type = if is_empty contract_type then spot else contract_type

module _ (d : Decimal) where
  open d use {Number}

  -- `Get` and `GetLatest` of the cache; a value of the other kind is no JSON of the wanted type, and
  -- the database's empty answer is a nil slice, which is no hit.
  abbrev pub many_of : Option (Cached Number) → Option (List (Candle Number))
  many_of (some (many (c ∷ cs))) = some (c ∷ cs)
  many_of _ = none

  abbrev pub one_of : Option (Cached Number) → Option (Candle Number)
  one_of (some (one c)) = some c
  one_of _ = none

  -- A key is written or removed if Redis answers; an error is passed over.
  abbrev pub put : Bool → Bytes → Cached Number → Service d → Service d
  put up key v s = if up then record s { cache = store key v s.cache } else s

  abbrev pub remove : Bool → Bytes → Service d → Service d
  remove up key s = if up then record s { cache = delete key s.cache } else s

  abbrev pub found : Bool → Bytes → Service d → Option (Cached Number)
  found up key s = if up then load key s.cache else none

  -- A limit that is not positive is the default, one above the maximum the maximum.
  abbrev pub limit_of : ℕ → ℕ → ℕ → ℕ
  limit_of default_limit max_limit limit =
      let l = if limit == 0 then default_limit else limit in
      if ltb max_limit l then max_limit else l

  abbrev pub with_rows :
      Bool
      → Bool
      → Bytes
      → Option (List (Candle Number))
      → Service d
      → Option (List (Candle Number)) × Service d
  with_rows up small key none s = (none, s)
  with_rows up small key (some cs) s = (some cs, if small then put up key (many cs) s else s)

  abbrev pub or_rows :
      Option (List (Candle Number))
      → Bool
      → Bool
      → Bytes
      → Option (List (Candle Number))
      → Service d
      → Option (List (Candle Number)) × Service d
  or_rows (some cs) up small key rows s = (some cs, s)
  or_rows none up small key rows s = with_rows up small key rows s

  -- `GetCandles`; the zero instant is no bound, and a limit below zero is given as zero.
  unfoldable pub get_candles :
      ℕ
      → ℕ
      → Bool
      → Query d
      → Bytes
      → Interval
      → Bytes
      → Bytes
      → Time
      → Time
      → ℕ
      → Service d
      → Option (List (Candle Number)) × Service d
  get_candles default_limit max_limit up query symbol interval source contract start_time end_time
        limit s =
      let l = limit_of default_limit max_limit limit in
      let contract_type = or_spot contract in
      let small = (start_time == 0) && ((end_time == 0) && leb l 100) in
      let key = cache_key symbol interval source contract_type in
      or_rows (if small then many_of (found up key s) else none) up small key
        (query symbol interval source contract_type start_time end_time l) s

  abbrev pub is_aggregated : Bytes → Bool
  is_aggregated source = is_empty source || bytes_eq source (codes "aggregated")

  -- The candle in memory, where it is looked for.
  abbrev pub memory_of :
      Option (Bytes → Interval → Option (Candle Number))
      → Bytes
      → Bytes
      → Interval
      → Option (Candle Number)
  memory_of none source symbol interval = none
  memory_of (some memory) source symbol interval =
      if is_aggregated source then memory symbol interval else none

  -- The three tiers.
  abbrev pub latest_from :
      Bool
      → Bytes
      → Option (Candle Number)
      → Option (Candle Number)
      → Option (Candle Number)
      → Service d
      → Option (Candle Number) × Service d
  latest_from up key (some c) cached row s = (some c, put up key (one c) s)
  latest_from up key none (some c) row s = (some c, s)
  latest_from up key none none none s = (none, s)
  latest_from up key none none (some c) s = (some c, put up key (one c) s)

  -- What `GetLatestCandle` of the repository answers; `none` is an error.
  abbrev pub LatestQuery : Type 0
  LatestQuery = Bytes → Interval → Bytes → Bytes → Option (Candle Number)

  -- `GetLatestCandle`
  unfoldable pub get_latest_candle :
      Bool
      → LatestQuery
      → Option (Bytes → Interval → Option (Candle Number))
      → Bytes
      → Interval
      → Bytes
      → Bytes
      → Service d
      → Option (Candle Number) × Service d
  get_latest_candle up latest memory symbol interval source contract s =
      let contract_type = or_spot contract in
      let key = latest_key symbol interval source contract_type in
      latest_from up key (memory_of memory source symbol interval) (one_of (found up key s))
        (latest symbol interval source contract_type) s

  -- Both keys of a candle are removed.
  abbrev pub invalidate : Bool → Candle Number → Service d → Service d
  invalidate up c s =
      remove up (latest_key c.symbol c.interval c.source c.contract_type)
        (remove up (cache_key c.symbol c.interval c.source c.contract_type) s)

  abbrev pub publish : Candle Number → Service d → Service d
  publish c s = record s { published = s.published ++ ((channel c.symbol c.interval, c) ∷ []) }

  -- `CreateCandle`, from whether the database takes the candle; `false` is its error. A failure to
  -- publish is logged only.
  unfoldable pub create_candle : Bool → Bool → Candle Number → Service d → Bool × Service d
  create_candle up created c s =
      if created then (true, publish c (invalidate up c s)) else (false, s)

  -- The loop of `BatchCreateCandles`: the last candle is published.
  unfoldable pub invalidate_each : Bool → List (Candle Number) → Service d → Service d
  invalidate_each up [] s = s
  invalidate_each up (c ∷ []) s = publish c (invalidate up c s)
  invalidate_each up (c ∷ c' ∷ cs) s = invalidate_each up (c' ∷ cs) (invalidate up c s)

  -- `BatchCreateCandles`
  unfoldable pub batch_create_candles :
      Bool → Bool → List (Candle Number) → Service d → Bool × Service d
  unfolding invalidate_each
  batch_create_candles up created [] s = (true, s)
  batch_create_candles up created (c ∷ cs) s =
      if created then (true, invalidate_each up (c ∷ cs) s) else (false, s)

  -- `Start24hStatsCalculator`, without its goroutine, and `ProcessCandleForStats`.
  unfoldable pub start_24h_stats_calculator : Service d → Service d
  start_24h_stats_calculator s = elim s.stats [ some m ↦ s | none ↦ record s { stats = some [] } ]

  unfoldable pub process_candle_for_stats : Time → Candle Number → Service d → Service d
  process_candle_for_stats now c s = elim s.stats [
    | some m ↦ record s { stats = some (process_candle d now c m) }
    | none ↦ s
  ]

  -- The price with the 24h statistics, or else the price alone.
  abbrev pub priced :
      Candle Number
      → Bytes
      → Option (Price Number) × Calculator d
      → Service d
      → Price Number × Service d
  priced c symbol (some p, m) s = (p, record s { stats = some m })
  priced c symbol (none, m) s =
      (basic_price d symbol c.close_price c.updated_at, record s { stats = some m })

  unfoldable pub price_from :
      Query d → Time → Bytes → Candle Number → Service d → Price Number × Service d
  price_from query now symbol c s = elim s.stats [
    | some m ↦ priced c symbol (get_24h_stats d query now symbol c.close_price m) s
    | none ↦ (basic_price d symbol c.close_price c.updated_at, s)
  ]

  abbrev pub ticker_of :
      Query d
      → Time
      → Bytes
      → Option (Candle Number) × Service d
      → Option (Price Number) × Service d
  ticker_of query now symbol (none, s) = (none, s)
  ticker_of query now symbol (some c, s) =
      let (p, s') = price_from query now symbol c s in (some p, s')

  -- `GetPriceTicker`; `none` is its error.
  unfoldable pub get_price_ticker :
      Bool
      → Query d
      → LatestQuery
      → Option (Bytes → Interval → Option (Candle Number))
      → Time
      → Bytes
      → Service d
      → Option (Price Number) × Service d
  unfolding price_from
  get_price_ticker up query latest memory now symbol s =
      ticker_of query now symbol (get_latest_candle up latest memory symbol m1 [] spot s)

  abbrev pub add_ticker :
      Option (Price Number) → List (Price Number) × Service d → List (Price Number) × Service d
  add_ticker none r = r
  add_ticker (some p) (ps, s) = (p ∷ ps, s)

  -- The loop of `GetPriceTickers`: a symbol with an error is left out.
  unfoldable pub tickers :
      Bool
      → Query d
      → LatestQuery
      → Option (Bytes → Interval → Option (Candle Number))
      → Time
      → List Bytes
      → Service d
      → List (Price Number) × Service d
  tickers up query latest memory now [] s = ([], s)
  tickers up query latest memory now (symbol ∷ symbols) s =
      let (p, s') = get_price_ticker up query latest memory now symbol s in
      add_ticker p (tickers up query latest memory now symbols s')

  -- `GetPriceTickers`; with no symbols those that the database has, `none` where it fails.
  unfoldable pub get_price_tickers :
      Bool
      → Query d
      → LatestQuery
      → Option (List Bytes)
      → Option (Bytes → Interval → Option (Candle Number))
      → Time
      → List Bytes
      → Service d
      → Option (List (Price Number)) × Service d
  get_price_tickers up query latest available memory now [] s = elim available [
    | some symbols ↦ let (ps, s') = tickers up query latest memory now symbols s in (some ps, s')
    | none ↦ (none, s)
  ]
  get_price_tickers up query latest available memory now (symbol ∷ symbols) s =
      let (ps, s') = tickers up query latest memory now (symbol ∷ symbols) s in (some ps, s')

  -- `ConvertCandleToPrice` of a candle that is not nil.
  unfoldable pub convert_candle_to_price :
      Query d → Time → Candle Number → Service d → Price Number × Service d
  convert_candle_to_price query now c s = price_from query now c.symbol c s
