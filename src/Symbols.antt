-- ===== src/Symbols.antt =====
-- internal/services/symbols: the list of symbols that is fetched from the backend, and the manager
-- that subscribes to them, as one step for each call. The answer of the backend is an argument. A
-- number of symbols in the configuration is not negative, and subscribing gives no error, as in
-- `SubscribeToInterval` of the exchange aggregator.
pub mod Refresh
use nyyu_market.Prelude.{
  ℕ, ◌+◌, ◌-◌, List, [], ◌∷◌, ◌++◌, Bool, true, false, ◌&&◌, Option, none, some, if◌then◌else◌, ltb,
  leb, ◌==◌, length,
}
use nyyu_market.Prelude.Lists.{take}
use nyyu_market.Prelude.Text.{Bytes, codes, bytes_eq}
use nyyu_market.Time.{Time, Duration, hour}
use nyyu_market.Aggregator.Streams.{Streams, subscribe_to_interval}

pub record BackendTradeSymbolsResponse : Type 0 where
  pub success : Bool
  pub message : Bytes
  pub count : ℕ
  pub symbols : List Bytes

-- How a request to the backend ends; a body is parsed or not.
pub data Answer : Type 0 where
  bad_request no_response unread : Answer
  status_code : ℕ → Answer
  body : Option BackendTradeSymbolsResponse → Answer

pub record SymbolFetcher : Type 0 where
  pub symbols : List Bytes
  pub last_fetch : Time
  pub cache_ttl : Duration

-- `NewSymbolFetcher`
abbrev pub new_symbol_fetcher : List Bytes → SymbolFetcher
new_symbol_fetcher default_symbols = record {
  symbols = default_symbols;
  last_fetch = 0;
  cache_ttl = hour;
}

-- The symbols returned, and whether there is no error beside them.
abbrev pub Fetched : Type 0
Fetched = List Bytes × Bool

abbrev response_symbols : Option BackendTradeSymbolsResponse → List Bytes
response_symbols none = []
response_symbols (some r) = if r.success then r.symbols else []

abbrev pub symbols_of : Answer → List Bytes
symbols_of (body r) = response_symbols r
symbols_of _ = []

abbrev is_bad_request : Answer → Bool
is_bad_request Answer.bad_request = true
is_bad_request _ = false

abbrev stored : Time → List Bytes → List Bytes → SymbolFetcher → Fetched × SymbolFetcher
stored now cached [] f = ((cached, false), f)
stored now cached (s ∷ ss) f = ((s ∷ ss, true), record f { symbols = s ∷ ss; last_fetch = now })

-- `FetchSymbols`: an answer without symbols is an error, beside which the cached ones are returned.
unfoldable pub fetch_symbols : Time → Answer → SymbolFetcher → Fetched × SymbolFetcher
fetch_symbols now answer f =
    stored now (if is_bad_request answer then [] else f.symbols) (symbols_of answer) f

-- `GetSymbols`
unfoldable pub get_symbols : Time → Answer → SymbolFetcher → Fetched × SymbolFetcher
get_symbols now answer f =
    if ltb (now - f.last_fetch) f.cache_ttl && ltb 0 (length f.symbols)
    then ((f.symbols, true), f)
    else fetch_symbols now answer f

-- The list is cut to a limit.
abbrev pub at_most : ℕ → List Bytes → List Bytes
at_most limit symbols = if leb (length symbols) limit then symbols else take limit symbols

abbrev pub limited : ℕ → Fetched × SymbolFetcher → Option (List Bytes) × SymbolFetcher
limited limit ((symbols, true), f) =
    (some (if ltb (length symbols) limit then symbols else take limit symbols), f)
limited limit ((symbols, false), f) = (none, f)

-- `SymbolFetcher.GetPopularSymbols`; `none` is its error.
unfoldable pub get_popular_symbols :
    Time → Answer → ℕ → SymbolFetcher → Option (List Bytes) × SymbolFetcher
get_popular_symbols now answer limit f = limited limit (get_symbols now answer f)

-- `LoadSymbolsWithFallback`, from what the file and the YAML parser give.
unfoldable pub load_symbols_with_fallback : List Bytes → Option (List Bytes) → List Bytes
load_symbols_with_fallback default_symbols none = default_symbols
load_symbols_with_fallback default_symbols (some []) = default_symbols
load_symbols_with_fallback default_symbols (some (s ∷ ss)) = s ∷ ss

abbrev pub member : Bytes → List Bytes → Bool
member s [] = false
member s (t ∷ ts) = if bytes_eq t s then true else member s ts

-- The literal in `getPopularSymbols`.
abbrev popular_list : List Bytes
popular_list =
    codes "BTCUSDT"
    ∷ codes "ETHUSDT"
    ∷ codes "BNBUSDT"
    ∷ codes "SOLUSDT"
    ∷ codes "XRPUSDT"
    ∷ codes "ADAUSDT"
    ∷ codes "DOGEUSDT"
    ∷ codes "AVAXUSDT"
    ∷ codes "DOTUSDT"
    ∷ codes "MATICUSDT"
    ∷ codes "LINKUSDT"
    ∷ codes "UNIUSDT"
    ∷ codes "ATOMUSDT"
    ∷ codes "LTCUSDT"
    ∷ codes "ETCUSDT"
    ∷ codes "TRXUSDT"
    ∷ codes "NEARUSDT"
    ∷ codes "XLMUSDT"
    ∷ codes "ALGOUSDT"
    ∷ codes "VETUSDT"
    ∷ codes "AAVEUSDT"
    ∷ codes "ARBUSDT"
    ∷ codes "OPUSDT"
    ∷ codes "INJUSDT"
    ∷ codes "IMXUSDT"
    ∷ codes "GMXUSDT"
    ∷ codes "DYDXUSDT"
    ∷ codes "RUNEUSDT"
    ∷ codes "CRVUSDT"
    ∷ codes "SUSHIUSDT"
    ∷ []

unfoldable pub known_of : List Bytes → List Bytes → List Bytes
known_of all [] = []
known_of all (s ∷ ss) = let rest = known_of all ss in if member s all then s ∷ rest else rest

-- `getPopularSymbols` of the manager.
abbrev pub popular_symbols : List Bytes → List Bytes
popular_symbols all = known_of all popular_list

pub record SymbolConfig : Type 0 where
  pub subscription_strategy : Bytes
  pub max_symbols : ℕ

-- `applyStrategy`
unfoldable pub apply_strategy : SymbolConfig → List Bytes → List Bytes
unfolding known_of
apply_strategy c all =
    if bytes_eq c.subscription_strategy (codes "all")
    then all
    else (if bytes_eq c.subscription_strategy (codes "popular")
        then popular_symbols all
        else (if bytes_eq c.subscription_strategy (codes "top_N")
            then at_most c.max_symbols all
            else at_most 50 all))

-- The manager with what it reaches: the fetcher and the counts of the exchange aggregator.
pub record SymbolManager : Type 0 where
  pub fetcher : SymbolFetcher
  pub streams : Streams
  pub subscribed_symbols : List Bytes

abbrev pub or_default : List Bytes → List Bytes → List Bytes
or_default default_symbols [] = default_symbols
or_default default_symbols (s ∷ ss) = s ∷ ss

module _ (exchanges : ℕ) where
  -- A symbol that is not listed is subscribed to and listed.
  unfoldable pub add_symbol : Bytes → SymbolManager → SymbolManager
  add_symbol s m = if member s m.subscribed_symbols then m else record m {
    streams = subscribe_to_interval exchanges s (codes "1m") m.streams;
    subscribed_symbols = m.subscribed_symbols ++ (s ∷ []);
  }

  -- The loop over the symbols.
  unfoldable pub subscribe_each : List Bytes → SymbolManager → SymbolManager
  unfolding add_symbol
  subscribe_each [] m = m
  subscribe_each (s ∷ ss) m = subscribe_each ss (add_symbol s m)

  abbrev pub refreshed :
      List Bytes → SymbolConfig → Fetched × SymbolFetcher → SymbolManager → Bool × SymbolManager
  unfolding subscribe_each
  refreshed default_symbols c ((symbols, false), f) m = (false, record m { fetcher = f })
  refreshed default_symbols c ((symbols, true), f) m = (
    true,
    subscribe_each (apply_strategy c (or_default default_symbols symbols))
        (record m { fetcher = f }),
  )

  -- `refreshAndSubscribe`; `false` is its error.
  unfoldable pub refresh_and_subscribe :
      List Bytes → SymbolConfig → Time → Answer → SymbolManager → Bool × SymbolManager
  refresh_and_subscribe default_symbols c now answer m =
      refreshed default_symbols c (get_symbols now answer m.fetcher) m

  -- `Start`, `ForceRefresh` and the ticks of `periodicRefresh`, at their instants.
  unfoldable pub refresh_all :
      List Bytes → SymbolConfig → List (Time × Answer) → SymbolManager → SymbolManager
  refresh_all default_symbols c [] m = m
  refresh_all default_symbols c ((now, answer) ∷ rest) m =
      refresh_all default_symbols c rest (refresh_and_subscribe default_symbols c now answer m).1
