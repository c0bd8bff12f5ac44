-- ===== src/Examples/Imports.antt =====
-- An import of two months, symbols that are fetched, and rows of the database.
use mathlib.Core.List.Permᴰ
use mathlib.Core.List.{Perm, Permᴰ, reverse}
use nyyu_market.Prelude.{
  ℕ, ◌+◌, ◌<◌, List, [], ◌∷◌, ◌++◌, Bool, true, Option, none, some, length, map, ◌≡◌, inl, refl,
  arith,
}
use nyyu_market.Prelude.Text.{Bytes, codes, bytes_eq}
use nyyu_market.Prelude.Maps.{load, bytes_key}
use nyyu_market.Decimal.{units}
use nyyu_market.Models.Interval.{m1, h1}
use nyyu_market.Models.Candle.{Candle, spot}
use nyyu_market.Time.{Time, minute}
use nyyu_market.Aggregator.Streams.{new_streams}
use nyyu_market.Importer.{
  MonthTask, ImportJob, Archive, generate_tasks, import_job, import_each, process_tasks,
  process_month, parse_zip_data, parse_records, parse_csv_record, batch_create,
}
use nyyu_market.Importer.Tasks.{
  month_number, months_from, generate_tasks_lem, generate_tasks-endless,
}
use nyyu_market.Importer.Months.{read_job}
use nyyu_market.Importer.Totals.{import_job-stores}
use nyyu_market.Symbols.{
  Answer, SymbolConfig, SymbolManager, new_symbol_fetcher, refresh_all, refresh_and_subscribe,
  get_symbols, fetch_symbols, apply_strategy, subscribe_each, add_symbol,
}
use nyyu_market.Symbols.Refresh.{IsCounted, refresh_all-IsCounted}
use nyyu_market.Repository.{Row, Database, get_candles}
use nyyu_market.Repository.Chronological.{candles_of, Ascending, get_candles-Ascending}
use nyyu_market.Examples.{evening}

-- November 2023 to January 2024, and the other way round.
generate_tasks_lem_example :
    generate_tasks 5 (codes "BTCUSDT") h1 2023 11 2024 1
    ≡ some (months_from (codes "BTCUSDT") h1 (month_number 2023 11) 3)
generate_tasks_lem_example =
    generate_tasks_lem (codes "BTCUSDT") h1 5 2023 11 2024 1 2 (omega arith) (omega arith)
      (omega arith) (omega arith) (omega arith) (omega arith)

generate_tasks-endless_example : generate_tasks 5 (codes "BTCUSDT") h1 2024 1 2023 11 ≡ none
generate_tasks-endless_example =
    generate_tasks-endless (codes "BTCUSDT") h1 5 2024 1 2023 11 (omega arith) (omega arith)
      (inl (omega arith))

abbrev job : ImportJob
job = record {
  symbol = codes "BTCUSDT";
  intervals = h1 ∷ [];
  start_year = 2023;
  start_month = 11;
  end_year = 2023;
  end_month = 12;
  workers = 2;
}

-- Every price is 7, and every archive has one record and a line that is too short.
abbrev seven : Bytes → Option ℕ
seven s = some 7

abbrev csv_record : List Bytes
csv_record =
    let p = codes "7" in
    codes "1700000040000" ∷ p ∷ p ∷ p ∷ p ∷ p ∷ codes "1700003640000" ∷ p ∷ p ∷ p ∷ p ∷ []

abbrev download : Bytes → Option Archive
download url = some (some (some (some csv_record ∷ some [] ∷ []) ∷ []))

abbrev accepts : List (Candle ℕ) → List (Candle ℕ) → Bool
accepts batch rows = true

abbrev imported_rows : List (Candle ℕ)
imported_rows = elim (import_job units seven evening download accepts reverse 3 job []) [
  | some (b, rows) ↦ rows
  | none ↦ []
]

imports :
    import_job units seven evening download accepts reverse 3 job [] ≡ some (true, imported_rows)
unfolding import_job import_each generate_tasks process_tasks process_month parse_zip_data
    parse_records parse_csv_record batch_create
imports = refl

-- The last task inserts first.
reversed : (ts : List MonthTask) → Permᴰ (reverse ts) ts
reversed ts = Permᴰ.reverse ts

import_job-stores_example :
    (cs cs' : List (Candle ℕ)) × (read_job units seven evening download 3 job job.intervals
      ≡ some cs)
    × (imported_rows ≡ [] ++ cs')
    × Perm cs' cs
import_job-stores_example =
    import_job-stores units seven evening download accepts reverse reversed 3 1 job [] imported_rows
      refl imports

abbrev answer : Answer
answer = Answer.body (
    some (record {
      success = true;
      message = [];
      count = 2;
      symbols = codes "BTCUSDT" ∷ codes "ETHUSDT" ∷ [];
    }))

abbrev config : SymbolConfig
config = record { subscription_strategy = codes "all"; max_symbols = 50 }

abbrev manager : SymbolManager
manager = record { fetcher = new_symbol_fetcher []; streams = new_streams; subscribed_symbols = [] }

two_symbols :
    length
      (refresh_all 6 [] config
        ((evening, answer) ∷ (evening, answer) ∷ [])
        manager).subscribed_symbols
    < 2147483647
unfolding refresh_all refresh_and_subscribe get_symbols fetch_symbols apply_strategy subscribe_each
    add_symbol bytes_eq
two_symbols = omega arith

refresh_all-IsCounted_example :
    IsCounted (refresh_all 6 [] config ((evening, answer) ∷ (evening, answer) ∷ []) manager)
unfolding load
refresh_all-IsCounted_example =
    refresh_all-IsCounted 6 [] config ((evening, answer) ∷ (evening, answer) ∷ []) manager
      two_symbols (tt, λ y i. refl)

abbrev row_at : Time → Row
row_at t =
    let p = codes "7" in
    record {
      symbol = codes "BTCUSDT";
      interval = m1;
      open_time = t;
      close_time = t;
      open_price = p;
      high = p;
      low = p;
      close_price = p;
      volume = p;
      quote_volume = p;
      trade_count = 3;
      taker_buy_base_volume = p;
      taker_buy_quote_volume = p;
      source = codes "binance";
      is_closed = 1;
      contract_type = spot;
      created_at = t;
      updated_at = t;
    }

abbrev newest_first : List Row
newest_first = row_at (evening + minute) ∷ row_at evening ∷ []

abbrev run : Database
run q = some (map some newest_first)

get_candles-Ascending_example :
    (get_candles units seven run (codes "BTCUSDT") m1 [] spot 0 0 2
      ≡ some (reverse (candles_of units seven newest_first)))
    × Ascending (λ c. c.open_time) (reverse (candles_of units seven newest_first))
get_candles-Ascending_example =
    get_candles-Ascending units seven run (codes "BTCUSDT") m1 [] spot 0 0 2 newest_first refl
      (λ e. ground arith)
