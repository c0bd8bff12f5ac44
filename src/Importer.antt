-- ===== src/Importer.antt =====
-- internal/importer/importer.go: candles of the past from Binance's monthly and daily archives. What
-- a download answers (`none` is an error or a status other than 200), the records that `archive/zip`
-- and `encoding/csv` read from an archive, and whether the database takes a batch are arguments.
-- Years, months and the number of workers are not negative. The workers share the tasks of one
-- interval; the order in which they insert is an argument, and a task is one step, since only its
-- insertion meets the others.
pub mod Tasks
pub mod Months
pub mod Totals
use nyyu_market.Prelude.{
  ℕ, zero, suc, ◌+◌, ◌-◌, ◌*◌, ◌/◌, ◌%◌, List, [], ◌∷◌, ◌++◌, Bool, true, false, ◌&&◌, Option, none,
  some, if◌then◌else◌, ltb, leb, ◌==◌, length, map,
}
use nyyu_market.Prelude.Text.{Bytes, codes, format_int}
use nyyu_market.Prelude.Strings.{Integer, parse_int}
use nyyu_market.Decimal.{Decimal}
use nyyu_market.Models.Interval.{Interval, text}
use nyyu_market.Models.Candle.{Candle, aggregated, spot}
use nyyu_market.Time.{Time, date, date_of}
use nyyu_market.Time.Calendar.{Date}
use nyyu_market.Aggregator.Handlers.Report.{parse_decimal, unix_milli}
use nyyu_market.Aggregator.Handlers.Binance.{count_of}

pub record MonthTask : Type 0 where
  pub symbol : Bytes
  pub interval : Interval
  pub year : ℕ
  pub month : ℕ

pub record ImportJob : Type 0 where
  pub symbol : Bytes
  pub intervals : List Interval
  pub start_year : ℕ
  pub start_month : ℕ
  pub end_year : ℕ
  pub end_month : ℕ
  pub workers : ℕ

-- An `importResult`.
pub data ImportResult : Type 0 where
  failed skipped : ImportResult
  imported : ℕ → ImportResult

abbrev cons_task : MonthTask → Option (List MonthTask) → Option (List MonthTask)
cons_task t none = none
cons_task t (some ts) = some (t ∷ ts)

abbrev pub next_month : ℕ → ℕ → ℕ × ℕ
next_month year month = if ltb 12 (month + 1) then (year + 1, 1) else (year, month + 1)

-- `generateTasks` from a month on; `none` where its loop is not done after as many rounds.
unfoldable pub generate_tasks : ℕ → Bytes → Interval → ℕ → ℕ → ℕ → ℕ → Option (List MonthTask)
generate_tasks zero symbol interval year month end_year end_month = none
generate_tasks (suc k) symbol interval year month end_year end_month =
    let task : MonthTask = record {
      symbol = symbol;
      interval = interval;
      year = year;
      month = month;
    } in
    let (y, m) = next_month year month in
    let rest = generate_tasks k symbol interval y m end_year end_month in
    if (year == end_year) && (month == end_month) then some (task ∷ []) else cons_task task rest

abbrev pub tasks_of : ℕ → ImportJob → Interval → Option (List MonthTask)
tasks_of k job interval =
    generate_tasks k job.symbol interval job.start_year job.start_month job.end_year job.end_month

-- Zeros in front, up to a width.
unfoldable pad : ℕ → Bytes → Bytes
pad zero s = s
pad (suc w) s = let rest = pad w s in if ltb w (length s) then s else b'0' ∷ rest

-- `%s-%s-%04d-%02d`
abbrev pub base_name : MonthTask → Bytes
unfolding pad
base_name t =
    t.symbol
    ++ (b'-'
        ∷ (text t.interval
            ++ (b'-' ∷ (pad 4 (format_int t.year) ++ (b'-' ∷ pad 2 (format_int t.month))))))

abbrev archive_url : Bytes → MonthTask → Bytes → Bytes
archive_url base t filename =
    base ++ (b'/' ∷ (t.symbol ++ (b'/' ∷ (text t.interval ++ (b'/' ∷ filename)))))

abbrev pub month_url : MonthTask → Bytes
month_url t =
    archive_url (codes "https://data.binance.vision/data/spot/monthly/klines") t
      (base_name t ++ codes ".zip")

abbrev pub day_url : MonthTask → ℕ → Bytes
unfolding pad
day_url t day =
    archive_url (codes "https://data.binance.vision/data/spot/daily/klines") t
      (base_name t ++ (b'-' ∷ (pad 2 (format_int day) ++ codes ".zip")))

-- The day before the first of the next month; years and months of `Date` count from 0.
abbrev pub days_in_month : MonthTask → ℕ
days_in_month t =
    (date_of
      (date (record { year = t.year - 1; month = t.month; day_of_month = 0 }) 1 0 0)).day_of_month
    + 1

-- Times of 14 digits or more are microseconds, as the open time says for both.
abbrev pub in_milliseconds : Integer → Integer → Integer × Integer
in_milliseconds (true, open_raw) close = ((true, open_raw), close)
in_milliseconds (false, open_raw) (negative, close_raw) =
    if ltb 9999999999999 open_raw
    then ((false, open_raw / 1000), (negative, close_raw / 1000))
    else ((false, open_raw), (negative, close_raw))

-- The value of `strconv.ParseInt(s, 10, 32)`.
abbrev clamp_32 : Integer → Integer
clamp_32 (true, n) = (true, if ltb 2147483648 n then 2147483648 else n)
clamp_32 (false, n) = (false, if ltb 2147483647 n then 2147483647 else n)

-- The records of an archive's first file; `none` is one that cannot be read.
abbrev pub Records : Type 0
Records = List (Option (List Bytes))

-- What `archive/zip` finds: `none` where it is no archive, and for each file whether it opens.
abbrev pub Archive : Type 0
Archive = Option (List (Option Records))

abbrev pub count_failed : List ImportResult → ℕ
count_failed [] = 0
count_failed (ImportResult.failed ∷ rs) = suc (count_failed rs)
count_failed (_ ∷ rs) = count_failed rs

module _ (d : Decimal) where
  open d use {Number}

  abbrev pub add_failed : ℕ → Option (ℕ × List (Candle Number)) → Option (ℕ × List (Candle Number))
  add_failed n none = none
  add_failed n (some (m, rows)) = some (n + m, rows)

  abbrev pub done : Option (ℕ × List (Candle Number)) → Option (Bool × List (Candle Number))
  done none = none
  done (some (n, rows)) = some (n == 0, rows)

  -- Whether the database takes a batch, after the rows that it holds, is an argument.
  module _ (accepts : List (Candle Number) → List (Candle Number) → Bool) where
    -- `BatchCreateCandles` of the repository; an empty batch is none.
    unfoldable pub batch_create :
        List (Candle Number) → List (Candle Number) → ImportResult × List (Candle Number)
    batch_create [] rows = (imported 0, rows)
    batch_create (c ∷ cs) rows =
        if accepts (c ∷ cs) rows
        then (imported (length (c ∷ cs)), rows ++ (c ∷ cs))
        else (ImportResult.failed, rows)

    abbrev pub from_days :
        List (Candle Number) → List (Candle Number) → ImportResult × List (Candle Number)
    from_days [] rows = (skipped, rows)
    from_days (c ∷ cs) rows = batch_create (c ∷ cs) rows

    abbrev pub from_month :
        Option (List (Candle Number)) → List (Candle Number) → ImportResult × List (Candle Number)
    from_month none rows = (ImportResult.failed, rows)
    from_month (some cs) rows = batch_create cs rows

module _ (d : Decimal) (new_from_string : Bytes → Option d.Number) (now : Time) where
  open d use {Number}

  -- `parseCSVRecord`, `none` for a record of fewer than 11 fields.
  unfoldable pub parse_csv_record : Bytes → Interval → List Bytes → Option (Candle Number)
  parse_csv_record symbol interval (r0 ∷ r1 ∷ r2 ∷ r3 ∷ r4 ∷ r5 ∷ r6 ∷ r7 ∷ r8 ∷ r9 ∷ r10 ∷ _) =
      let (open_ms, close_ms) = in_milliseconds (parse_int r0) (parse_int r6) in
      some (record {
        symbol = symbol;
        interval = interval;
        open_time = unix_milli open_ms;
        close_time = unix_milli close_ms;
        open_price = parse_decimal d new_from_string r1;
        high = parse_decimal d new_from_string r2;
        low = parse_decimal d new_from_string r3;
        close_price = parse_decimal d new_from_string r4;
        volume = parse_decimal d new_from_string r5;
        quote_volume = parse_decimal d new_from_string r7;
        trade_count = count_of (clamp_32 (parse_int r8));
        source = aggregated;
        is_closed = true;
        contract_type = spot;
        created_at = now;
        updated_at = now;
        taker_buy_base_volume = parse_decimal d new_from_string r9;
        taker_buy_quote_volume = parse_decimal d new_from_string r10;
      })
  parse_csv_record symbol interval _ = none

  abbrev cons_parsed :
      Option (Candle Number) → Option (List (Candle Number)) → Option (List (Candle Number))
  cons_parsed (some c) (some cs) = some (c ∷ cs)
  cons_parsed none rest = rest
  cons_parsed (some c) none = none

  unfoldable pub parse_records : Bytes → Interval → Records → Option (List (Candle Number))
  parse_records symbol interval [] = some []
  parse_records symbol interval (none ∷ rs) = none
  parse_records symbol interval (some r ∷ rs) =
      cons_parsed (parse_csv_record symbol interval r) (parse_records symbol interval rs)

  -- `parseZipData`, from what the archive holds.
  unfoldable pub parse_zip_data : Bytes → Interval → Archive → Option (List (Candle Number))
  parse_zip_data symbol interval none = none
  parse_zip_data symbol interval (some []) = none
  parse_zip_data symbol interval (some (none ∷ files)) = none
  parse_zip_data symbol interval (some (some rs ∷ files)) = parse_records symbol interval rs

  module _ (download : Bytes → Option Archive) where
    abbrev day_candles : MonthTask → Option Archive → List (Candle Number)
    day_candles t none = []
    day_candles t (some a) = elim (parse_zip_data t.symbol t.interval a) [
      | some cs ↦ cs
      | none ↦ []
    ]

    unfoldable pub days_from : MonthTask → ℕ → ℕ → List (Candle Number)
    days_from t day zero = []
    days_from t day (suc n) = day_candles t (download (day_url t day)) ++ days_from t (day + 1) n

    -- `downloadDailyFiles`, which passes over every error.
    abbrev pub download_daily_files : MonthTask → List (Candle Number)
    download_daily_files t = days_from t 1 (days_in_month t)

    module _ (accepts : List (Candle Number) → List (Candle Number) → Bool) where
      abbrev pub from_archive :
          MonthTask → Option Archive → List (Candle Number) → ImportResult × List (Candle Number)
      from_archive t (some a) rows =
          from_month d accepts (parse_zip_data t.symbol t.interval a) rows
      from_archive t none rows = from_days d accepts (download_daily_files t) rows

      -- `processMonth` on the rows of the database.
      unfoldable pub process_month :
          MonthTask → List (Candle Number) → ImportResult × List (Candle Number)
      unfolding days_from
      process_month t rows = from_archive t (download (month_url t)) rows

      -- The workers on the tasks of one interval, in the order in which they insert.
      unfoldable pub process_tasks :
          List MonthTask → List (Candle Number) → List ImportResult × List (Candle Number)
      process_tasks [] rows = ([], rows)
      process_tasks (t ∷ ts) rows =
          let (r, rows') = process_month t rows in
          let (rs, rows'') = process_tasks ts rows' in (r ∷ rs, rows'')

      -- The order in which the workers insert is an argument.
      module _ (arrange : List MonthTask → List MonthTask) where
        -- Without a worker, the channel of results is closed at once.
        abbrev pub work :
            ℕ → List MonthTask → List (Candle Number) → List ImportResult × List (Candle Number)
        work zero ts rows = ([], rows)
        work (suc n) ts rows = process_tasks (arrange ts) rows

        abbrev pub with_tasks :
            ℕ
            → Option (List MonthTask)
            → (List (Candle Number) → Option (ℕ × List (Candle Number)))
            → List (Candle Number)
            → Option (ℕ × List (Candle Number))
        with_tasks workers none next rows = none
        with_tasks workers (some ts) next rows =
            let (rs, rows') = work workers ts rows in add_failed d (count_failed rs) (next rows')

        -- The loop of `Import`, with the number of failures; `none` where `generateTasks` goes on.
        unfoldable pub import_each :
            ℕ → ImportJob → List Interval → List (Candle Number) → Option (ℕ × List (Candle Number))
        unfolding process_tasks
        import_each k job [] rows = some (0, rows)
        import_each k job (i ∷ is) rows =
            with_tasks job.workers (tasks_of k job i) (import_each k job is) rows

        -- `Import`: whether it returns without an error, and the rows of the database.
        unfoldable pub import_job :
            ℕ → ImportJob → List (Candle Number) → Option (Bool × List (Candle Number))
        unfolding import_each
        import_job k job rows = done d (import_each k job job.intervals rows)
