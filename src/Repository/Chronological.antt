-- ===== src/Repository/Chronological.antt =====
-- The order of the candles that internal/repository/candle_repository.go reads.
use nyyu_market.Prelude.{
  ℕ, ◌≤◌, List, [], ◌∷◌, true, Option, none, some, length, map, ◌≡◌, refl, sym, arith, All,
}
use mathlib.Core.List.{reverse, reverse_aux}
use nyyu_market.Prelude.Text.{Bytes}
use nyyu_market.Decimal.{Decimal}
use nyyu_market.Models.Interval.{Interval}
use nyyu_market.Models.Candle.{Candle}
use nyyu_market.Time.{Time}
use nyyu_market.Repository.{
  Row, Database, candles_query, latest_query, candle_of, scan, in_order, scanned, get_candles,
  first_row, get_latest_candle,
}

All-zip :
    {A : Type 0} {P Q R : A → Type 0}
    → ((a : A) → P a → Q a → R a)
    → (xs : List A) → All P xs
    → All Q xs
    → All R xs
All-zip f [] h k = tt
All-zip f (x ∷ xs) h k = (f x h.0 k.0, All-zip f xs h.1 k.1)

module _ {A : Type 0} (time_of : A → Time) where
  abbrev pub Descending : List A → Type 0
  Descending [] = Unit
  Descending (x ∷ xs) = All (λ y. time_of y ≤ time_of x) xs × Descending xs

  abbrev pub Ascending : List A → Type 0
  Ascending [] = Unit
  Ascending (x ∷ xs) = All (λ y. time_of x ≤ time_of y) xs × Ascending xs

  reverse_aux-Ascending :
      (xs ys : List A)
      → Descending xs
      → Ascending ys
      → All (λ x. All (λ y. time_of x ≤ time_of y) ys) xs
      → Ascending (reverse_aux xs ys)
  reverse_aux-Ascending [] ys h k l = k
  reverse_aux-Ascending (x ∷ xs) ys h k l =
      reverse_aux-Ascending xs (x ∷ ys) h.1 (l.0, k) (All-zip (λ z a b. (a, b)) xs h.0 l.1)

  All-nil : (xs : List A) → All (λ x. All (λ y. time_of x ≤ time_of y) []) xs
  All-nil [] = tt
  All-nil (x ∷ xs) = (tt, All-nil xs)

  reverse-Ascending : (xs : List A) → Descending xs → Ascending (reverse xs)
  reverse-Ascending xs h = reverse_aux-Ascending xs [] h tt (All-nil xs)

module _ (d : Decimal) (new_from_string : Bytes → Option d.Number) where
  open d use {Number}

  -- The candles of rows that can all be scanned.
  abbrev pub candles_of : List Row → List (Candle Number)
  candles_of rows = map (candle_of d new_from_string) rows

  scan-some : (rows : List Row) → scan d new_from_string (map some rows) ≡ some (candles_of rows)
  unfolding scan
  scan-some [] = refl
  scan-some (r ∷ rows) = rw (scan-some rows) refl

  All-map-times :
      (r : Row) (rows : List Row)
      → All (λ y. y.open_time ≤ r.open_time) rows
      → All (λ c. c.open_time ≤ (candle_of d new_from_string r).open_time) (candles_of rows)
  unfolding candle_of
  All-map-times r [] h = tt
  All-map-times r (y ∷ rows) h = (h.0, All-map-times r rows h.1)

  Descending-candles :
      (rows : List Row)
      → Descending (λ r. r.open_time) rows
      → Descending (λ c. c.open_time) (candles_of rows)
  Descending-candles [] h = tt
  Descending-candles (r ∷ rows) h = (All-map-times r rows h.0, Descending-candles rows h.1)

  -- When the database answers the query of `GetCandles` with rows that can be scanned, the newest
  -- first if the query says so, it returns a candle for each row, the oldest first.
  pub get_candles-Ascending :
      (run : Database) (symbol : Bytes) (interval : Interval) (source contract_type : Bytes)
      (start_time end_time : Time) (limit : ℕ) (rows : List Row)
      → run (candles_query symbol interval source contract_type start_time end_time limit)
        ≡ some (map some rows)
      → ((candles_query symbol interval source contract_type start_time end_time limit).newest_first
            ≡ true
          → Descending (λ r. r.open_time) rows)
      → (get_candles d new_from_string run symbol interval source contract_type start_time end_time
            limit
          ≡ some (reverse (candles_of rows)))
        × Ascending (λ c. c.open_time) (reverse (candles_of rows))
  unfolding get_candles scan
  get_candles-Ascending run symbol interval source contract_type start_time end_time limit rows h
        k =
      (
        rw (h, scan-some rows) refl,
        reverse-Ascending (λ c. c.open_time) (candles_of rows) (Descending-candles rows (k refl)),
      )

  abbrev pub only_of : Option (List (Candle Number)) → Option (Candle Number)
  only_of (some (c ∷ cs)) = some c
  only_of _ = none

  only_row :
      (o : Option (List (Option Row)))
      → ((rows : List (Option Row)) → o ≡ some rows → length rows ≤ 1)
      → only_of (in_order d new_from_string (scanned d new_from_string o))
        ≡ first_row d new_from_string o
  unfolding scan
  only_row none h = refl
  only_row (some []) h = refl
  only_row (some (none ∷ rows)) h = refl
  only_row (some (some r ∷ [])) h = refl
  only_row (some (some r ∷ r' ∷ rows)) h = absurd (omega (arith, h (some r ∷ r' ∷ rows) refl))

  -- When the database keeps to the limit of one row, `GetLatestCandle` gives the candle that
  -- `GetCandles` gives for no bounds and that limit, and an error where that one gives an error or no
  -- candle.
  pub get_latest_candle_lem :
      (run : Database) (symbol : Bytes) (interval : Interval) (source contract_type : Bytes)
      → ((rows : List (Option Row))
          → run (latest_query symbol interval source contract_type) ≡ some rows
          → length rows ≤ 1)
      → get_latest_candle d new_from_string run symbol interval source contract_type
        ≡ only_of (get_candles d new_from_string run symbol interval source contract_type 0 0 1)
  unfolding get_candles get_latest_candle scan
  get_latest_candle_lem run symbol interval source contract_type h =
      sym (only_row (run (latest_query symbol interval source contract_type)) h)
