-- ===== src/Time/Calendar.antt =====
-- The proleptic Gregorian calendar: the date of a day number and the day number of a date.
use nyyu_market.Prelude.{
  ℕ, zero, suc, ◌+◌, ◌-◌, ◌%◌, ◌≤◌, ◌<◌, ◌≡◌, refl, ap, Bool, true, false, not, ◌&&◌, ◌||◌, arith,
  ltb, ◌==◌, if◌then◌else◌,
}

-- Months and days count from 0 here; `year` 0 is the year 1.
pub record Date : Type 0 where
  pub year : ℕ
  pub month : ℕ
  pub day_of_month : ℕ

-- Walk over spans of the given lengths until the offset lies inside one.
walk : (ℕ → ℕ) → ℕ → ℕ → ℕ → ℕ × ℕ
walk len zero i n = (i, n)
walk len (suc k) i n =
    let rest = walk len k (suc i) (n - len i) in if ltb n (len i) then (i, n) else rest

before : (ℕ → ℕ) → ℕ → ℕ
before len zero = 0
before len (suc i) = before len i + len i

walk-before :
    (len : ℕ → ℕ) (k i n : ℕ)
    → before len (walk len k i n).0 + (walk len k i n).1 ≡ before len i + n
unfolding walk before
walk-before len zero i n = refl
walk-before len (suc k) i n = ground (arith, walk-before len k (suc i) (n - len i))

is_leap : ℕ → Bool
is_leap y = y % 4 == 0 && (not (y % 100 == 0) || y % 400 == 0)

year_len : ℕ → ℕ
year_len i = if is_leap (i + 1) then 366 else 365

month_len : Bool → ℕ → ℕ
month_len leap m =
    if m == 1
    then (if leap then 29 else 28)
    else if m == 3 || (m == 5 || (m == 8 || m == 10))
    then 30
    else 31

-- The days since 1 January of the year 1 give a date; a day number is its own bound on the years.
unfoldable pub civil : ℕ → Date
unfolding walk before is_leap year_len month_len
civil n =
    let (y, yday) = walk year_len n 0 n in
    let (m, d) = walk (month_len (is_leap (y + 1))) 12 0 yday in
    record { year = y; month = m; day_of_month = d }

unfoldable pub days_of_date : Date → ℕ
unfolding before is_leap year_len month_len
days_of_date c =
    before year_len c.year + before (month_len (is_leap (c.year + 1))) c.month + c.day_of_month

-- A day number is the day number of its date.
pub days_of_date-civil : (n : ℕ) → days_of_date (civil n) ≡ n
unfolding civil days_of_date
days_of_date-civil n =
    let (y, yday) = walk year_len n 0 n in
    omega (arith, walk-before year_len n 0 n, walk-before (month_len (is_leap (y + 1))) 12 0 yday)

-- The walk ends inside a span when its rounds reach past the offset.
walk-lt :
    (len : ℕ → ℕ) (k i n j : ℕ)
    → j ≡ i + k
    → before len i + n < before len j
    → (walk len k i n).1 < len (walk len k i n).0
unfolding walk before
walk-lt len zero i n j e h =
    let same : j ≡ i = omega arith in absurd (omega (arith, ap (before len) same))
walk-lt len (suc k) i n j e h = ground (arith, walk-lt len k (suc i) (n - len i) j)

before-ge : (n : ℕ) → n ≤ before year_len n
unfolding before year_len
before-ge zero = omega arith
before-ge (suc n) = ground (arith, before-ge n)

before_twelve : (leap : Bool) → before (month_len leap) 12 ≡ (if leap then 366 else 365)
unfolding before month_len
before_twelve true = refl
before_twelve false = refl

month_len-le : (leap : Bool) (m : ℕ) → month_len leap m ≤ 31
unfolding month_len
month_len-le leap m = ground arith

yday-lt :
    (n : ℕ) → (walk year_len n 0 n).1 < (if is_leap ((walk year_len n 0 n).0 + 1) then 366 else 365)
unfolding walk before year_len
yday-lt zero = ground arith
yday-lt (suc n) =
    walk-lt year_len (suc n) 0 (suc n) (suc n) (omega arith) (ground (arith, before-ge n))

-- A date lies in its month.
pub day_of_month-lt : (n : ℕ) → (civil n).day_of_month < 31
unfolding civil
day_of_month-lt n =
    let (y, yday) = walk year_len n 0 n in
    omega (
      arith,
      walk-lt (month_len (is_leap (y + 1))) 12 0 yday 12 (omega arith)
          (omega (arith, yday-lt n, before_twelve (is_leap (y + 1)))),
      month_len-le (is_leap (y + 1)) (walk (month_len (is_leap (y + 1))) 12 0 yday).0,
    )

-- The first of the month of a date.
abbrev pub first_of_month : Date → Date
first_of_month c = record c { day_of_month = 0 }

pub days_of_date-first_of_month :
    (c : Date) → days_of_date (first_of_month c) + c.day_of_month ≡ days_of_date c
unfolding days_of_date
days_of_date-first_of_month c = omega arith
