-- ===== src/Examples/Building.antt =====
-- An aggregator that two minutes of an evening and one of the last day of a year reach.
use nyyu_market.Prelude.{ℕ, ap, length, ◌≡◌, refl, some, none, arith}
use nyyu_market.Prelude.Text.{codes}
use nyyu_market.Prelude.Maps.{load, bytes_key}
use nyyu_market.Decimal.{units}
use nyyu_market.Models.Interval.{m5, mo1}
use nyyu_market.Models.Candle.{Candle}
use nyyu_market.Time.Calendar.{civil}
use nyyu_market.Aggregator.Period.{interval_duration}
use nyyu_market.Aggregator.Period.Laws.{open_time_bounds}
use nyyu_market.Aggregator.Build.{BuildingCandle}
use nyyu_market.Aggregator.Intervals.{
  IntervalAggregator, new_interval_aggregator, new_building_candle, put_1m_candle, or_new,
  period_key, close_expired_intervals, process_1m_candle,
}
use nyyu_market.Aggregator.Intervals.Invariant.{
  IsValid, IsInput, new_interval_aggregator-IsValid, process_1m_candle-IsValid,
}
use nyyu_market.Aggregator.Intervals.Closed.{
  close_expired_intervals-closes, close_expired_intervals-keeps,
}
use nyyu_market.Aggregator.Intervals.Growth.{
  process_1m_candle-grows, process_1m_candle-month_restarts, process_1m_candle-frame,
}
use nyyu_market.Examples.{evening, year_end, first_minute, second_minute, last_day_minute}

first_minute-IsInput : IsInput first_minute
first_minute-IsInput = record { colon_free = ground arith; recent = omega arith }

second_minute-IsInput : IsInput second_minute
second_minute-IsInput = record { colon_free = ground arith; recent = omega arith }

last_day_minute-IsInput : IsInput last_day_minute
last_day_minute-IsInput = record { colon_free = ground arith; recent = omega arith }

abbrev started : IntervalAggregator ℕ
started = process_1m_candle units evening first_minute (new_interval_aggregator ℕ)

process_1m_candle-IsValid_example : IsValid started
process_1m_candle-IsValid_example =
    process_1m_candle-IsValid units evening first_minute (new_interval_aggregator ℕ)
      first_minute-IsInput (new_interval_aggregator-IsValid ℕ)

started-IsValid : IsValid started
started-IsValid =
    process_1m_candle-IsValid units evening first_minute (new_interval_aggregator ℕ)
      first_minute-IsInput (new_interval_aggregator-IsValid ℕ)

process_1m_candle-grows_example :
    load
      (period_key units second_minute m5)
      (process_1m_candle units evening second_minute started).building_candles
    ≡ some (
        put_1m_candle units second_minute (
          or_new units
            (load (period_key units second_minute m5) started.building_candles)
            (new_building_candle units second_minute m5)))
process_1m_candle-grows_example =
    process_1m_candle-grows units evening second_minute second_minute-IsInput started
      started-IsValid m5 refl

-- The building candle that the first minute starts.
abbrev five_minutes : BuildingCandle ℕ
five_minutes = put_1m_candle units first_minute (new_building_candle units first_minute m5)

started-five_minutes :
    load (period_key units first_minute m5) started.building_candles ≡ some five_minutes
unfolding load
started-five_minutes =
    process_1m_candle-grows units evening first_minute first_minute-IsInput
      (new_interval_aggregator ℕ) (new_interval_aggregator-IsValid ℕ) m5 refl

process_1m_candle-month_restarts_example :
    load
      (period_key units last_day_minute mo1)
      (process_1m_candle units year_end last_day_minute started).building_candles
    ≡ some (put_1m_candle units last_day_minute (new_building_candle units last_day_minute mo1))
unfolding civil
process_1m_candle-month_restarts_example =
    process_1m_candle-month_restarts units year_end last_day_minute last_day_minute-IsInput started
      started-IsValid refl

close_expired_intervals-closes_example :
    load
      (period_key units first_minute m5)
      (close_expired_intervals units evening (codes "BTCUSDT") year_end started).building_candles
    ≡ none
unfolding put_1m_candle new_building_candle interval_duration
close_expired_intervals-closes_example =
    close_expired_intervals-closes units evening (codes "BTCUSDT") year_end started
      first_minute-IsInput.colon_free started-IsValid (period_key units first_minute m5)
      five_minutes started-five_minutes refl
      (omega (arith, open_time_bounds evening m5 (λ e. cc) (omega arith)))

close_expired_intervals-keeps_example :
    load
      (period_key units first_minute m5)
      (close_expired_intervals units evening (codes "BTCUSDT") evening started).building_candles
    ≡ some five_minutes
unfolding put_1m_candle new_building_candle interval_duration
close_expired_intervals-keeps_example =
    close_expired_intervals-keeps units evening (codes "BTCUSDT") evening started
      first_minute-IsInput.colon_free started-IsValid (period_key units first_minute m5)
      five_minutes started-five_minutes
      (λ h. omega (arith, h.1, open_time_bounds evening m5 (λ e. cc) (omega arith)))

-- A minute of another symbol.
abbrev doge_minute : Candle ℕ
doge_minute = record last_day_minute { symbol = codes "DOGEUSDT" }

doge_minute-IsInput : IsInput doge_minute
doge_minute-IsInput = record { colon_free = ground arith; recent = omega arith }

process_1m_candle-frame_example :
    load
      (period_key units first_minute m5)
      (process_1m_candle units year_end doge_minute started).building_candles
    ≡ some five_minutes
unfolding put_1m_candle new_building_candle
process_1m_candle-frame_example =
    process_1m_candle-frame units year_end doge_minute doge_minute-IsInput started started-IsValid
      (period_key units first_minute m5) five_minutes started-five_minutes
      (λ e. omega (arith, ap length e))
