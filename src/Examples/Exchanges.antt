-- ===== src/Examples/Exchanges.antt =====
-- Two exchanges' data for a minute, and their names of intervals.
use nyyu_market.Prelude.{ℕ, List, [], ◌∷◌, some}
use nyyu_market.Prelude.Text.{Bytes, codes}
use nyyu_market.Decimal.{units, units-DecimalSums, units-DecimalOrder}
use nyyu_market.Models.Interval.{m1}
use nyyu_market.Aggregator.Realtime.{data_of, new_realtime_candle_aggregator, process_candle_update}
use nyyu_market.Aggregator.Realtime.Combine.{ExchangeCandleData, valid, combine}
use nyyu_market.Aggregator.Realtime.Summary.{Combines, combine-Combines}
use nyyu_market.Aggregator.Realtime.Updates.{
  IsValid, new_realtime_candle_aggregator-IsValid, process_candle_update-IsValid,
}
use nyyu_market.Examples.{evening, first_minute, second_minute}

abbrev exchange_data : List (Bytes × ExchangeCandleData ℕ)
exchange_data =
    (codes "binance", data_of units evening first_minute)
    ∷ (codes "okx", data_of units evening second_minute)
    ∷ []

combine-Combines_example :
    Combines units
      (valid units exchange_data)
      (combine units (codes "BTCUSDT") m1 evening evening evening exchange_data)
combine-Combines_example =
    combine-Combines units units-DecimalSums units-DecimalOrder (codes "BTCUSDT") m1 evening evening
      evening exchange_data

process_candle_update-IsValid_example : IsValid units (
    process_candle_update units evening
      (codes "binance")
      first_minute
      (new_realtime_candle_aggregator units (some 10)))
process_candle_update-IsValid_example =
    process_candle_update-IsValid units units-DecimalSums evening (codes "binance") first_minute
      (new_realtime_candle_aggregator units (some 10))
      (new_realtime_candle_aggregator-IsValid units (some 10))
