-- ===== src/Aggregator/Handlers.antt =====
-- The messages of the exchanges, as `listenExchange` of
-- internal/services/aggregator/exchange_aggregator.go hands them to their handlers: six `process`
-- methods, which report candles to the `RealtimeCandleAggregator`. Parsing a message as JSON and a
-- text as a decimal are parameters.
pub mod Report
pub mod Binance
pub mod Readers
pub mod EventTime
pub mod Answers
pub mod Asked
use nyyu_market.Prelude.{ℕ, List, [], ◌∷◌, Option, none, some, if◌then◌else◌}
use nyyu_market.Prelude.Text.{Bytes, codes, bytes_eq}
use nyyu_market.Prelude.Json.{Json, Fields, as_map}
use nyyu_market.Decimal.{Decimal}
use nyyu_market.Models.Candle.{Candle}
use nyyu_market.Time.{Time}
use nyyu_market.Aggregator.Realtime.{RealtimeCandleAggregator}
use Report.{process_each}
use Binance.{binance_candles}
use Readers.{kraken_candles, coinbase_candles, bybit_candles, okx_candles, gateio_candles}

-- `unmarshal` gives the value of a message, `none` where it is no JSON.
module _ (d : Decimal) (new_from_string : Bytes → Option d.Number)
    (unmarshal : Bytes → Option Json) where
  open d use {Number}

  -- `processBinanceMessage`
  unfoldable pub process_binance_message :
      Time → Bytes → RealtimeCandleAggregator Number → RealtimeCandleAggregator Number
  process_binance_message now message st =
      process_each d now (codes "Binance")
        (binance_candles d new_from_string now (unmarshal message)) st

  -- A message that is no object has no fields.
  abbrev pub of_fields : Bytes → (Fields → List (Candle Number)) → List (Candle Number)
  of_fields message read = elim (as_map (unmarshal message)) [ some msg ↦ read msg | none ↦ [] ]

  -- `processKrakenMessage`, `processCoinbaseMessage`, `processBybitMessage`, `processOKXMessage` and
  -- `processGateIOMessage`
  unfoldable pub process_kraken_message :
      Time → Bytes → RealtimeCandleAggregator Number → RealtimeCandleAggregator Number
  process_kraken_message now message st =
      process_each d now (codes "Kraken") (of_fields message (kraken_candles d new_from_string now))
        st

  unfoldable pub process_coinbase_message :
      Time → Bytes → RealtimeCandleAggregator Number → RealtimeCandleAggregator Number
  process_coinbase_message now message st =
      process_each d now (codes "Coinbase")
        (of_fields message (coinbase_candles d new_from_string now)) st

  unfoldable pub process_bybit_message :
      Time → Bytes → RealtimeCandleAggregator Number → RealtimeCandleAggregator Number
  process_bybit_message now message st =
      process_each d now (codes "Bybit") (of_fields message (bybit_candles d new_from_string now))
        st

  unfoldable pub process_okx_message :
      Time → Bytes → RealtimeCandleAggregator Number → RealtimeCandleAggregator Number
  process_okx_message now message st =
      process_each d now (codes "OKX") (of_fields message (okx_candles d new_from_string now)) st

  unfoldable pub process_gateio_message :
      Time → Bytes → RealtimeCandleAggregator Number → RealtimeCandleAggregator Number
  process_gateio_message now message st =
      process_each d now (codes "Gate.io")
        (of_fields message (gateio_candles d new_from_string now)) st

  -- The `switch ex.Name` of `listenExchange`.
  unfoldable pub process_message :
      Bytes → Time → Bytes → RealtimeCandleAggregator Number → RealtimeCandleAggregator Number
  process_message name now message st =
      if bytes_eq name (codes "Binance")
      then process_binance_message now message st
      else (if bytes_eq name (codes "Kraken")
          then process_kraken_message now message st
          else (if bytes_eq name (codes "Coinbase")
              then process_coinbase_message now message st
              else (if bytes_eq name (codes "Bybit")
                  then process_bybit_message now message st
                  else (if bytes_eq name (codes "OKX")
                      then process_okx_message now message st
                      else (if bytes_eq name (codes "Gate.io")
                          then process_gateio_message now message st
                          else st)))))
