-- ===== src/Aggregator/Names.antt =====
-- internal/services/aggregator/exchange_helpers.go: what each exchange calls an interval.
pub mod Laws
use nyyu_market.Prelude.{ℕ, List, [], ◌∷◌, if◌then◌else◌}
use nyyu_market.Prelude.Text.{Bytes, codes, bytes_eq}
use nyyu_market.Models.Interval.{
  Interval, s1, m1, m3, m5, m15, m30, h1, h2, h4, h6, h8, h12, d1, d3, w1, mo1, other,
}

-- `convertIntervalToCoinbase`
unfoldable pub convert_interval_to_coinbase : Interval → Bytes
convert_interval_to_coinbase m1 = codes "ONE_MINUTE"
convert_interval_to_coinbase m5 = codes "FIVE_MINUTE"
convert_interval_to_coinbase m15 = codes "FIFTEEN_MINUTE"
convert_interval_to_coinbase m30 = codes "THIRTY_MINUTE"
convert_interval_to_coinbase h1 = codes "ONE_HOUR"
convert_interval_to_coinbase h2 = codes "TWO_HOUR"
convert_interval_to_coinbase h6 = codes "SIX_HOUR"
convert_interval_to_coinbase d1 = codes "ONE_DAY"
convert_interval_to_coinbase _ = codes "ONE_MINUTE"

-- `convertIntervalToBybit`
unfoldable pub convert_interval_to_bybit : Interval → Bytes
convert_interval_to_bybit m1 = codes "1"
convert_interval_to_bybit m3 = codes "3"
convert_interval_to_bybit m5 = codes "5"
convert_interval_to_bybit m15 = codes "15"
convert_interval_to_bybit m30 = codes "30"
convert_interval_to_bybit h1 = codes "60"
convert_interval_to_bybit h2 = codes "120"
convert_interval_to_bybit h4 = codes "240"
convert_interval_to_bybit h6 = codes "360"
convert_interval_to_bybit d1 = codes "D"
convert_interval_to_bybit w1 = codes "W"
convert_interval_to_bybit mo1 = codes "M"
convert_interval_to_bybit _ = codes "1"

-- `convertIntervalToOKX`
unfoldable pub convert_interval_to_okx : Interval → Bytes
convert_interval_to_okx m1 = codes "candle1m"
convert_interval_to_okx m3 = codes "candle3m"
convert_interval_to_okx m5 = codes "candle5m"
convert_interval_to_okx m15 = codes "candle15m"
convert_interval_to_okx m30 = codes "candle30m"
convert_interval_to_okx h1 = codes "candle1H"
convert_interval_to_okx h2 = codes "candle2H"
convert_interval_to_okx h4 = codes "candle4H"
convert_interval_to_okx h6 = codes "candle6H"
convert_interval_to_okx h12 = codes "candle12H"
convert_interval_to_okx d1 = codes "candle1D"
convert_interval_to_okx w1 = codes "candle1W"
convert_interval_to_okx mo1 = codes "candle1M"
convert_interval_to_okx _ = codes "candle1m"

-- `convertIntervalToGateIO`
unfoldable pub convert_interval_to_gateio : Interval → Bytes
convert_interval_to_gateio m1 = codes "1m"
convert_interval_to_gateio m5 = codes "5m"
convert_interval_to_gateio m15 = codes "15m"
convert_interval_to_gateio m30 = codes "30m"
convert_interval_to_gateio h1 = codes "1h"
convert_interval_to_gateio h4 = codes "4h"
convert_interval_to_gateio h8 = codes "8h"
convert_interval_to_gateio d1 = codes "1d"
convert_interval_to_gateio w1 = codes "7d"
convert_interval_to_gateio _ = codes "1m"

-- `convertIntervalToKraken`
unfoldable pub convert_interval_to_kraken : Interval → ℕ
convert_interval_to_kraken m1 = 1
convert_interval_to_kraken m5 = 5
convert_interval_to_kraken m15 = 15
convert_interval_to_kraken m30 = 30
convert_interval_to_kraken h1 = 60
convert_interval_to_kraken h4 = 240
convert_interval_to_kraken d1 = 1440
convert_interval_to_kraken w1 = 10080
convert_interval_to_kraken _ = 1

-- The cases of `convertGateIOIntervalToStandard`.
abbrev gateio_names : List (Bytes × Bytes)
gateio_names =
    (codes "1m", codes "1m")
    ∷ (codes "5m", codes "5m")
    ∷ (codes "15m", codes "15m")
    ∷ (codes "30m", codes "30m")
    ∷ (codes "1h", codes "1h")
    ∷ (codes "4h", codes "4h")
    ∷ (codes "8h", codes "8h")
    ∷ (codes "1d", codes "1d")
    ∷ (codes "7d", codes "1w")
    ∷ []

unfoldable pub first_case : Bytes → List (Bytes × Bytes) → Bytes → Bytes
first_case s [] default = default
first_case s ((name, value) ∷ cases) default =
    let rest = first_case s cases default in if bytes_eq s name then value else rest

-- `convertGateIOIntervalToStandard`
unfoldable pub convert_gateio_interval_to_standard : Bytes → Bytes
unfolding first_case
convert_gateio_interval_to_standard gate_interval =
    first_case gate_interval gateio_names (codes "1m")
