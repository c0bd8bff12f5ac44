-- ===== src/Examples/Candles.antt =====
-- The totals of two 1m candles, read in either order.
use mathlib.Core.List.{Permᴰ}
use nyyu_market.Prelude.{ℕ, [], ◌∷◌, ◌≡◌, refl}
use nyyu_market.Prelude.Maps.{load}
use nyyu_market.Decimal.{units, units-DecimalSums, units-DecimalOrder}
use nyyu_market.Models.Candle.{Candle}
use nyyu_market.Aggregator.Build.Loop.{building_totals}
use nyyu_market.Aggregator.Build.Order.{building_totals-permᴰ, building_summary, SumsUp, values}
use nyyu_market.Examples.{first_minute, second_minute}

abbrev early : ℕ × Candle ℕ
early = (1700000040, first_minute)

abbrev late : ℕ × Candle ℕ
late = (1700000100, second_minute)

building_totals-permᴰ_example :
    building_totals units (late ∷ early ∷ []) ≡ building_totals units (early ∷ late ∷ [])
unfolding load
building_totals-permᴰ_example =
    building_totals-permᴰ units {m = late ∷ early ∷ []} {n = early ∷ late ∷ []}
      (Permᴰ.swap refl refl) (refl, (refl, tt))

building_summary_example :
    SumsUp units units-DecimalOrder units-DecimalSums
      (values (late ∷ early ∷ []))
      (building_totals units (late ∷ early ∷ []))
unfolding load
building_summary_example =
    building_summary units units-DecimalOrder units-DecimalSums late (early ∷ []) (refl, (refl, tt))
      (refl, (refl, tt)) (refl, (refl, tt))
