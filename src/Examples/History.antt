-- ===== src/Examples/History.antt =====
-- Two minutes of one hour, as the database has them.
use mathlib.Core.List.Permᴰ
use nyyu_market.Prelude.{ℕ, ◌∷◌, List, []}
use nyyu_market.Models.Candle.{Candle}
use nyyu_market.Examples.{first_minute, second_minute}

abbrev rows : List (Candle ℕ)
rows = first_minute ∷ second_minute ∷ []

abbrev hour_key : ℕ
hour_key = 1699999200
