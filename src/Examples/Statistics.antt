-- ===== src/Examples/Statistics.antt =====
-- A calculator that warms up on one candle and then takes another, and a ring of two candles.
use nyyu_market.Prelude.{ℕ, ◌%◌, List, [], ◌∷◌, map, some, none, get_elem?, refl, ◌≡◌, arith}
use nyyu_market.Prelude.Text.{codes}
use nyyu_market.Decimal.{units, units-DecimalSums, units-DecimalOrder}
use nyyu_market.Models.Candle.{Candle}
use nyyu_market.Time.{Time}
use nyyu_market.Stats.Ring.{get_24h_stats, Query, new_stats, ring_size}
use nyyu_market.Stats.Window.{push_all, push_all-recent, push_all-opening, opening}
use nyyu_market.Stats.Cold.{get_24h_stats-once}
use nyyu_market.Prelude.Maps.{load}
use nyyu_market.Stats.Preserved.{Call, serve_all, AllTotal, serve_all-AllTotal}
use nyyu_market.Examples.{evening, year_end, first_minute, second_minute}

-- A database with one candle.
abbrev one_candle : Query units
one_candle symbol interval source contract_type start stop limit = some (first_minute ∷ [])

abbrev calls : List (Call units)
calls =
    Call.get evening (codes "BTCUSDT") 105
    ∷ Call.process evening second_minute
    ∷ Call.cleanup year_end 3600
    ∷ []

serve_all-AllTotal_example :
    AllTotal units units-DecimalSums units-DecimalOrder (serve_all units one_candle calls [])
serve_all-AllTotal_example =
    serve_all-AllTotal units units-DecimalSums units-DecimalOrder one_candle calls [] tt

abbrev history : List (Time × Candle ℕ)
history = (evening, first_minute) ∷ (evening, second_minute) ∷ []

push_all-recent_example :
    get_elem?
      (push_all units history (new_stats units (codes "BTCUSDT") evening)).candles
      (1 % ring_size)
    ≡ some (get_elem? (map (λ e. e.1) history) 1)
push_all-recent_example =
    push_all-recent units (codes "BTCUSDT") evening history 1 (omega arith) (omega arith)

push_all-opening_example :
    (push_all units history (new_stats units (codes "BTCUSDT") evening)).open_24h
    ≡ opening units (map (λ e. e.1) history)
push_all-opening_example = push_all-opening units (codes "BTCUSDT") evening history

-- A database that fails.
abbrev no_answer : Query units
no_answer symbol interval source contract_type start stop limit = none

get_24h_stats-once_example :
    get_24h_stats units no_answer evening
      (codes "BTCUSDT")
      105
      (get_24h_stats units one_candle evening (codes "BTCUSDT") 105 []).1
    ≡ get_24h_stats units one_candle evening (codes "BTCUSDT") 105 []
unfolding load
get_24h_stats-once_example =
    get_24h_stats-once units one_candle no_answer evening (codes "BTCUSDT") 105 [] first_minute []
      refl refl
