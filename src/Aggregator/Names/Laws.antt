-- ===== src/Aggregator/Names/Laws.antt =====
-- Gate.io's names read back, and Kraken's minutes against the durations of the models.
use nyyu_market.Prelude.{◌*◌, Bool, true, false, if◌then◌else◌, ◌≡◌, ◌↔◌, refl, arith}
use nyyu_market.Prelude.Text.{bytes_eq}
use nyyu_market.Models.Interval.{
  Interval, s1, m1, m3, m5, m15, m30, h1, h2, h4, h6, h8, h12, d1, d3, w1, mo1, other, text,
  interval_to_duration,
}
use nyyu_market.Time.{minute}
use nyyu_market.Aggregator.Names.{
  convert_interval_to_gateio, convert_gateio_interval_to_standard, convert_interval_to_kraken,
}

-- The intervals that Gate.io's names cover.
abbrev pub gateio_serves : Interval → Bool
gateio_serves m1 = true
gateio_serves m5 = true
gateio_serves m15 = true
gateio_serves m30 = true
gateio_serves h1 = true
gateio_serves h4 = true
gateio_serves h8 = true
gateio_serves d1 = true
gateio_serves w1 = true
gateio_serves _ = false

-- The intervals that Kraken's minutes cover; a string that is no interval is a minute everywhere.
abbrev pub kraken_serves : Interval → Bool
kraken_serves m1 = true
kraken_serves m5 = true
kraken_serves m15 = true
kraken_serves m30 = true
kraken_serves h1 = true
kraken_serves h4 = true
kraken_serves d1 = true
kraken_serves w1 = true
kraken_serves (other s) = true
kraken_serves _ = false

-- Gate.io's name of an interval reads back as the interval if Gate.io has it, and as one minute if
-- it has not.
pub gateio_round_trip :
    (i : Interval)
    → convert_gateio_interval_to_standard (convert_interval_to_gateio i)
      ≡ text (if gateio_serves i then i else m1)
unfolding convert_gateio_interval_to_standard convert_interval_to_gateio text bytes_eq
gateio_round_trip (other s) = refl
gateio_round_trip i = refl

-- The minutes that Kraken is asked for are the interval's duration exactly for the intervals that
-- Kraken has, and for strings that are no interval.
pub kraken_minutes_iff :
    (i : Interval)
    → (convert_interval_to_kraken i * minute ≡ interval_to_duration i) ↔ (kraken_serves i ≡ true)
unfolding convert_interval_to_kraken interval_to_duration
kraken_minutes_iff s1 = (λ h. absurd (omega arith), λ h. cc)
kraken_minutes_iff m1 = (λ h. refl, λ h. omega arith)
kraken_minutes_iff m3 = (λ h. absurd (omega arith), λ h. cc)
kraken_minutes_iff m5 = (λ h. refl, λ h. omega arith)
kraken_minutes_iff m15 = (λ h. refl, λ h. omega arith)
kraken_minutes_iff m30 = (λ h. refl, λ h. omega arith)
kraken_minutes_iff h1 = (λ h. refl, λ h. omega arith)
kraken_minutes_iff h2 = (λ h. absurd (omega arith), λ h. cc)
kraken_minutes_iff h4 = (λ h. refl, λ h. omega arith)
kraken_minutes_iff h6 = (λ h. absurd (omega arith), λ h. cc)
kraken_minutes_iff h8 = (λ h. absurd (omega arith), λ h. cc)
kraken_minutes_iff h12 = (λ h. absurd (omega arith), λ h. cc)
kraken_minutes_iff d1 = (λ h. refl, λ h. omega arith)
kraken_minutes_iff d3 = (λ h. absurd (omega arith), λ h. cc)
kraken_minutes_iff w1 = (λ h. refl, λ h. omega arith)
kraken_minutes_iff mo1 = (λ h. absurd (omega arith), λ h. cc)
kraken_minutes_iff (other s) = (λ h. refl, λ h. omega arith)
