-- ===== src/Stats/Cold.antt =====
-- A cold symbol is read from the database once.
use nyyu_market.Prelude.{
  ℕ, ◌+◌, ◌-◌, List, [], ◌∷◌, Bool, true, false, none, some, if◌then◌else◌, leb, ◌≡◌, refl,
}
use nyyu_market.Prelude.Text.{Bytes}
use nyyu_market.Prelude.Maps.{load, store, bytes_key, load-store_self}
use nyyu_market.Decimal.{Decimal}
use nyyu_market.Models.Candle.{Candle, spot}
use nyyu_market.Models.Interval.{m1}
use nyyu_market.Time.{Time, day}
use nyyu_market.Stats.Ring.{
  Symbol24hStats, Calculator, Query, price_of, warm_stats, recalculate_high_low, fill_from,
  warmup_symbol, ring_size, served, get_24h_stats,
}

module _ (d : Decimal) where
  open d use {Number}

  if-is_warm :
      (b : Bool) (s t : Symbol24hStats Number) (w : Bool)
      → s.is_warm ≡ w
      → t.is_warm ≡ w
      → (if b then s else t).is_warm ≡ w
  if-is_warm true s t w h k = h
  if-is_warm false s t w h k = k

  fill_from-is_warm :
      (cs : List (Candle Number)) (i : ℕ) (s : Symbol24hStats Number)
      → (fill_from d i cs s).is_warm ≡ s.is_warm
  unfolding fill_from
  fill_from-is_warm [] i s = refl
  fill_from-is_warm (c ∷ cs) i s =
      if-is_warm (leb ring_size i) s _ s.is_warm refl (fill_from-is_warm cs (i + 1) _)

  -- The answer from statistics that are warm.
  served-warm :
      (g : Query d) (now : Time) (symbol : Bytes) (price : Number) (m : Calculator d)
      (s : Symbol24hStats Number)
      → s.is_warm ≡ true
      → served d g now symbol price m (some s) ≡ (some (price_of d s symbol price now), m)
  served-warm g now symbol price m s h = rw h refl

  warm_stats-is_warm :
      (symbol : Bytes) (now : Time) (c : Candle Number) (cs : List (Candle Number))
      → (warm_stats d symbol now c cs).is_warm ≡ true
  unfolding warm_stats recalculate_high_low
  warm_stats-is_warm symbol now c cs = fill_from-is_warm (c ∷ cs) 0 _

  -- If a symbol is cold and the database has candles of it, `Get24hStats` gives the same price when
  -- it is called again at that instant, whatever the database would answer then, and changes nothing.
  pub get_24h_stats-once :
      (g g' : Query d) (now : Time) (symbol : Bytes) (price : Number) (m : Calculator d)
      (c : Candle Number) (cs : List (Candle Number))
      → load symbol m ≡ none
      → g symbol m1 [] spot (now - day) now ring_size ≡ some (c ∷ cs)
      → get_24h_stats d g' now symbol price (get_24h_stats d g now symbol price m).1
        ≡ get_24h_stats d g now symbol price m
  unfolding get_24h_stats warmup_symbol
  get_24h_stats-once g g' now symbol price m c cs h e =
      let s = warm_stats d symbol now c cs in
      rw (h, e, load-store_self symbol s m)
        (served-warm g' now symbol price (store symbol s m) s (warm_stats-is_warm symbol now c cs))
