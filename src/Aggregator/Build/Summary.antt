-- ===== src/Aggregator/Build/Summary.antt =====
-- What the loop's totals say of the candles that it went over.
use nyyu_market.Prelude.{◌+◌, List, [], ◌∷◌, map, false, ◌≡◌, refl, All, arith, sym, subst, ◌∙◌, ap}
use nyyu_market.Prelude.Choice.{best, last_of, count_of, IsChoice}
use nyyu_market.Decimal.{Decimal, DecimalOrder, DecimalSums}
use nyyu_market.Decimal.Extremes.{
  Le, sum_of, max_of, set_min_of, max_of-IsChoice, set_min_of-IsChoice, add-zero,
}
use nyyu_market.Models.Candle.{Candle}
use nyyu_market.Aggregator.Build.Loop.{Totals, no_totals, add_candle, totals_from, totals}

-- The totals of the candles `c ∷ cs`: open and close are those of the first and the last, high and
-- low are the extremes, and volumes and trades are sums.
pub record IsSummary (d : Decimal) (c : Candle d.Number) (cs : List (Candle d.Number))
    (t : Totals d.Number) : Type 0 where
  pub first_open : t.open_price ≡ c.open_price
  pub last_close : t.close_price ≡ (last_of c cs).close_price
  pub highest : IsChoice (Le d) (λ x. x.high) (c ∷ cs) t.high
  pub lowest : IsChoice (λ a b. Le d b a) (λ x. x.low) (c ∷ cs) t.low
  pub volume_sum : t.volume ≡ sum_of d (λ x. x.volume) (c ∷ cs)
  pub quote_volume_sum : t.quote_volume ≡ sum_of d (λ x. x.quote_volume) (c ∷ cs)
  pub trade_sum : t.trade_count ≡ count_of (λ x. x.trade_count) (c ∷ cs)

module _ (d : Decimal) where
  -- The loop's fields behind the first candle.
  totals_from_eq :
      (t : Totals d.Number) (c : Candle d.Number) (cs : List (Candle d.Number))
      → t.first_candle ≡ false
      → t.close_price ≡ c.close_price
      → let r = totals_from d t cs in
        (r.open_price ≡ t.open_price)
        × (r.close_price ≡ (last_of c cs).close_price)
        × (r.high ≡ best (max_of d) t.high (map (λ c. c.high) cs))
        × (r.low ≡ best (set_min_of d) t.low (map (λ c. c.low) cs))
        × (r.trade_count ≡ t.trade_count + count_of (λ c. c.trade_count) cs)
  unfolding totals_from add_candle best
  totals_from_eq t c [] f e = (refl, e, refl, refl, omega arith)
  totals_from_eq t c (x ∷ cs) f e = ground (arith, totals_from_eq (add_candle d t x) x cs)

  totals_from-sums :
      (s : DecimalSums d) (t : Totals d.Number) (cs : List (Candle d.Number))
      → let r = totals_from d t cs in
        (r.volume ≡ d.add t.volume (sum_of d (λ c. c.volume) cs))
        × (r.quote_volume ≡ d.add t.quote_volume (sum_of d (λ c. c.quote_volume) cs))
  unfolding totals_from add_candle
  totals_from-sums s t [] = (sym (add-zero d s t.volume), sym (add-zero d s t.quote_volume))
  totals_from-sums s t (c ∷ cs) =
      let ih = totals_from-sums s (add_candle d t c) cs in
      (ih.0 ∙ s.add_assoc _ _ _, ih.1 ∙ s.add_assoc _ _ _)

  pub totals-IsSummary :
      (o : DecimalOrder d) (s : DecimalSums d) (c : Candle d.Number) (cs : List (Candle d.Number))
      → All (λ x. d.is_zero x.low ≡ false) (c ∷ cs)
      → IsSummary d c cs (totals d (c ∷ cs))
  unfolding totals totals_from add_candle
  totals-IsSummary o s c cs h =
      let t = add_candle d (no_totals d) c in
      let (e1, e2, e3, e4, e5) = totals_from_eq t c cs refl refl in
      let v = totals_from-sums s t cs in
      record {
        first_open = e1;
        last_close = e2;
        highest =
            subst (IsChoice (Le d) (λ x. x.high) (c ∷ cs)) (sym e3)
              (max_of-IsChoice d o (λ x. x.high) c cs);
        lowest =
            subst (IsChoice (λ a b. Le d b a) (λ x. x.low) (c ∷ cs)) (sym e4)
              (set_min_of-IsChoice d o (λ x. x.low) c cs h.0 h.1);
        volume_sum = v.0 ∙ ap (λ x. d.add x (sum_of d (λ c. c.volume) cs)) (s.zero-add _);
        quote_volume_sum =
            v.1 ∙ ap (λ x. d.add x (sum_of d (λ c. c.quote_volume) cs)) (s.zero-add _);
        trade_sum = omega (arith, e5);
      }
