-- ===== src/Aggregator/Realtime/Summary.antt =====
-- What `aggregateLiveCandle` says of the exchanges' data, and `updateLivePrice` of their prices.
use nyyu_market.Prelude.{
  ℕ, ◌+◌, List, [], ◌∷◌, map, false, ◌||◌, Option, none, some, ◌==◌, suc, length, ◌≡◌, refl, ◌∙◌,
  sym, ap, subst, arith, Bool-cases, inl, inr,
}
use mathlib.Core.Path.{ap₂}
use nyyu_market.Prelude.Text.{Bytes}
use nyyu_market.Prelude.Choice.{best, IsChoice}
use nyyu_market.Decimal.{Decimal, DecimalSums, DecimalOrder}
use nyyu_market.Decimal.Extremes.{
  Le, sum_of, max_of, min_of, max_of-IsChoice, min_of-IsChoice, add-zero,
}
use nyyu_market.Models.Interval.{Interval}
use nyyu_market.Models.Candle.{Candle}
use nyyu_market.Time.{Time}
use nyyu_market.Aggregator.Realtime.Combine.{
  ExchangeCandleData, Combined, nothing, is_invalid, add_data, combine_from, combine, candle_of,
  sum_and_count, valid, any_of, IsCombination,
}

module _ (d : Decimal) where
  open d use {Number, zero_value, add}

  abbrev add_all : Combined Number → List (ExchangeCandleData Number) → Combined Number
  add_all t [] = t
  add_all t (x ∷ xs) = add_all (add_data d t x) xs

  combine_from_eq :
      (m : List (Bytes × ExchangeCandleData Number)) (t : Combined Number)
      → combine_from d t m ≡ add_all t (valid d m)
  unfolding combine_from
  combine_from_eq [] t = refl
  combine_from_eq ((exchange, x) ∷ m) t = elim (Bool-cases (is_invalid d x)) [
    | inl y ↦ rw y (combine_from_eq m t)
    | inr n ↦ rw n (combine_from_eq m (add_data d t x))
  ]

  add_all-fields :
      (xs : List (ExchangeCandleData Number)) (t : Combined Number)
      → t.first_exchange ≡ false
      → let r = add_all t xs in
        (r.max_high ≡ best (max_of d) t.max_high (map (λ y. y.high) xs))
        × (r.min_low ≡ best (min_of d) t.min_low (map (λ y. y.low) xs))
        × (r.valid_count ≡ t.valid_count + length xs)
        × (r.any_closed ≡ (t.any_closed || any_of d xs))
  unfolding add_data best
  add_all-fields [] t f = (refl, refl, omega arith, ground arith)
  add_all-fields (x ∷ xs) t f = ground (arith, add_all-fields xs (add_data d t x))

  add_all-sums :
      (s : DecimalSums d) (xs : List (ExchangeCandleData Number)) (t : Combined Number)
      → let r = add_all t xs in
        (r.total_open ≡ add t.total_open (sum_of d (λ y. y.open_price) xs))
        × (r.total_close ≡ add t.total_close (sum_of d (λ y. y.close_price) xs))
        × (r.total_volume ≡ add t.total_volume (sum_of d (λ y. y.volume) xs))
        × (r.total_quote_volume ≡ add t.total_quote_volume (sum_of d (λ y. y.quote_volume) xs))
  unfolding add_data
  add_all-sums s [] t =
      (sym (add-zero d s _), sym (add-zero d s _), sym (add-zero d s _), sym (add-zero d s _))
  add_all-sums s (x ∷ xs) t =
      let (a, b, e, f) = add_all-sums s xs (add_data d t x) in
      (a ∙ s.add_assoc _ _ _, b ∙ s.add_assoc _ _ _, e ∙ s.add_assoc _ _ _, f ∙ s.add_assoc _ _ _)

  -- The number of exchanges and the sum of their prices.
  pub sum_and_count_eq :
      (s : DecimalSums d) (m : List (Bytes × Number)) (sum : Number) (count : ℕ)
      → sum_and_count d sum count m ≡ (add sum (sum_of d (λ e. e.1) m), count + length m)
  unfolding sum_and_count
  sum_and_count_eq s [] sum count = ap₂ (λ a b. (a, b)) (sym (add-zero d s sum)) (omega arith)
  sum_and_count_eq s ((exchange, p) ∷ m) sum count =
      sum_and_count_eq s m (add sum p) (count + 1)
      ∙ ap₂ (λ a b. (a, b)) (s.add_assoc sum p _) (omega arith)

  -- Whether the candle that is made is one of the data that count: of data that count, it is their
  -- combination, and it is nil if none counts.
  abbrev pub Combines : List (ExchangeCandleData Number) → Option (Candle Number) → Type 0
  Combines [] o = o ≡ none
  Combines (x ∷ xs) none = ⊥
  Combines (x ∷ xs) (some c) = IsCombination d x xs c

  module _ (s : DecimalSums d) (o : DecimalOrder d) where
    first-fields :
        (x : ExchangeCandleData Number) (xs : List (ExchangeCandleData Number))
        → let r = add_all (add_data d (nothing d) x) xs in
          (r.max_high ≡ best (max_of d) x.high (map (λ y. y.high) xs))
          × (r.min_low ≡ best (min_of d) x.low (map (λ y. y.low) xs))
          × (r.valid_count ≡ suc (length xs))
          × (r.any_closed ≡ any_of d (x ∷ xs))
    unfolding add_data
    first-fields x xs =
        let (hi, lo, count, closed) = add_all-fields xs (add_data d (nothing d) x) refl in
        (hi, lo, omega (arith, count), ground (arith, closed))

    first-sums :
        (x : ExchangeCandleData Number) (xs : List (ExchangeCandleData Number))
        → let r = add_all (add_data d (nothing d) x) xs in
          (r.total_open ≡ sum_of d (λ y. y.open_price) (x ∷ xs))
          × (r.total_close ≡ sum_of d (λ y. y.close_price) (x ∷ xs))
          × (r.total_volume ≡ sum_of d (λ y. y.volume) (x ∷ xs))
          × (r.total_quote_volume ≡ sum_of d (λ y. y.quote_volume) (x ∷ xs))
    unfolding add_data
    first-sums x xs =
        let (a, b, e, f) = add_all-sums s xs (add_data d (nothing d) x) in
        (
          a ∙ ap (λ v. add v _) (s.zero-add _),
          b ∙ ap (λ v. add v _) (s.zero-add _),
          e ∙ ap (λ v. add v _) (s.zero-add _),
          f ∙ ap (λ v. add v _) (s.zero-add _),
        )

    add_all-Combines :
        (symbol : Bytes) (interval : Interval) (open_time close_time now : Time)
        (xs : List (ExchangeCandleData Number))
        → Combines xs
            (candle_of d symbol interval open_time close_time now (add_all (nothing d) xs))
    add_all-Combines symbol interval open_time close_time now [] = refl
    add_all-Combines symbol interval open_time close_time now (x ∷ xs) =
        let t = add_data d (nothing d) x in
        let (hi, lo, count, closed) = first-fields x xs in
        let (op, cl, vol, quote) = first-sums x xs in
        let some_valid : ((add_all t xs).valid_count == 0) ≡ false = ground (arith, count) in
        rw some_valid record {
          average_open = ap₂ (λ a n. d.div a (d.new_from_int n)) op count;
          average_close = ap₂ (λ a n. d.div a (d.new_from_int n)) cl count;
          highest =
              subst (IsChoice (Le d) (λ y. y.high) (x ∷ xs)) (sym hi)
                (max_of-IsChoice d o (λ y. y.high) x xs);
          lowest =
              subst (IsChoice (λ a b. Le d b a) (λ y. y.low) (x ∷ xs)) (sym lo)
                (min_of-IsChoice d o (λ y. y.low) x xs);
          volume_sum = vol;
          quote_volume_sum = quote;
          exchanges = omega (arith, count);
          closed = closed;
        }

    -- By the laws of decimal sums and order: `aggregateLiveCandle` over data of which some have an
    -- open or a close price averages the open and the close prices of these, takes their highest
    -- high and lowest low, adds up their volumes, has their number for its number of trades, and
    -- is closed if one of them is; it gives nil if there are no such data.
    pub combine-Combines :
        (symbol : Bytes) (interval : Interval) (open_time close_time now : Time)
        (m : List (Bytes × ExchangeCandleData Number))
        → Combines (valid d m) (combine d symbol interval open_time close_time now m)
    unfolding combine
    combine-Combines symbol interval open_time close_time now m =
        subst (λ t. Combines (valid d m) (candle_of d symbol interval open_time close_time now t))
          (sym (combine_from_eq m (nothing d)))
          (add_all-Combines symbol interval open_time close_time now (valid d m))
