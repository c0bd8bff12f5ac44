-- ===== src/Stats/Totals.antt =====
-- The sums and extremes of the statistics against the candles in the ring.
use nyyu_market.Prelude.{
  ℕ, zero, suc, ◌<◌, List, [], ◌∷◌, true, false, Option, none, some, map, set, length, ◌≡◌, ◌≢◌,
  subst, refl, sym, ap, ◌∙◌, arith,
}
use nyyu_market.Prelude.Lists.{replicate, length-set, length-replicate}
use nyyu_market.Prelude.Choice.{best, IsChoice}
use nyyu_market.Prelude.Text.{Bytes}
use nyyu_market.Prelude.Maps.{bytes_key}
use nyyu_market.Decimal.{Decimal, DecimalSums, DecimalOrder}
use nyyu_market.Decimal.Extremes.{
  Le, sum_of, max_of, min_of, max_of-IsChoice, min_of-IsChoice, add-zero,
}
use nyyu_market.Models.Candle.{Candle}
use nyyu_market.Time.{Time}
use nyyu_market.Stats.Ring.{
  Symbol24hStats, ring_size, slot, empty_ring, present, new_stats, high_low_from,
  recalculate_high_low, take_off, push_candle,
}

-- A choice among the entries of a list, if it has any.
abbrev pub ChoiceOf : {A B : Type 0} → (A → A → Type 0) → (B → A) → List B → A → Type 0
ChoiceOf R f [] b = Unit
ChoiceOf R f (x ∷ xs) b = IsChoice R f (x ∷ xs) b

choose :
    {A B : Type 0} (R : A → A → Type 0) (f : B → A) (b : A) (l : List B)
    → ((x : B) (xs : List B) → l ≡ x ∷ xs → IsChoice R f (x ∷ xs) b)
    → ChoiceOf R f l b
choose R f b [] h = tt
choose R f b (x ∷ xs) h = h x xs refl

module _ (d : Decimal) where
  open d use {Number, zero_value, add, sub}

  -- The statistics are those of the candles that the ring holds.
  pub record IsTotal (s : Symbol24hStats Number) : Type 0 where
    pub sized : length s.candles ≡ ring_size
    pub index_in : s.next_index < ring_size
    pub volume_sum : s.volume_24h ≡ sum_of d (λ c. c.volume) (present s.candles)
    pub quote_sum : s.quote_volume_24h ≡ sum_of d (λ c. c.quote_volume) (present s.candles)
    pub highest : ChoiceOf (Le d) (λ c. c.high) (present s.candles) s.high_24h
    pub lowest : ChoiceOf (λ a b. Le d b a) (λ c. c.low) (present s.candles) s.low_24h

  -- The loop of `recalculateHighLow` is a pair of running choices over the candles present.
  high_low_from-false :
      (xs : List (Option (Candle Number))) (hi lo : Number)
      → high_low_from d false hi lo xs ≡ (
        best (max_of d) hi (map (λ c. c.high) (present xs)),
        best (min_of d) lo (map (λ c. c.low) (present xs)),
      )
  unfolding high_low_from best
  high_low_from-false [] hi lo = refl
  high_low_from-false (none ∷ xs) hi lo = high_low_from-false xs hi lo
  high_low_from-false (some c ∷ xs) hi lo = high_low_from-false xs _ _

  high_low_from-true :
      (a b : Number) (xs : List (Option (Candle Number))) (y : Candle Number)
      (ys : List (Candle Number))
      → present xs ≡ y ∷ ys
      → high_low_from d true a b xs ≡ (
        best (max_of d) y.high (map (λ c. c.high) ys),
        best (min_of d) y.low (map (λ c. c.low) ys),
      )
  unfolding high_low_from
  high_low_from-true a b [] y ys e = cc
  high_low_from-true a b (none ∷ xs) y ys e = high_low_from-true a b xs y ys e
  high_low_from-true a b (some c ∷ xs) y ys e =
      high_low_from-false xs c.high c.low
      ∙ ap
          (λ l. elim l [
            | [] ↦ (c.high, c.low)
            | z ∷ zs ↦ (
              best (max_of d) z.high (map (λ x. x.high) zs),
              best (min_of d) z.low (map (λ x. x.low) zs),
            )
          ])
          e

  module _ (s : DecimalSums d) (f : Candle Number → Number) where
    abbrev part : Option (Candle Number) → Number
    part none = zero_value
    part (some c) = f c

    -- A slot's share of the sum can be exchanged.
    sum-set :
        (xs : List (Option (Candle Number))) (i : ℕ) (v : Option (Candle Number))
        → i < length xs
        → (r : Number) × (sum_of d f (present xs) ≡ add r (part (slot xs i)))
          × (sum_of d f (present (set xs i v)) ≡ add r (part v))
    sum-set [] i v h = elim h [ ]
    sum-set (none ∷ xs) zero none h =
        (sum_of d f (present xs), sym (add-zero d s _), sym (add-zero d s _))
    sum-set (none ∷ xs) zero (some c) h =
        (sum_of d f (present xs), sym (add-zero d s _), s.add_comm (f c) _)
    sum-set (some a ∷ xs) zero none h =
        (sum_of d f (present xs), s.add_comm (f a) _, sym (add-zero d s _))
    sum-set (some a ∷ xs) zero (some c) h =
        (sum_of d f (present xs), s.add_comm (f a) _, s.add_comm (f c) _)
    sum-set (none ∷ xs) (suc i) v h = sum-set xs i v (omega arith)
    sum-set (some a ∷ xs) (suc i) v h =
        let (r, p, q) = sum-set xs i v (omega arith) in
        (
          add (f a) r,
          ap (add (f a)) p ∙ sym (s.add_assoc (f a) r _),
          ap (add (f a)) q ∙ sym (s.add_assoc (f a) r _),
        )

    take_off-part : (o : Option (Candle Number)) (r : Number) → take_off d f o (add r (part o)) ≡ r
    take_off-part none r = add-zero d s r
    take_off-part (some c) r = s.sub-add r (f c)

    -- To take off the old candle and to add the new one keeps the sum.
    pub sum-exchange :
        (xs : List (Option (Candle Number))) (i : ℕ) (c : Candle Number) (v : Number)
        → i < length xs
        → v ≡ sum_of d f (present xs)
        → add (take_off d f (slot xs i) v) (f c) ≡ sum_of d f (present (set xs i (some c)))
    sum-exchange xs i c v h e =
        let (r, p, q) = sum-set xs i (some c) h in
        ap (λ x. add (take_off d f (slot xs i) x) (f c)) (e ∙ p)
        ∙ ap (λ x. add x (f c)) (take_off-part (slot xs i) r)
        ∙ sym q

    pub sum-replicate : (n : ℕ) → zero_value ≡ sum_of d f (present (replicate n none))
    sum-replicate zero = refl
    sum-replicate (suc n) = sum-replicate n

  module _ (s : DecimalSums d) (o : DecimalOrder d) where
    present-replicate :
        (n : ℕ) (x : Candle Number) (xs : List (Candle Number))
        → present (replicate n none) ≢ x ∷ xs
    present-replicate zero x xs e = cc
    present-replicate (suc n) x xs e = present-replicate n x xs e

    pub new_stats-IsTotal : (symbol : Bytes) (now : Time) → IsTotal (new_stats d symbol now)
    unfolding new_stats empty_ring
    new_stats-IsTotal symbol now = record {
      sized = length-replicate {A = Option (Candle Number)} ring_size none;
      index_in = omega arith;
      volume_sum = sum-replicate s (λ c. c.volume) ring_size;
      quote_sum = sum-replicate s (λ c. c.quote_volume) ring_size;
      highest =
          choose (Le d) (λ c. c.high) zero_value _
            (λ x xs e. absurd (present-replicate ring_size x xs e));
      lowest =
          choose (λ a b. Le d b a) (λ c. c.low) zero_value _
            (λ x xs e. absurd (present-replicate ring_size x xs e));
    }

    pub recalculate_high_low-extremes :
        (t : Symbol24hStats Number)
        → ChoiceOf (Le d) (λ c. c.high) (present t.candles) (recalculate_high_low d t).high_24h
          × ChoiceOf
              (λ a b. Le d b a)
              (λ c. c.low)
              (present t.candles)
              (recalculate_high_low d t).low_24h
    unfolding recalculate_high_low
    recalculate_high_low-extremes t =
        let same = high_low_from-true zero_value zero_value t.candles in
        (
          choose (Le d) (λ c. c.high) _ (present t.candles)
              (λ x xs e.
                subst (IsChoice (Le d) (λ c. c.high) (x ∷ xs)) (sym (ap (λ p. p.0) (same x xs e)))
                  (max_of-IsChoice d o (λ c. c.high) x xs)),
          choose (λ a b. Le d b a) (λ c. c.low) _ (present t.candles)
              (λ x xs e.
                subst (IsChoice (λ a b. Le d b a) (λ c. c.low) (x ∷ xs))
                  (sym (ap (λ p. p.1) (same x xs e))) (min_of-IsChoice d o (λ c. c.low) x xs)),
        )

    -- A push keeps the statistics those of the candles in the ring.
    pub push_candle-IsTotal :
        (now : Time) (c : Candle Number) (t : Symbol24hStats Number)
        → IsTotal t
        → IsTotal (push_candle d now c t)
    unfolding push_candle recalculate_high_low
    push_candle-IsTotal now c t r =
        let inside : t.next_index < length t.candles = omega (arith, r.index_in, r.sized) in
        let u : Symbol24hStats Number = record t {
          candles = set t.candles t.next_index (some c);
        } in
        record {
          sized = length-set t.candles t.next_index (some c) ∙ r.sized;
          index_in = omega arith;
          volume_sum =
              sum-exchange s (λ x. x.volume) t.candles t.next_index c t.volume_24h inside
                r.volume_sum;
          quote_sum =
              sum-exchange s (λ x. x.quote_volume) t.candles t.next_index c t.quote_volume_24h
                inside r.quote_sum;
          highest = (recalculate_high_low-extremes u).0;
          lowest = (recalculate_high_low-extremes u).1;
        }
