-- ===== src/Aggregator/Build/Order.antt =====
-- The candle built does not depend on the order in which Go reads the map of 1m candles, and sums
-- up those candles in the order of time.
use mathlib.Core.List.{Perm, Permᴰ, filter_map}
use mathlib.Core.List.Perm
use nyyu_market.Prelude.{
  ℕ, List, [], ◌∷◌, map, Option, none, some, ◌≡◌, ◌≢◌, refl, sym, ap, subst, ◌∙◌, All, All-map,
  arith, Bool-cases, inl, inr, false, ◌==◌,
}
use nyyu_market.Prelude.Maps.{load, nat_key, All-load}
use nyyu_market.Prelude.Unique.{Unique, Unique-permᴰ}
use nyyu_market.Decimal.{Decimal, DecimalOrder, DecimalSums}
use nyyu_market.Models.Candle.{Candle}
use nyyu_market.Time.{unix}
use nyyu_market.Aggregator.Build.Times.{
  sort_times, sort_times-perm, sort_times-Ascending, Ascending, All-sort_times,
  sort_times_perm_self,
}
use nyyu_market.Aggregator.Build.Loop.{Totals, candles_at, totals, building_totals}
use nyyu_market.Aggregator.Build.Summary.{IsSummary, totals-IsSummary}

abbrev keys {ℓ} : {A : Type ℓ} → List (ℕ × A) → List ℕ
keys = map (λ e. e.0)

abbrev pub values {ℓ} : {A : Type ℓ} → List (ℕ × A) → List A
values = map (λ e. e.1)

module _ {A : Type 0} where
  candles_at_congr :
      (ts : List ℕ) (m n : List (ℕ × A))
      → ((k : ℕ) → load k m ≡ load k n)
      → candles_at ts m ≡ candles_at ts n
  unfolding candles_at
  candles_at_congr [] m n h = refl
  candles_at_congr (t ∷ ts) m n h = ground (arith, h t, candles_at_congr ts m n h)

  candles_at_eq : (ts : List ℕ) (m : List (ℕ × A)) → candles_at ts m ≡ filter_map (λ t. load t m) ts
  unfolding candles_at filter_map
  candles_at_eq [] m = refl
  candles_at_eq (t ∷ ts) m = ground (arith, candles_at_eq ts m)

  candles_at-perm :
      {ts us : List ℕ} (m : List (ℕ × A)) → Perm ts us → Perm (candles_at ts m) (candles_at us m)
  candles_at-perm {ts} {us} m p =
      rw (candles_at_eq ts m, candles_at_eq us m) (Perm.filter_map (λ t. load t m) p)

  candles_at-fresh :
      (ts : List ℕ) (k : ℕ) (v : A) (m : List (ℕ × A))
      → All (λ t. k ≢ t) ts
      → candles_at ts ((k, v) ∷ m) ≡ candles_at ts m
  unfolding candles_at load
  candles_at-fresh [] k v m h = refl
  candles_at-fresh (t ∷ ts) k v m h = ground (arith, h.0, candles_at-fresh ts k v m h.1)

  fresh_keys : (k : ℕ) (m : List (ℕ × A)) → load k m ≡ none → All (λ t. k ≢ t) (keys m)
  unfolding load
  fresh_keys k [] h = tt
  fresh_keys k ((j, v) ∷ m) h = (λ e. ground arith, fresh_keys k m (ground arith))

  candles_at-keys : (m : List (ℕ × A)) → Unique m → candles_at (keys m) m ≡ values m
  unfolding candles_at load
  candles_at-keys [] u = refl
  candles_at-keys ((k, v) ∷ m) u =
      ground (arith, candles_at-fresh (keys m) k v m (fresh_keys k m u.0), candles_at-keys m u.1)

  -- Each key finds its value.
  abbrev Loads : List (ℕ × A) → ℕ → Type 0
  Loads m t = (v : A) × (load t m ≡ some v)

  Loads-cons : (k : ℕ) (v : A) (m : List (ℕ × A)) (t : ℕ) → Loads m t → Loads ((k, v) ∷ m) t
  unfolding load
  Loads-cons k v m t (w, h) = elim (Bool-cases (k == t)) [ inl s ↦ (v, rw s) | inr n ↦ (w, rw n h) ]

  keys-Loads : (m : List (ℕ × A)) → All (Loads m) (keys m)
  keys-Loads [] = tt
  keys-Loads ((k, v) ∷ m) =
      ((v, unfold load in ground arith), All-map (Loads-cons k v m) (keys m) (keys-Loads m))

  -- The times of the candles found are the times that were looked up.
  times_eq :
      (f : A → ℕ) (ts : List ℕ) (m : List (ℕ × A))
      → All (λ e. e.0 ≡ f e.1) m
      → All (Loads m) ts
      → map f (candles_at ts m) ≡ ts
  unfolding candles_at
  times_eq f [] m h l = refl
  times_eq f (t ∷ ts) m h ((v, e), l) =
      ground (arith, e, times_eq f ts m h l, All-load (λ (e : ℕ × A). e.0 ≡ f e.1) t {v = v} m h e)

  All-found :
      (P : A → Type 0) (o : Option A) (r : List A)
      → ((v : A) → o ≡ some v → P v)
      → All P r
      → All P (elim o [ none ↦ r | some c ↦ c ∷ r ])
  All-found P none r f h = h
  All-found P (some c) r f h = (f c refl, h)

  All-candles_at :
      (P : A → Type 0) (ts : List ℕ) (m : List (ℕ × A))
      → All (λ e. P e.1) m
      → All P (candles_at ts m)
  unfolding candles_at
  All-candles_at P [] m h = tt
  All-candles_at P (t ∷ ts) m h =
      All-found P (load t m) (candles_at ts m) (λ v e. All-load (λ e. P e.1) t m h e)
        (All-candles_at P ts m h)

-- Two arrangements of the entries of one map, in which each key stands once, give the same totals.
pub building_totals-permᴰ :
    (d : Decimal) {m n : List (ℕ × Candle d.Number)}
    → Permᴰ m n
    → Unique m
    → building_totals d m ≡ building_totals d n
unfolding building_totals
building_totals-permᴰ d {m} {n} h u =
    let same = (Unique-permᴰ h u).1 in
    ap (totals d) (
      ap (λ ts. candles_at ts m) (sort_times-perm (Perm.map (λ e. e.0) ∣ h ∣₁))
      ∙ candles_at_congr (sort_times (keys n)) m n same)

module _ (d : Decimal) (o : DecimalOrder d) (s : DecimalSums d) where
  -- The candles that the values of a map are, in the order of time, and what the totals say of them.
  abbrev pub SumsUp : List (Candle d.Number) → Totals d.Number → Type 0
  SumsUp vs t =
      (c : Candle d.Number) × (cs : List (Candle d.Number)) × Perm (c ∷ cs) vs
      × Ascending (map (λ x. unix x.open_time) (c ∷ cs))
      × IsSummary d c cs t

  summary_of :
      (cs : List (Candle d.Number)) (v : Candle d.Number) (vs : List (Candle d.Number))
      → Perm cs (v ∷ vs)
      → Ascending (map (λ x. unix x.open_time) cs)
      → All (λ x. d.is_zero x.low ≡ false) cs
      → SumsUp (v ∷ vs) (totals d cs)
  summary_of [] v vs p a z = absurd (cc (Perm.nil-eq p))
  summary_of (c ∷ cs) v vs p a z = (c, cs, p, a, totals-IsSummary d o s c cs z)

  -- By the laws of decimal sums and order, for a map of 1m candles that is not empty, in which
  -- each key stands once and is the open time of its candle, and no low is zero: the totals are
  -- those of these candles in the order of time, that is first open, last close, highest high,
  -- lowest low, and the sums of volumes and trades.
  pub building_summary :
      (e : ℕ × Candle d.Number) (m : List (ℕ × Candle d.Number))
      → Unique (e ∷ m)
      → All (λ x. x.0 ≡ unix x.1.open_time) (e ∷ m)
      → All (λ x. d.is_zero x.1.low ≡ false) (e ∷ m)
      → SumsUp (values (e ∷ m)) (building_totals d (e ∷ m))
  unfolding building_totals
  building_summary e m u t z =
      let ts = sort_times (keys (e ∷ m)) in
      summary_of (candles_at ts (e ∷ m)) e.1 (values m)
        (subst (Perm (candles_at ts (e ∷ m))) (candles_at-keys (e ∷ m) u)
          (candles_at-perm (e ∷ m) (sort_times_perm_self (keys (e ∷ m)))))
        (subst Ascending
          (sym (
            times_eq (λ x. unix x.open_time) ts (e ∷ m) t
              (All-sort_times (Loads (e ∷ m)) (keys (e ∷ m)) (keys-Loads (e ∷ m)))))
          (sort_times-Ascending (keys (e ∷ m))))
        (All-candles_at (λ x. d.is_zero x.low ≡ false) ts (e ∷ m) z)
