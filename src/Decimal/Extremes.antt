-- ===== src/Decimal/Extremes.antt =====
-- Running extremes and sums of decimals, as the program's loops compute them.
use nyyu_market.Prelude.{
  List, [], ◌∷◌, map, false, ◌||◌, if◌then◌else◌, ◌≡◌, All, All-unit, arith, ◌∙◌,
}
use nyyu_market.Prelude.Choice.{best, Chooses, IsChoice, best-IsChoice}
use nyyu_market.Decimal.{Decimal, DecimalOrder, DecimalSums}

-- `a` is at most `b` as the comparisons see it.
abbrev pub Le : (d : Decimal) → d.Number → d.Number → Type 0
Le d a b = d.less_than b a ≡ false

-- The sum of a field over a list.
abbrev pub sum_of {ℓ} : {A : Type ℓ} (d : Decimal) → (A → d.Number) → List A → d.Number
sum_of d f [] = d.zero_value
sum_of d f (c ∷ cs) = d.add (f c) (sum_of d f cs)

module _ (d : Decimal) where
  abbrev pub max_of : d.Number → d.Number → d.Number
  max_of a b = if d.greater_than a b then a else b

  abbrev pub min_of : d.Number → d.Number → d.Number
  min_of a b = if d.less_than a b then a else b

  -- A minimum that takes a zero for "not set".
  abbrev pub set_min_of : d.Number → d.Number → d.Number
  set_min_of a b = if d.less_than a b || d.is_zero b then a else b

module _ (d : Decimal) (o : DecimalOrder d) where
  open d use {Number, is_zero}

  max_of-Chooses : Chooses (Le d) (λ _. Unit) (max_of d)
  max_of-Chooses a b _ _ = ground (
    arith,
    o.greater_than-less_than a b,
    o.le_of_lt b a,
    o.less_than_irrefl a,
    o.less_than_irrefl b,
  )

  min_of-Chooses : Chooses (λ a b. Le d b a) (λ _. Unit) (min_of d)
  min_of-Chooses a b _ _ =
      ground (arith, o.le_of_lt a b, o.less_than_irrefl a, o.less_than_irrefl b)

  set_min_of-Chooses : Chooses (λ a b. Le d b a) (λ a. is_zero a ≡ false) (set_min_of d)
  set_min_of-Chooses a b h k =
      ground (arith, o.le_of_lt a b, o.less_than_irrefl a, o.less_than_irrefl b)

  module _ {A : Type 0} (f : A → Number) (x : A) (xs : List A) where
    pub max_of-IsChoice : IsChoice (Le d) f (x ∷ xs) (best (max_of d) (f x) (map f xs))
    max_of-IsChoice =
        best-IsChoice (Le d) (λ _. Unit) (max_of d) o.less_than_irrefl o.le_trans max_of-Chooses f x
          xs tt (All-unit xs)

    pub min_of-IsChoice : IsChoice (λ a b. Le d b a) f (x ∷ xs) (best (min_of d) (f x) (map f xs))
    min_of-IsChoice =
        best-IsChoice (λ a b. Le d b a) (λ _. Unit) (min_of d) o.less_than_irrefl
          (λ a b c h k. o.le_trans c b a k h) min_of-Chooses f x xs tt (All-unit xs)

    pub set_min_of-IsChoice :
        is_zero (f x) ≡ false
        → All (λ y. is_zero (f y) ≡ false) xs
        → IsChoice (λ a b. Le d b a) f (x ∷ xs) (best (set_min_of d) (f x) (map f xs))
    set_min_of-IsChoice =
        best-IsChoice (λ a b. Le d b a) (λ a. is_zero a ≡ false) (set_min_of d) o.less_than_irrefl
          (λ a b c h k. o.le_trans c b a k h) set_min_of-Chooses f x xs

module _ (d : Decimal) (s : DecimalSums d) where
  pub add-zero : (a : d.Number) → d.add a d.zero_value ≡ a
  add-zero a = s.add_comm a d.zero_value ∙ s.zero-add a
