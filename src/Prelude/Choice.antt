-- ===== src/Prelude/Choice.antt =====
-- A running choice over a list, such as a maximum, and sums of a field.
use Prim.Native.Nat.{ℕ, ◌+◌}
use mathlib.Core.Path.{◌≡◌, refl, ◌∙◌}
use mathlib.Core.Logic.{◌⊎◌, inl, inr}
use mathlib.Core.List.{List, [], ◌∷◌, map}
use nyyu_market.Prelude.Lists.{All}

-- Some entry satisfies the predicate.
abbrev pub AnyOf {ℓ} : {A : Type ℓ} → (A → Type 0) → List A → Type 0
AnyOf P [] = ⊥
AnyOf P (x ∷ xs) = P x ⊎ AnyOf P xs

abbrev pub last_of {ℓ} : {A : Type ℓ} → A → List A → A
last_of c [] = c
last_of c (x ∷ xs) = last_of x xs

abbrev pub count_of {ℓ} : {A : Type ℓ} → (A → ℕ) → List A → ℕ
count_of f [] = 0
count_of f (c ∷ cs) = f c + count_of f cs

-- The first value, replaced by what `op` makes of each new one.
unfoldable pub best {ℓ} : {A : Type ℓ} → (A → A → A) → A → List A → A
best op v [] = v
best op v (x ∷ xs) = best op (op x v) xs

-- `op` gives one of its two values, and one that both stand in the relation R to, as long as both
-- satisfy P, which it keeps.
abbrev pub Chooses : {A : Type 0} → (A → A → Type 0) → (A → Type 0) → (A → A → A) → Type 0
Chooses {A} R P op =
    (x v : A) → P x → P v → P (op x v) × R v (op x v) × R x (op x v) × ((op x v ≡ v) ⊎ (op x v ≡ x))

-- A choice `b` among values, which all stand in the relation R to it.
abbrev pub IsChoice : {A B : Type 0} → (A → A → Type 0) → (B → A) → List B → A → Type 0
IsChoice R f xs b = All (λ x. R (f x) b) xs × AnyOf (λ x. b ≡ f x) xs

module _ {A B : Type 0} (R : A → A → Type 0) (P : A → Type 0) (op : A → A → A) where
  module _ (R_refl : (a : A) → R a a) (R_trans : (a b c : A) → R a b → R b c → R a c)
      (chooses : Chooses R P op) (f : B → A) where
    best_from :
        (v : A) (xs : List B)
        → P v
        → All (λ x. P (f x)) xs
        → let b = best op v (map f xs) in
          R v b × All (λ x. R (f x) b) xs × ((b ≡ v) ⊎ AnyOf (λ x. b ≡ f x) xs)
    unfolding best
    best_from v [] p h = (R_refl v, tt, inl refl)
    best_from v (x ∷ xs) p h =
        let (q, old, new, which) = chooses (f x) v h.0 p in
        let (lo, all, hit) = best_from (op (f x) v) xs q h.1 in
        (R_trans _ _ _ old lo, (R_trans _ _ _ new lo, all), pick which hit)
      where
        pick :
            {b w : A}
            → (w ≡ v) ⊎ (w ≡ f x)
            → (b ≡ w) ⊎ AnyOf (λ y. b ≡ f y) xs
            → (b ≡ v) ⊎ ((b ≡ f x) ⊎ AnyOf (λ y. b ≡ f y) xs)
        pick (inl e) (inl g) = inl (g ∙ e)
        pick (inr e) (inl g) = inr (inl (g ∙ e))
        pick _ (inr a) = inr (inr a)

    -- The running choice over a list that is not empty.
    pub best-IsChoice :
        (x : B) (xs : List B)
        → P (f x)
        → All (λ y. P (f y)) xs
        → IsChoice R f (x ∷ xs) (best op (f x) (map f xs))
    best-IsChoice x xs p h = let (a, b, c) = best_from (f x) xs p h in ((a, b), c)
