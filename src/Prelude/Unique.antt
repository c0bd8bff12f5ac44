-- ===== src/Prelude/Unique.antt =====
-- Maps in which no key stands twice, and rearrangements of them.
use mathlib.Core.List.{Permᴰ}
use mathlib.Core.Path.{◌≡◌, refl, sym, subst, subst₂, ◌∙◌, ap₂}
use mathlib.Core.Logic.{inl, inr}
use mathlib.Core.Option.{none, some}
use mathlib.Core.List.{List, [], ◌∷◌}
use native.Mathlib.Omega.{arith}
use nyyu_market.Prelude.Choice.{AnyOf}
use nyyu_market.Prelude.Lists.{All}
use nyyu_market.Prelude.Tests.{Bool-cases}
use nyyu_market.Prelude.Maps.{Key, load, store, delete, key_eq_refl, load-store_ne, load-delete_ne}

module _ {K : Type 0} ⦃e : Key K⦄ {V : Type 0} where
  abbrev pub Unique : List (K × V) → Type 0
  Unique [] = Unit
  Unique ((k, v) ∷ m) = (load k m ≡ none) × Unique m

  pub Unique-store : (k : K) (v : V) (m : List (K × V)) → Unique m → Unique (store k v m)
  unfolding load store
  Unique-store k v [] u = (refl, tt)
  Unique-store k v ((j, w) ∷ m) u = elim (Bool-cases (e.key_eq j k)) [
    | inl s ↦ rw s u
    | inr n ↦ rw n (
      load-store_ne k j v m (λ q. ground (arith, e.key_eq_iff j k)) ∙ u.0,
      Unique-store k v m u.1,
    )
  ]

  pub Unique-delete : (k : K) (m : List (K × V)) → Unique m → Unique (delete k m)
  unfolding delete
  Unique-delete k [] u = tt
  Unique-delete k ((j, w) ∷ m) u = elim (Bool-cases (e.key_eq j k)) [
    | inl s ↦ rw s (Unique-delete k m u.1)
    | inr n ↦
        rw n (
          load-delete_ne k j m (λ q. ground (arith, e.key_eq_iff j k)) ∙ u.0,
          Unique-delete k m u.1,
        )
  ]

  load-cons :
      (a : K × V) (l l' : List (K × V)) (k : K)
      → load k l ≡ load k l'
      → load k (a ∷ l) ≡ load k (a ∷ l')
  unfolding load
  load-cons (j, v) l l' k h = ground arith

  load-swap :
      (a b : K × V) (l : List (K × V)) (k : K)
      → load a.0 (b ∷ l) ≡ none
      → load k (a ∷ b ∷ l) ≡ load k (b ∷ a ∷ l)
  unfolding load
  load-swap (i, v) (j, w) l k h =
      ground (arith, e.key_eq_iff i k, e.key_eq_iff j k, e.key_eq_iff j i)

  Unique-swap : (a b : K × V) (l : List (K × V)) → Unique (a ∷ b ∷ l) → Unique (b ∷ a ∷ l)
  unfolding load
  Unique-swap (i, v) (j, w) l u =
      (ground (arith, u.0, u.1.0, e.key_eq_iff i j, e.key_eq_iff j i), (ground (arith, u.0), u.1.1))

  -- A rearrangement keeps keys unique and finds the same values.
  pub Unique-permᴰ :
      {m n : List (K × V)} → Permᴰ m n → Unique m → Unique n × ((k : K) → load k m ≡ load k n)
  Unique-permᴰ Permᴰ.nil u = (tt, λ k. refl)
  Unique-permᴰ (Permᴰ.cons {a = a} {b = b} {l₁ = l} {l₂ = l'} p h) u =
      let (v, f) = Unique-permᴰ h u.1 in
      subst (λ c. Unique (c ∷ l') × ((k : K) → load k (a ∷ l) ≡ load k (c ∷ l'))) p
        ((sym (f a.0) ∙ u.0, v), λ k. load-cons a l l' k (f k))
  Unique-permᴰ (Permᴰ.swap {a = a} {b = b} {l = l} p q) u =
      subst₂ (λ c c'. Unique (c' ∷ c ∷ l) × ((k : K) → load k (a ∷ b ∷ l) ≡ load k (c' ∷ c ∷ l))) p
        q (Unique-swap a b l u, λ k. load-swap a b l k u.0)
  Unique-permᴰ (Permᴰ.trans h g) u =
      let (u', f) = Unique-permᴰ h u in let (u'', f') = Unique-permᴰ g u' in (u'', λ k. f k ∙ f' k)

  -- The entry that is found.
  pub load-AnyOf :
      (k : K) (v : V) (m : List (K × V)) → load k m ≡ some v → AnyOf (λ x. x ≡ (k, v)) m
  unfolding load
  load-AnyOf k v [] h = absurd (cc)
  load-AnyOf k v ((j, w) ∷ m) h = elim (Bool-cases (e.key_eq j k)) [
    | inl s ↦ inl (ap₂ (λ x y. (x, y)) ((e.key_eq_iff j k).0 s) (ground (arith, h, s)))
    | inr n ↦ inr (load-AnyOf k v m (ground (arith, h, n)))
  ]

  -- What holds of all that is found holds of every entry.
  pub All-loads :
      (P : K → V → Type 0) (m : List (K × V))
      → ((k : K) (v : V) → load k m ≡ some v → P k v)
      → Unique m
      → All (λ x. P x.0 x.1) m
  unfolding load
  All-loads P [] f u = tt
  All-loads P ((j, w) ∷ m) f u = (
    f j w (rw (key_eq_refl j) refl),
    All-loads P m
        (λ k v h. f k v (elim (Bool-cases (e.key_eq j k)) [
          | inl s ↦ absurd (ground (arith, u.0, h, (e.key_eq_iff j k).0 s))
          | inr n ↦ rw n h
        ]))
        u.1,
  )

module _ {A : Type 0} (P : A → Type 0) where
  pub AnyOf-permᴰ : {xs ys : List A} → Permᴰ xs ys → AnyOf P xs → AnyOf P ys
  AnyOf-permᴰ Permᴰ.nil h = h
  AnyOf-permᴰ (Permᴰ.cons p q) (inl h) = inl (subst P p h)
  AnyOf-permᴰ (Permᴰ.cons p q) (inr h) = inr (AnyOf-permᴰ q h)
  AnyOf-permᴰ (Permᴰ.swap p q) (inl h) = inr (inl (subst P p h))
  AnyOf-permᴰ (Permᴰ.swap p q) (inr (inl h)) = inl (subst P q h)
  AnyOf-permᴰ (Permᴰ.swap p q) (inr (inr h)) = inr (inr h)
  AnyOf-permᴰ (Permᴰ.trans p q) h = AnyOf-permᴰ q (AnyOf-permᴰ p h)

  pub All-permᴰ : {xs ys : List A} → Permᴰ xs ys → All P xs → All P ys
  All-permᴰ Permᴰ.nil h = h
  All-permᴰ (Permᴰ.cons p q) h = (subst P p h.0, All-permᴰ q h.1)
  All-permᴰ (Permᴰ.swap p q) h = (subst P q h.1.0, (subst P p h.0, h.1.1))
  All-permᴰ (Permᴰ.trans p q) h = All-permᴰ q (All-permᴰ p h)
