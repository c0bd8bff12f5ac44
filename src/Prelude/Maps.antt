-- ===== src/Prelude/Maps.antt =====
-- Go maps and `sync.Map` as association lists with byte keys or number keys. The order of the list
-- stands for the order in which one `Range` meets the entries.
use Prim.Native.Nat.{ℕ}
use mathlib.Core.Path.{◌≡◌, refl, sym, subst, subst₂}
use mathlib.Core.Logic.{◌≢◌, ◌↔◌, inl, inr}
use mathlib.Core.Bool.{Bool, true}
use mathlib.Core.Option.{Option, none, some}
use mathlib.Core.List.{List, [], ◌∷◌}
use native.Mathlib.Omega.{arith}
use nyyu_market.Prelude.Lists.{All}
use nyyu_market.Prelude.Tests.{◌==◌, ==_iff, if◌then◌else◌, Bool-cases}
use nyyu_market.Prelude.Text.{Bytes, bytes_eq, bytes_eq_refl, eq_of_bytes_eq}

-- What a key type offers.
pub record Key (K : Type 0) : Type 0 where
  pub key_eq : K → K → Bool
  pub key_eq_iff : (j k : K) → (key_eq j k ≡ true) ↔ (j ≡ k)

pub bytes_eq_iff : (s t : Bytes) → (bytes_eq s t ≡ true) ↔ (s ≡ t)
bytes_eq_iff s t = (eq_of_bytes_eq s t, λ e. rw e (bytes_eq_refl t))

instance abbrev pub bytes_key : Key Bytes
bytes_key = record { key_eq = bytes_eq; key_eq_iff = bytes_eq_iff }

instance abbrev pub nat_key : Key ℕ
nat_key = record { key_eq = ◌==◌; key_eq_iff = ==_iff }

pub key_eq_refl : {K : Type 0} ⦃e : Key K⦄ (k : K) → e.key_eq k k ≡ true
key_eq_refl ⦃e⦄ k = (e.key_eq_iff k k).1 refl

module _ {K : Type 0} ⦃e : Key K⦄ {V : Type 0} where
  unfoldable pub load : K → List (K × V) → Option V
  load k [] = none
  load k ((j, v) ∷ m) = if e.key_eq j k then some v else load k m

  -- A new key goes to the end; an old one keeps its place.
  unfoldable pub store : K → V → List (K × V) → List (K × V)
  store k v [] = (k, v) ∷ []
  store k v ((j, w) ∷ m) = if e.key_eq j k then (j, v) ∷ m else (j, w) ∷ store k v m

  unfoldable pub delete : K → List (K × V) → List (K × V)
  delete k [] = []
  delete k ((j, w) ∷ m) = if e.key_eq j k then delete k m else (j, w) ∷ delete k m

  pub load-store_self : (k : K) (v : V) (m : List (K × V)) → load k (store k v m) ≡ some v
  unfolding load store
  load-store_self k v [] = rw key_eq_refl
  load-store_self k v ((j, w) ∷ m) = ground (arith, key_eq_refl j, load-store_self k v m)

  pub load-store_ne : (k j : K) (v : V) (m : List (K × V)) → k ≢ j → load j (store k v m) ≡ load j m
  unfolding load store
  load-store_ne k j v [] h = ground (arith, e.key_eq_iff k j)
  load-store_ne k j v ((i, w) ∷ m) h =
      ground (arith, e.key_eq_iff i k, e.key_eq_iff i j, load-store_ne k j v m h)

  pub load-delete_self : (k : K) (m : List (K × V)) → load k (delete k m) ≡ none
  unfolding load delete
  load-delete_self k [] = refl
  load-delete_self k ((j, w) ∷ m) = ground (arith, load-delete_self k m)

  pub load-delete_ne : (k j : K) (m : List (K × V)) → k ≢ j → load j (delete k m) ≡ load j m
  unfolding load delete
  load-delete_ne k j [] h = refl
  load-delete_ne k j ((i, w) ∷ m) h =
      ground (arith, e.key_eq_iff i k, e.key_eq_iff i j, load-delete_ne k j m h)

  -- The same laws by the test that the map makes.
  pub load-store :
      (k j : K) (v : V) (m : List (K × V))
      → load j (store k v m) ≡ (if e.key_eq k j then some v else load j m)
  load-store k j v m = elim (Bool-cases (e.key_eq k j)) [
    | inl s ↦ rw (s, ← (e.key_eq_iff k j).0 s) (load-store_self k v m)
    | inr n ↦ rw n (load-store_ne k j v m (λ q. ground (arith, e.key_eq_iff k j)))
  ]

  pub load-delete :
      (k j : K) (m : List (K × V)) → load j (delete k m) ≡ (if e.key_eq k j then none else load j m)
  load-delete k j m = elim (Bool-cases (e.key_eq k j)) [
    | inl s ↦ rw (s, ← (e.key_eq_iff k j).0 s) (load-delete_self k m)
    | inr n ↦ rw n (load-delete_ne k j m (λ q. ground (arith, e.key_eq_iff k j)))
  ]

  -- What holds of every entry holds of the entry that is found, and survives each operation.
  module _ {κ} (P : K × V → Type κ) where
    pub All-load : (k : K) {v : V} (m : List (K × V)) → All P m → load k m ≡ some v → P (k, v)
    unfolding load
    All-load k [] h q = cc
    All-load k {v} ((j, w) ∷ m) h q = elim (Bool-cases (e.key_eq j k)) [
      | inl s ↦ subst₂ (λ x y. P (x, y)) ((e.key_eq_iff j k).0 s) (ground arith) h.0
      | inr n ↦ All-load k m h.1 (ground arith)
    ]

    pub All-store : (k : K) (v : V) (m : List (K × V)) → P (k, v) → All P m → All P (store k v m)
    unfolding store
    All-store k v [] p h = (p, tt)
    All-store k v ((j, w) ∷ m) p h = elim (Bool-cases (e.key_eq j k)) [
      | inl s ↦ rw s (subst (λ x. P (x, v)) (sym ((e.key_eq_iff j k).0 s)) p, h.1)
      | inr n ↦ rw n (h.0, All-store k v m p h.1)
    ]

    pub All-delete : (k : K) (m : List (K × V)) → All P m → All P (delete k m)
    unfolding delete
    All-delete k [] h = tt
    All-delete k ((j, w) ∷ m) h = elim (Bool-cases (e.key_eq j k)) [
      | inl s ↦ rw s (All-delete k m h.1)
      | inr n ↦ rw n (h.0, All-delete k m h.1)
    ]
