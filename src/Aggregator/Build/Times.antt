-- ===== src/Aggregator/Build/Times.antt =====
-- The insertion sort of the open times.
use mathlib.Core.List.{reverse, reverse-cons, Perm, Permᴰ, perm_middle, reverse_perm, append-nil}
use mathlib.Core.List.Perm
use mathlib.Core.Logic.{∥∥₁_elim}
use nyyu_market.Prelude.{
  ℕ, ◌≤◌, ◌≡◌, refl, ap, sym, subst, ◌∙◌, List, [], ◌∷◌, ◌++◌, All, All-append, All-map, ltb,
  if◌then◌else◌, arith, Bool-cases, inl, inr,
}

-- The inner loop: `key` moves down past the larger entries of the sorted prefix, which is held here
-- with its last entry first.
shift : ℕ → List ℕ → List ℕ
shift key [] = key ∷ []
shift key (x ∷ p) = let rest = shift key p in if ltb key x then x ∷ rest else key ∷ x ∷ p

-- The outer loop, over the entries behind the prefix.
sort_from : List ℕ → List ℕ → List ℕ
sort_from p [] = p
sort_from p (k ∷ ks) = sort_from (shift k p) ks

unfoldable pub sort_times : List ℕ → List ℕ
unfolding shift sort_from
sort_times [] = []
sort_times (k ∷ ks) = reverse (sort_from (k ∷ []) ks)

sort_times_eq : (ks : List ℕ) → sort_times ks ≡ reverse (sort_from [] ks)
unfolding sort_times
sort_times_eq [] = refl
sort_times_eq (k ∷ ks) = refl

-- Two keys go in with one result, whichever is first.
shift_comm : (a b : ℕ) (p : List ℕ) → shift a (shift b p) ≡ shift b (shift a p)
unfolding shift
shift_comm a b [] = ground arith
shift_comm a b (x ∷ p) = ground (arith, shift_comm a b p)

List_ℕ-set : IsSet (List ℕ)
List_ℕ-set = hlevel

sort_from-permᴰ : {ks ls : List ℕ} → Permᴰ ks ls → (p : List ℕ) → sort_from p ks ≡ sort_from p ls
unfolding sort_from
sort_from-permᴰ Permᴰ.nil p = refl
sort_from-permᴰ (Permᴰ.cons {b = b} e h) p = rw e (sort_from-permᴰ h (shift b p))
sort_from-permᴰ (Permᴰ.swap {a = a} {b = b} {l = l} e f) p =
    rw (← e, ← f) (ap (λ q. sort_from q l) (shift_comm b a p))
sort_from-permᴰ (Permᴰ.trans h k) p = sort_from-permᴰ h p ∙ sort_from-permᴰ k p

-- The result does not depend on the order in which the map was read.
pub sort_times-perm : {ks ls : List ℕ} → Perm ks ls → sort_times ks ≡ sort_times ls
sort_times-perm {ks} {ls} h =
    ∥∥₁_elim h (List_ℕ-set _ _)
      λ p. sort_times_eq ks ∙ ap reverse (sort_from-permᴰ p []) ∙ sym (sort_times_eq ls)

-- Each entry bounds those behind it.
abbrev pub Ascending : List ℕ → Type 0
Ascending [] = Unit
Ascending (x ∷ p) = All (λ y. x ≤ y) p × Ascending p

abbrev Descending : List ℕ → Type 0
Descending [] = Unit
Descending (x ∷ p) = All (λ y. y ≤ x) p × Descending p

module _ {κ} (P : ℕ → Type κ) where
  All-shift : (k : ℕ) (p : List ℕ) → P k → All P p → All P (shift k p)
  unfolding shift
  All-shift k [] h a = (h, tt)
  All-shift k (x ∷ p) h a = elim (Bool-cases (ltb k x)) [
    | inl e ↦ rw e (a.0, All-shift k p h a.1)
    | inr e ↦ rw e (h, a)
  ]

  All-sort_from : (p ks : List ℕ) → All P p → All P ks → All P (sort_from p ks)
  unfolding sort_from
  All-sort_from p [] h a = h
  All-sort_from p (k ∷ ks) h a = All-sort_from (shift k p) ks (All-shift k p a.0 h) a.1

  All-reverse : (p : List ℕ) → All P p → All P (reverse p)
  All-reverse [] a = tt
  All-reverse (x ∷ p) a =
      rw (reverse-cons x p) (All-append P (reverse p) (x ∷ []) (All-reverse p a.1) (a.0, tt))

Descending-shift : (k : ℕ) (p : List ℕ) → Descending p → Descending (shift k p)
unfolding shift
Descending-shift k [] h = (tt, tt)
Descending-shift k (x ∷ p) h = elim (Bool-cases (ltb k x)) [
  | inl e ↦ rw e (All-shift (λ y. y ≤ x) k p (ground arith) h.0, Descending-shift k p h.1)
  | inr e ↦ rw e ((ground arith, All-map (λ y le. ground arith) p h.0), h)
]

Descending-sort_from : (p ks : List ℕ) → Descending p → Descending (sort_from p ks)
unfolding sort_from
Descending-sort_from p [] h = h
Descending-sort_from p (k ∷ ks) h = Descending-sort_from (shift k p) ks (Descending-shift k p h)

Ascending-snoc : (p : List ℕ) (x : ℕ) → Ascending p → All (λ y. y ≤ x) p → Ascending (p ++ (x ∷ []))
Ascending-snoc [] x h a = (tt, tt)
Ascending-snoc (y ∷ p) x h a =
    (All-append (λ z. y ≤ z) p (x ∷ []) h.0 (a.0, tt), Ascending-snoc p x h.1 a.1)

Ascending-reverse : (p : List ℕ) → Descending p → Ascending (reverse p)
Ascending-reverse [] h = tt
Ascending-reverse (x ∷ p) h =
    rw (reverse-cons x p)
      (Ascending-snoc (reverse p) x (Ascending-reverse p h.1) (All-reverse (λ y. y ≤ x) p h.0))

pub sort_times-Ascending : (ks : List ℕ) → Ascending (sort_times ks)
sort_times-Ascending ks =
    rw (sort_times_eq ks) (Ascending-reverse (sort_from [] ks) (Descending-sort_from [] ks tt))

module _ {κ} (P : ℕ → Type κ) (ks : List ℕ) where
  pub All-sort_times : All P ks → All P (sort_times ks)
  All-sort_times a =
      rw (sort_times_eq ks) (All-reverse P (sort_from [] ks) (All-sort_from P [] ks tt a))

shift-perm : (k : ℕ) (p : List ℕ) → Perm (shift k p) (k ∷ p)
unfolding shift
shift-perm k [] = Perm.refl (k ∷ [])
shift-perm k (x ∷ p) = elim (Bool-cases (ltb k x)) [
  | inl e ↦ rw e (Perm.trans (Perm.cons x (shift-perm k p)) (Perm.swap k x p))
  | inr e ↦ rw e (Perm.refl (k ∷ x ∷ p))
]

sort_from-perm : (p ks : List ℕ) → Perm (sort_from p ks) (ks ++ p)
unfolding sort_from
sort_from-perm p [] = Perm.refl p
sort_from-perm p (k ∷ ks) =
    Perm.trans (sort_from-perm (shift k p) ks)
      (Perm.trans (Perm.append_left ks (shift-perm k p)) (perm_middle ks p))

-- The sorted times are a rearrangement of the keys.
pub sort_times_perm_self : (ks : List ℕ) → Perm (sort_times ks) ks
sort_times_perm_self ks = rw (sort_times_eq ks) (
    Perm.trans (reverse_perm (sort_from [] ks))
      (subst (Perm (sort_from [] ks)) (append-nil ks) (sort_from-perm [] ks)))
