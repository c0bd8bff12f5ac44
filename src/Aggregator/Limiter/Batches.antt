-- ===== src/Aggregator/Limiter/Batches.antt =====
-- The batcher holds one request for a key, never a full batch, and loses no request but for one of
-- the same key with a priority as high.
use nyyu_market.Prelude.{
  ℕ, ◌≤◌, ◌<◌, List, [], ◌∷◌, ◌++◌, map, Bool, true, false, Option, none, some, if◌then◌else◌, ltb,
  leb, ◌==◌, length, ◌≡◌, ◌⊎◌, inl, inr, refl, arith, Bool-cases, All,
}
use nyyu_market.Prelude.Text.{Bytes}
use nyyu_market.Prelude.Choice.{AnyOf}
use nyyu_market.Prelude.Maps.{load, store, bytes_key, load-store_self, All-store}
use nyyu_market.Prelude.Unique.{Unique, Unique-store}
use nyyu_market.Aggregator.Limiter.{
  SubscriptionRequest, SubscriptionBatcher, new_subscription_batcher, request_key, flush, add_to,
  add,
}

length-store_old :
    {V : Type 0} (k : Bytes) (v w : V) (m : List (Bytes × V))
    → load k m ≡ some w
    → length (store k v m) ≡ length m
unfolding load store
length-store_old k v w [] h = cc
length-store_old k v w ((j, u) ∷ m) h = ground (arith, length-store_old k v w m)

-- One request for a key, each under its own, and room for one more.
pub record IsReady (b : SubscriptionBatcher) : Type 0 where
  pub unique : Unique b.requests
  pub keyed : All (λ e. e.0 ≡ request_key e.1) b.requests
  pub not_full : length b.requests < b.max_batch_size

flush-IsReady :
    (b : SubscriptionBatcher)
    → Unique b.requests
    → All (λ e. e.0 ≡ request_key e.1) b.requests
    → 0 < b.max_batch_size
    → IsReady (flush b)
unfolding flush
flush-IsReady b u k h = elim (Bool-cases (length b.requests == 0)) [
  | inl y ↦ rw y record { unique = u; keyed = k; not_full = ground arith }
  | inr n ↦ rw n record { unique = tt; keyed = tt; not_full = h }
]

if-IsReady :
    (t : Bool) (b b' : SubscriptionBatcher)
    → (t ≡ true → IsReady b)
    → (t ≡ false → IsReady b')
    → IsReady (if t then b else b')
if-IsReady true b b' h k = h refl
if-IsReady false b b' h k = k refl

add_to-IsReady :
    (req : SubscriptionRequest) (b : SubscriptionBatcher) (o : Option SubscriptionRequest)
    → load (request_key req) b.requests ≡ o
    → IsReady b
    → IsReady (add_to req b o)
add_to-IsReady req b (some old) e w =
    if-IsReady (ltb old.priority req.priority) _ _
      (λ _. record {
        unique = Unique-store (request_key req) req b.requests w.unique;
        keyed =
            All-store (λ e. e.0 ≡ request_key e.1) (request_key req) req b.requests refl w.keyed;
        not_full =
            omega (arith, w.not_full, length-store_old (request_key req) req old b.requests e);
      })
      (λ _. w)
add_to-IsReady req b none e w =
    let u = Unique-store (request_key req) req b.requests w.unique in
    let k = All-store (λ e. e.0 ≡ request_key e.1) (request_key req) req b.requests refl w.keyed in
    if-IsReady (leb b.max_batch_size (length (store (request_key req) req b.requests))) _ _
      (λ _. flush-IsReady _ u k (omega (arith, w.not_full)))
      (λ n. record { unique = u; keyed = k; not_full = ground (arith, n) })

abbrev pub add_all : List SubscriptionRequest → SubscriptionBatcher → SubscriptionBatcher
add_all [] b = b
add_all (req ∷ reqs) b = add_all reqs (add req b)

add_all-from :
    (reqs : List SubscriptionRequest) (b : SubscriptionBatcher)
    → IsReady b
    → IsReady (add_all reqs b)
unfolding add
add_all-from [] b w = w
add_all-from (req ∷ reqs) b w = add_all-from reqs (add req b) (add_to-IsReady req b _ refl w)

-- After any requests, a batcher whose maximum is not zero waits with fewer requests than that, one
-- for a key and each under its own.
pub add_all-IsReady :
    (max_size : ℕ) (reqs : List SubscriptionRequest)
    → 0 < max_size
    → IsReady (add_all reqs (new_subscription_batcher max_size))
unfolding new_subscription_batcher
add_all-IsReady max_size reqs h =
    add_all-from reqs (new_subscription_batcher max_size)
      record { unique = tt; keyed = tt; not_full = h }

-- A request that waits, or that a callback was started with.
abbrev pub Held : SubscriptionRequest → SubscriptionBatcher → Type 0
Held req b =
    (load (request_key req) b.requests ≡ some req)
    ⊎ AnyOf (λ batch. AnyOf (λ r. r ≡ req) batch) b.flushed

AnyOf-append :
    {A : Type 0} (P : A → Type 0) (xs ys : List A) → AnyOf P xs ⊎ AnyOf P ys → AnyOf P (xs ++ ys)
AnyOf-append P [] ys (inl h) = elim h [ ]
AnyOf-append P [] ys (inr h) = h
AnyOf-append P (x ∷ xs) ys (inl (inl h)) = inl h
AnyOf-append P (x ∷ xs) ys (inl (inr h)) = inr (AnyOf-append P xs ys (inl h))
AnyOf-append P (x ∷ xs) ys (inr h) = inr (AnyOf-append P xs ys (inr h))

AnyOf-values :
    {V : Type 0} (k : Bytes) (v : V) (m : List (Bytes × V))
    → load k m ≡ some v
    → AnyOf (λ w. w ≡ v) (map (λ e. e.1) m)
unfolding load
AnyOf-values k v [] h = cc
AnyOf-values k v ((j, w) ∷ m) h = elim (Bool-cases (bytes_key.key_eq j k)) [
  | inl y ↦ inl (ground arith)
  | inr n ↦ inr (AnyOf-values k v m (ground arith))
]

load-filled :
    {V : Type 0} (k : Bytes) (v : V) (m : List (Bytes × V)) → load k m ≡ some v → 0 < length m
unfolding load
load-filled k v [] h = cc
load-filled k v ((j, w) ∷ m) h = omega arith

-- `Flush` hands on every request that waits, and forgets none that a callback was started with.
pub flush-Held :
    (req : SubscriptionRequest) (b : SubscriptionBatcher)
    → Held req b
    → AnyOf (λ batch. AnyOf (λ r. r ≡ req) batch) (flush b).flushed
unfolding flush
flush-Held req b h = elim (Bool-cases (length b.requests == 0)) [
  | inl y ↦ rw y (elim h [
    | inl waits ↦ absurd (ground (arith, y, load-filled (request_key req) req b.requests waits))
    | inr gone ↦ gone
  ])
  | inr n ↦ rw n (
      AnyOf-append (λ batch. AnyOf (λ r. r ≡ req) batch) b.flushed (map (λ e. e.1) b.requests ∷ [])
        (elim h [
          | inl waits ↦ inr (inl (AnyOf-values (request_key req) req b.requests waits))
          | inr gone ↦ inl gone
        ]))
]

Held-if :
    (req : SubscriptionRequest) (t : Bool) (b : SubscriptionBatcher)
    → Held req b
    → Held req (if t then flush b else b)
Held-if req true b h = inr (flush-Held req b h)
Held-if req false b h = h

add_to-Held :
    (req : SubscriptionRequest) (b : SubscriptionBatcher) (o : Option SubscriptionRequest)
    → load (request_key req) b.requests ≡ o
    → Held req (add_to req b o)
      ⊎ ((old : SubscriptionRequest) × (load (request_key req) b.requests ≡ some old)
          × (req.priority ≤ old.priority)
          × (add_to req b o ≡ b))
add_to-Held req b none e = inl (
    Held-if req (leb b.max_batch_size (length (store (request_key req) req b.requests))) _
      (inl (load-store_self (request_key req) req b.requests)))
add_to-Held req b (some old) e = elim (Bool-cases (ltb old.priority req.priority)) [
  | inl y ↦ inl (rw y (inl (load-store_self (request_key req) req b.requests)))
  | inr n ↦ inr (old, e, ground (arith, n), rw n refl)
]

-- A request that `Add` takes waits or is handed on, unless one waits under its key with a priority
-- as high; then nothing changes.
pub add-Held :
    (req : SubscriptionRequest) (b : SubscriptionBatcher)
    → Held req (add req b)
      ⊎ ((old : SubscriptionRequest) × (load (request_key req) b.requests ≡ some old)
          × (req.priority ≤ old.priority)
          × (add req b ≡ b))
unfolding add
add-Held req b = add_to-Held req b (load (request_key req) b.requests) refl
