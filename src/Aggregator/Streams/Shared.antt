-- ===== src/Aggregator/Streams/Shared.antt =====
-- One 1m stream for all users of a symbol: its count is the number of these users.
use nyyu_market.Prelude.{
  ℕ, ◌+◌, ◌-◌, ◌<◌, ◌≤◌, List, [], ◌∷◌, true, Option, none, some, if◌then◌else◌, ◌==◌, length, ◌≡◌,
  refl, ◌∙◌, sym, ap, arith, Bool-cases, inl, inr, All,
}
use mathlib.Core.List.{append_cancel_right}
use nyyu_market.Prelude.Text.{Bytes, bytes_eq}
use nyyu_market.Prelude.Int32.{inc, dec, is_positive}
use nyyu_market.Prelude.Maps.{
  load, store, delete, bytes_key, load-store, load-delete, bytes_eq_iff, All-load,
}
use nyyu_market.Prelude.Unique.{Unique}
use nyyu_market.Prelude.Strings.{to_upper, to_lower}
use nyyu_market.Aggregator.Streams.{
  Streams, stream_key, or_zero, or_empty, subscribe_stream, put_counts, lower_stream,
}
use nyyu_market.Aggregator.Streams.Counts.{held}

-- The number of users of a symbol.
abbrev pub sum_counts : List (Bytes × ℕ) → ℕ
sum_counts [] = 0
sum_counts ((i, n) ∷ m) = n + sum_counts m

abbrev pub users_of : Streams → Bytes → ℕ
users_of st s = sum_counts (or_empty (load s st.subscriptions))

-- The entry of a stream with so many users; a stream that nobody watches has none.
abbrev pub entry : ℕ → Option ℕ
entry n = if n == 0 then none else some n

pub sum-store :
    (k : Bytes) (v : ℕ) (m : List (Bytes × ℕ))
    → sum_counts (store k v m) + or_zero (load k m) ≡ sum_counts m + v
unfolding load store
sum-store k v [] = omega arith
sum-store k v ((j, w) ∷ m) = ground (arith, sum-store k v m)

sum-delete_absent :
    (k : Bytes) (m : List (Bytes × ℕ)) → load k m ≡ none → sum_counts (delete k m) ≡ sum_counts m
unfolding load delete
sum-delete_absent k [] h = refl
sum-delete_absent k ((j, w) ∷ m) h = ground (arith, sum-delete_absent k m)

pub sum-delete :
    (k : Bytes) (m : List (Bytes × ℕ))
    → Unique m
    → sum_counts (delete k m) + or_zero (load k m) ≡ sum_counts m
unfolding load delete
sum-delete k [] u = omega arith
sum-delete k ((j, w) ∷ m) u = elim (Bool-cases (bytes_eq j k)) [
  | inl e ↦ ground (arith, e, u.0, bytes_eq_iff j k, sum-delete_absent k m)
  | inr n ↦ ground (arith, n, sum-delete k m u.1)
]

upper-lower-upper : (s : Bytes) → to_upper (to_lower (to_upper s)) ≡ to_upper s
unfolding to_upper to_lower
upper-lower-upper [] = refl
upper-lower-upper (c ∷ s) = ground (arith, upper-lower-upper s)

-- Symbols in upper case have streams of their own.
pub stream_key_inj :
    (s t : Bytes) → stream_key (to_upper s) ≡ stream_key (to_upper t) → to_upper s ≡ to_upper t
unfolding stream_key
stream_key_inj s t e =
    sym (upper-lower-upper s)
    ∙ ap to_upper (append_cancel_right (to_lower (to_upper s)) (to_lower (to_upper t)) _ e)
    ∙ upper-lower-upper t

pub users-store :
    (subs : List (Bytes × List (Bytes × ℕ))) (symbol s : Bytes) (m : List (Bytes × ℕ))
    → sum_counts (or_empty (load s (store symbol m subs)))
      ≡ (if bytes_eq symbol s then sum_counts m else sum_counts (or_empty (load s subs)))
users-store subs symbol s m = ground (arith, load-store symbol s m subs)

sum_of_length : (m : List (Bytes × ℕ)) → (length m == 0) ≡ true → sum_counts m ≡ 0
sum_of_length [] h = refl
sum_of_length (e ∷ m) h = absurd (ground arith)

pub users-put_counts :
    (subs : List (Bytes × List (Bytes × ℕ))) (symbol s : Bytes) (m : List (Bytes × ℕ))
    → sum_counts (or_empty (load s (put_counts symbol m subs)))
      ≡ (if bytes_eq symbol s then sum_counts m else sum_counts (or_empty (load s subs)))
users-put_counts subs symbol s m = elim (Bool-cases (length m == 0)) [
  | inl e ↦ rw (e, sum_of_length m e, load-delete symbol s subs) (ground arith)
  | inr n ↦ rw n (users-store subs symbol s m)
]

pub load-subscribe_stream :
    (o : Option ℕ) (key k : Bytes) (exchanges : ℕ) (st : Streams)
    → load k (subscribe_stream o key exchanges st).active_streams
      ≡ (if bytes_eq key k then some (inc (or_zero o)) else load k st.active_streams)
load-subscribe_stream none key k exchanges st = load-store key k 1 st.active_streams
load-subscribe_stream (some n) key k exchanges st = load-store key k (inc n) st.active_streams

abbrev pub lowered_entry : Option ℕ → Option ℕ
lowered_entry none = none
lowered_entry (some n) = if is_positive (dec n) then some (dec n) else none

pub load-lower_stream :
    (o : Option ℕ) (key k : Bytes) (streams : List (Bytes × ℕ))
    → load key streams ≡ o
    → load k (lower_stream o key streams)
      ≡ (if bytes_eq key k then lowered_entry o else load k streams)
load-lower_stream none key k streams h = ground (arith, bytes_eq_iff key k, h)
load-lower_stream (some n) key k streams h =
    ground (arith, load-store key k (dec n) streams, load-delete key k streams)

-- The inner maps have one entry for an interval, and each symbol's stream counts its users.
pub record IsShared (st : Streams) : Type 0 where
  pub inner_unique : All (λ e. Unique e.1) st.subscriptions
  pub counted :
      (s : Bytes)
      → load (stream_key (to_upper s)) st.active_streams ≡ entry (users_of st (to_upper s))

pub inner : (st : Streams) (s : Bytes) → IsShared st → Unique (or_empty (load s st.subscriptions))
inner st s w = of_load (load s st.subscriptions) refl
  where
    of_load : (o : Option (List (Bytes × ℕ))) → load s st.subscriptions ≡ o → Unique (or_empty o)
    of_load none e = tt
    of_load (some m) e = All-load (λ x. Unique x.1) s st.subscriptions w.inner_unique e

-- A symbol has at least as many users as one of its intervals.
pub held-le : (st : Streams) (s i : Bytes) → IsShared st → held st.subscriptions s i ≤ users_of st s
held-le st s i w = omega (arith, sum-delete i (or_empty (load s st.subscriptions)) (inner st s w))

pub entry-inc : (n : ℕ) → n < 2147483647 → some (inc (or_zero (entry n))) ≡ entry (n + 1)
entry-inc n h = ground arith

pub entry-lowered : (n : ℕ) → n < 2147483647 → lowered_entry (entry n) ≡ entry (n - 1)
entry-lowered n h = ground arith
