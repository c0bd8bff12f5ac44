-- ===== src/Aggregator/Streams/Counts.antt =====
-- The map of counts against a function from symbols and intervals to numbers.
use nyyu_market.Prelude.{
  ℕ, zero, suc, ◌+◌, ◌-◌, ◌<◌, ◌≤◌, List, [], ◌∷◌, Bool, true, ◌&&◌, Option, none, some,
  if◌then◌else◌, ◌==◌, length, ◌≡◌, refl, ◌∙◌, ap, arith, Bool-cases, inl, inr,
}
use nyyu_market.Prelude.Text.{Bytes, bytes_eq}
use nyyu_market.Prelude.Int32.{inc, inc-small, dec-small, is_positive-suc}
use nyyu_market.Prelude.Maps.{load, store, delete, bytes_key, load-store, load-delete, bytes_eq_iff}
use nyyu_market.Prelude.Strings.{to_upper}
use nyyu_market.Aggregator.Streams.{
  Streams, Request, new_streams, or_zero, or_empty, subscribe_to_interval, subscribe_stream,
  put_counts, lower_count, unsubscribe_from_interval, serve, serve_all,
}

-- The number of users that the map has for a symbol, in upper case, and an interval.
abbrev pub held : List (Bytes × List (Bytes × ℕ)) → Bytes → Bytes → ℕ
held subs s i = or_zero (load i (or_empty (load s subs)))

-- What the map stands for: a number for each symbol and interval.
abbrev pub Users : Type 0
Users = Bytes → Bytes → ℕ

abbrev pub is_at : Bytes → Bytes → Bytes → Bytes → Bool
is_at symbol interval s i = bytes_eq symbol s && bytes_eq interval i

-- A request as a change of that function: one user more, or one less if there is one.
abbrev pub change : Request → Users → Users
change (Request.subscribe symbol interval) f s i =
    if is_at (to_upper symbol) interval s i then f s i + 1 else f s i
change (Request.unsubscribe symbol interval) f s i =
    if is_at (to_upper symbol) interval s i then f s i - 1 else f s i

unfoldable pub replay : List Request → Users → Users
replay [] f = f
replay (r ∷ rs) f = replay rs (change r f)

empty_of_length :
    {V : Type 0} (m : List (Bytes × V)) (k : Bytes) → (length m == 0) ≡ true → load k m ≡ none
unfolding load
empty_of_length [] k h = refl
empty_of_length (e ∷ m) k h = absurd (ground arith)

held-store :
    (subs : List (Bytes × List (Bytes × ℕ))) (symbol s i : Bytes) (m : List (Bytes × ℕ))
    → held (store symbol m subs) s i
      ≡ (if bytes_eq symbol s then or_zero (load i m) else held subs s i)
held-store subs symbol s i m = ground (arith, load-store symbol s m subs)

pub load-nil : {V : Type 0} (k : Bytes) → load {V = V} k [] ≡ none
unfolding load
load-nil k = refl

held-delete :
    (subs : List (Bytes × List (Bytes × ℕ))) (symbol s i : Bytes)
    → held (delete symbol subs) s i ≡ (if bytes_eq symbol s then 0 else held subs s i)
held-delete subs symbol s i = ground (arith, load-delete symbol s subs, load-nil {V = ℕ} i)

held-put_counts :
    (subs : List (Bytes × List (Bytes × ℕ))) (symbol s i : Bytes) (m : List (Bytes × ℕ))
    → held (put_counts symbol m subs) s i
      ≡ (if bytes_eq symbol s then or_zero (load i m) else held subs s i)
held-put_counts subs symbol s i m = elim (Bool-cases (length m == 0)) [
  | inl e ↦ rw (e, empty_of_length m i e) (held-delete subs symbol s i)
  | inr n ↦ rw n (held-store subs symbol s i m)
]

-- The map after one count is lowered from `n + 1`.
lowered :
    (subs : List (Bytes × List (Bytes × ℕ))) (symbol interval s i : Bytes) (n : ℕ)
    → held subs symbol interval ≡ n + 1
    → held
        (if n == 0
          then put_counts symbol (delete interval (or_empty (load symbol subs))) subs
          else store symbol (store interval n (or_empty (load symbol subs))) subs)
        s
        i
      ≡ (if is_at symbol interval s i then held subs s i - 1 else held subs s i)
lowered subs symbol interval s i n h =
    let m = or_empty (load symbol subs) in
    elim (Bool-cases (n == 0)) [
      | inl e ↦
          rw (e, held-put_counts subs symbol s i (delete interval m), load-delete interval i m)
            (ground (arith, e, h, bytes_eq_iff symbol s, bytes_eq_iff interval i))
      | inr e ↦
          rw (e, held-store subs symbol s i (store interval n m), load-store interval i n m)
            (ground (arith, e, h, bytes_eq_iff symbol s, bytes_eq_iff interval i))
    ]

held-lower_count :
    (subs : List (Bytes × List (Bytes × ℕ))) (symbol interval s i : Bytes) (n : ℕ)
    → held subs symbol interval ≡ n
    → n < 2147483647
    → held (lower_count symbol interval subs) s i
      ≡ (if is_at symbol interval s i then held subs s i - 1 else held subs s i)
held-lower_count subs symbol interval s i zero h k =
    rw h (ground (arith, h, bytes_eq_iff symbol s, bytes_eq_iff interval i))
held-lower_count subs symbol interval s i (suc n) h k =
    let h' : held subs symbol interval ≡ n + 1 = omega (arith, h) in
    rw (h', is_positive-suc n (omega arith), dec-small n (omega arith))
      (lowered subs symbol interval s i n h')

-- Subscribing adds one user.
held-subscribe :
    (subs : List (Bytes × List (Bytes × ℕ))) (symbol interval s i : Bytes)
    → held subs symbol interval < 2147483647
    → held
        (store symbol
          (store interval (inc (held subs symbol interval)) (or_empty (load symbol subs)))
          subs)
        s
        i
      ≡ (if is_at symbol interval s i then held subs s i + 1 else held subs s i)
held-subscribe subs symbol interval s i k =
    let m = or_empty (load symbol subs) in
    rw
      (
        inc-small (held subs symbol interval) k,
        held-store subs symbol s i (store interval (held subs symbol interval + 1) m),
        load-store interval i (held subs symbol interval + 1) m,
      )
      (ground (arith, bytes_eq_iff symbol s, bytes_eq_iff interval i))

pub subscribe-subscriptions :
    (o : Option ℕ) (key : Bytes) (exchanges : ℕ) (st : Streams)
    → (subscribe_stream o key exchanges st).subscriptions ≡ st.subscriptions
subscribe-subscriptions none key exchanges st = refl
subscribe-subscriptions (some n) key exchanges st = refl

-- What the state holds, as such a function.
abbrev pub view : Streams → Users
view st s i = held st.subscriptions s i

pub serve-view :
    (exchanges : ℕ) (r : Request) (st : Streams)
    → ((s i : Bytes) → view st s i < 2147483647)
    → (s i : Bytes) → view (serve exchanges r st) s i ≡ change r (view st) s i
unfolding subscribe_to_interval unsubscribe_from_interval
serve-view exchanges (Request.subscribe symbol interval) st h s i =
    ap (λ m. held m s i) (subscribe-subscriptions _ _ exchanges _)
    ∙ held-subscribe st.subscriptions (to_upper symbol) interval s i (h (to_upper symbol) interval)
serve-view exchanges (Request.unsubscribe symbol interval) st h s i =
    held-lower_count st.subscriptions (to_upper symbol) interval s i _ refl
      (h (to_upper symbol) interval)

pub change-bound :
    (r : Request) (f : Users) (n : ℕ) (s i : Bytes) → f s i ≤ n → change r f s i ≤ n + 1
change-bound (Request.subscribe symbol interval) f n s i h = ground arith
change-bound (Request.unsubscribe symbol interval) f n s i h = ground arith

pub change_congr :
    (r : Request) (f g : Users) (s i : Bytes) → f s i ≡ g s i → change r f s i ≡ change r g s i
change_congr (Request.subscribe symbol interval) f g s i h = rw h
change_congr (Request.unsubscribe symbol interval) f g s i h = rw h

replay_congr :
    (rs : List Request) (f g : Users)
    → ((s i : Bytes) → f s i ≡ g s i)
    → (s i : Bytes) → replay rs f s i ≡ replay rs g s i
unfolding replay
replay_congr [] f g h s i = h s i
replay_congr (r ∷ rs) f g h s i =
    replay_congr rs (change r f) (change r g) (λ s' i'. change_congr r f g s' i' (h s' i')) s i

serve_all-from :
    (exchanges : ℕ) (rs : List Request) (st : Streams) (n : ℕ)
    → ((s i : Bytes) → view st s i ≤ n)
    → n + length rs < 2147483647
    → (s i : Bytes) → view (serve_all exchanges rs st) s i ≡ replay rs (view st) s i
unfolding serve_all replay
serve_all-from exchanges [] st n h k s i = refl
serve_all-from exchanges (r ∷ rs) st n h k s i =
    let step : (s' i' : Bytes) → view (serve exchanges r st) s' i' ≡ change r (view st) s' i' =
      serve-view exchanges r st (λ s' i'. omega (arith, h s' i')) in
    serve_all-from exchanges rs (serve exchanges r st) (n + 1)
      (λ s' i'. rw (step s' i') (change-bound r (view st) n s' i' (h s' i'))) (omega arith) s i
    ∙ replay_congr rs (view (serve exchanges r st)) (change r (view st)) step s i

-- From the empty state, and for fewer than 2 ^ 31 - 1 requests, the reference count of each symbol
-- and interval is the number of its users: a subscription adds one, and an unsubscription takes one
-- off if there is one, each for its own interval and its symbol in upper case.
pub serve_all-refines :
    (exchanges : ℕ) (rs : List Request)
    → length rs < 2147483647
    → (s i : Bytes) → view (serve_all exchanges rs new_streams) s i ≡ replay rs (λ _ _. 0) s i
unfolding load
serve_all-refines exchanges rs h s i =
    serve_all-from exchanges rs new_streams 0 (λ s' i'. omega arith) (omega arith) s i
