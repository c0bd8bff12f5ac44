-- ===== src/Aggregator/Streams/Steps.antt =====
-- Each request keeps the streams in step with the users, as long as nobody unsubscribes who is no user.
use nyyu_market.Prelude.{
  ℕ, ◌+◌, ◌-◌, ◌<◌, ◌≤◌, List, [], ◌∷◌, Bool, true, false, Option, some, if◌then◌else◌, ◌==◌,
  length, ◌≡◌, refl, ◌∙◌, sym, ap, arith, Bool-cases, inl, inr, All,
}
use nyyu_market.Prelude.Text.{Bytes, bytes_eq, bytes_eq_refl}
use nyyu_market.Prelude.Int32.{inc, dec, is_positive, inc-small, dec-small, is_positive-suc}
use nyyu_market.Prelude.Maps.{load, store, delete, bytes_key, bytes_eq_iff, All-store, All-delete}
use nyyu_market.Prelude.Unique.{Unique, Unique-store, Unique-delete}
use nyyu_market.Prelude.Strings.{to_upper}
use nyyu_market.Aggregator.Streams.{
  Streams, Request, new_streams, stream_key, or_zero, or_empty, subscribe_to_interval, lower_count,
  unsubscribe_from_interval, serve, serve_all,
}
use nyyu_market.Aggregator.Streams.Counts.{
  held, Users, view, change, serve-view, change_congr, subscribe-subscriptions,
}
use nyyu_market.Aggregator.Streams.Shared.{
  sum_counts, users_of, entry, lowered_entry, IsShared, sum-store, sum-delete, stream_key_inj,
  users-store, users-put_counts, load-subscribe_stream, load-lower_stream, inner, held-le,
  entry-inc, entry-lowered,
}

key_test :
    (a b : Bytes)
    → bytes_eq (stream_key (to_upper a)) (stream_key (to_upper b))
      ≡ bytes_eq (to_upper a) (to_upper b)
key_test a b = elim (Bool-cases (bytes_eq (to_upper a) (to_upper b))) [
  | inl e ↦
      ap (λ x. bytes_eq (stream_key (to_upper a)) (stream_key x))
        (sym ((bytes_eq_iff (to_upper a) (to_upper b)).0 e))
      ∙ bytes_eq_refl (stream_key (to_upper a))
      ∙ sym e
  | inr n ↦ ground (
    arith,
    n,
    bytes_eq_iff (to_upper a) (to_upper b),
    bytes_eq_iff (stream_key (to_upper a)) (stream_key (to_upper b)),
    stream_key_inj a b,
  )
]

users-subscribe :
    (st : Streams) (symbol interval s : Bytes) (c : ℕ)
    → let m = or_empty (load symbol st.subscriptions) in
      or_zero (load interval m) ≡ c
      → c < 2147483647
      → sum_counts (or_empty (load s (store symbol (store interval (inc c) m) st.subscriptions)))
        ≡ (if bytes_eq symbol s then users_of st s + 1 else users_of st s)
users-subscribe st symbol interval s c e h =
    let m = or_empty (load symbol st.subscriptions) in
    rw (users-store st.subscriptions symbol s (store interval (inc c) m), inc-small c h)
      (ground (arith, e, sum-store interval (c + 1) m, bytes_eq_iff symbol s))

-- A stream's entry and its users, both changed where the test holds.
step_entry :
    (t : Bool) (e e' o : Option ℕ) (n n' : ℕ) (f : ℕ → ℕ)
    → e' ≡ (if t then o else e)
    → n' ≡ (if t then f n else n)
    → e ≡ entry n
    → (t ≡ true → o ≡ entry (f n))
    → e' ≡ entry n'
step_entry true e e' o n n' f h k w z = h ∙ z refl ∙ ap entry (sym k)
step_entry false e e' o n n' f h k w z = h ∙ w ∙ ap entry (sym k)

if-All :
    (P : Bytes × List (Bytes × ℕ) → Type 0) (t : Bool) (m n : List (Bytes × List (Bytes × ℕ)))
    → All P m
    → All P n
    → All P (if t then m else n)
if-All P true m n h k = h
if-All P false m n h k = k

subscribe-IsShared :
    (exchanges : ℕ) (symbol interval : Bytes) (st : Streams)
    → ((s : Bytes) → users_of st s < 2147483647)
    → IsShared st
    → IsShared (subscribe_to_interval exchanges symbol interval st)
unfolding subscribe_to_interval
subscribe-IsShared exchanges symbol interval st h w =
    let u = to_upper symbol in
    let m = or_empty (load u st.subscriptions) in
    let c = or_zero (load interval m) in
    let o = load (stream_key u) st.active_streams in
    let subs = store u (store interval (inc c) m) st.subscriptions in
    let st' : Streams = record st { subscriptions = subs } in
    let same = subscribe-subscriptions o (stream_key u) exchanges st' in
    record {
      inner_unique = rw same (
          All-store (λ e. Unique e.1) u _ st.subscriptions
            (Unique-store interval (inc c) m (inner st u w)) w.inner_unique);
      counted = λ s.
          step_entry (bytes_eq u (to_upper s)) (load (stream_key (to_upper s)) st.active_streams) _
            (some (inc (or_zero o))) (users_of st (to_upper s)) _ (λ n. n + 1)
            (load-subscribe_stream o (stream_key u) (stream_key (to_upper s)) exchanges st'
              ∙ ap
                  (λ t.
                    if t
                    then some (inc (or_zero o))
                    else load (stream_key (to_upper s)) st.active_streams)
                  (key_test symbol s))
            (ap (λ x. sum_counts (or_empty (load (to_upper s) x))) same
              ∙ users-subscribe st u interval (to_upper s) c refl
                  (omega (arith, held-le st u interval w, h u)))
            (w.counted s)
            (λ e.
              ap (λ x. some (inc (or_zero x)))
                (w.counted symbol
                  ∙ ap (λ x. entry (users_of st x)) ((bytes_eq_iff u (to_upper s)).0 e))
              ∙ entry-inc (users_of st (to_upper s)) (h (to_upper s)));
    }

users-lower :
    (st : Streams) (symbol interval s : Bytes) (n : ℕ)
    → held st.subscriptions symbol interval ≡ n + 1
    → n < 2147483646
    → IsShared st
    → sum_counts (or_empty (load s (lower_count symbol interval st.subscriptions)))
      ≡ (if bytes_eq symbol s then users_of st s - 1 else users_of st s)
users-lower st symbol interval s n e h w =
    let m = or_empty (load symbol st.subscriptions) in
    let gone = sum-delete interval m (inner st symbol w) in
    rw (e, is_positive-suc n (omega arith), dec-small n (omega arith))
      (elim (Bool-cases (n == 0)) [
        | inl z ↦
            rw (z, users-put_counts st.subscriptions symbol s (delete interval m))
              (ground (arith, z, e, gone, bytes_eq_iff symbol s))
        | inr z ↦
            rw (z, users-store st.subscriptions symbol s (store interval n m))
              (ground (arith, e, sum-store interval n m, bytes_eq_iff symbol s))
      ])

lower-inner :
    (symbol interval : Bytes) (st : Streams)
    → IsShared st
    → All (λ e. Unique e.1) (lower_count symbol interval st.subscriptions)
lower-inner symbol interval st w =
    let m = or_empty (load symbol st.subscriptions) in
    let c = or_zero (load interval m) in
    let P : Bytes × List (Bytes × ℕ) → Type 0 = λ e. Unique e.1 in
    if-All P (is_positive c) _ _
      (if-All P (dec c == 0) _ _
        (if-All P (length (delete interval m) == 0) _ _
          (All-delete P symbol st.subscriptions w.inner_unique)
          (All-store P symbol _ st.subscriptions (Unique-delete interval m (inner st symbol w))
            w.inner_unique))
        (All-store P symbol _ st.subscriptions (Unique-store interval (dec c) m (inner st symbol w))
          w.inner_unique))
      w.inner_unique

-- An unsubscription of somebody who is a user.
unsubscribe-IsShared :
    (symbol interval : Bytes) (st : Streams)
    → ((s : Bytes) → users_of st s < 2147483647)
    → 0 < held st.subscriptions (to_upper symbol) interval
    → IsShared st
    → IsShared (unsubscribe_from_interval symbol interval st)
unfolding unsubscribe_from_interval
unsubscribe-IsShared symbol interval st h k w =
    let u = to_upper symbol in
    let o = load (stream_key u) st.active_streams in
    let le = held-le st u interval w in
    record {
      inner_unique = lower-inner u interval st w;
      counted = λ s.
          step_entry (bytes_eq u (to_upper s)) (load (stream_key (to_upper s)) st.active_streams) _
            (lowered_entry o) (users_of st (to_upper s)) _ (λ n. n - 1)
            (load-lower_stream o (stream_key u) (stream_key (to_upper s)) st.active_streams refl
              ∙ ap
                  (λ t.
                    if t then lowered_entry o else load (stream_key (to_upper s)) st.active_streams)
                  (key_test symbol s))
            (users-lower st u interval (to_upper s) (held st.subscriptions u interval - 1)
              (omega arith) (omega (arith, le, h u)) w)
            (w.counted s)
            (λ e.
              ap lowered_entry (
                w.counted symbol
                ∙ ap (λ x. entry (users_of st x)) ((bytes_eq_iff u (to_upper s)).0 e))
              ∙ entry-lowered (users_of st (to_upper s)) (h (to_upper s)));
    }

users-serve_subscribe :
    (exchanges : ℕ) (symbol interval : Bytes) (st : Streams) (s : Bytes)
    → ((t : Bytes) → users_of st t < 2147483647)
    → IsShared st
    → users_of (subscribe_to_interval exchanges symbol interval st) s
      ≡ (if bytes_eq (to_upper symbol) s then users_of st s + 1 else users_of st s)
unfolding subscribe_to_interval
users-serve_subscribe exchanges symbol interval st s h w =
    let u = to_upper symbol in
    ap (λ x. sum_counts (or_empty (load s x))) (subscribe-subscriptions _ _ exchanges _)
    ∙ users-subscribe st u interval s _ refl (omega (arith, held-le st u interval w, h u))

-- Nobody unsubscribes from an interval of a symbol that has no user, counting from `f` users.
abbrev pub Matched : List Request → Users → Type 0
Matched [] f = Unit
Matched (Request.subscribe symbol interval ∷ rs) f =
    Matched rs (change (Request.subscribe symbol interval) f)
Matched (Request.unsubscribe symbol interval ∷ rs) f =
    (0 < f (to_upper symbol) interval) × Matched rs (change (Request.unsubscribe symbol interval) f)

serve-IsShared :
    (exchanges : ℕ) (r : Request) (rs : List Request) (st : Streams) (f : Users) (n : ℕ)
    → n < 2147483646
    → ((s i : Bytes) → view st s i ≡ f s i)
    → ((s : Bytes) → users_of st s ≤ n)
    → IsShared st
    → Matched (r ∷ rs) f
    → IsShared (serve exchanges r st)
      × ((s : Bytes) → users_of (serve exchanges r st) s ≤ n + 1)
      × Matched rs (change r f)
unfolding unsubscribe_from_interval
serve-IsShared exchanges (Request.subscribe symbol interval) rs st f n k v h w q =
    let b : (t : Bytes) → users_of st t < 2147483647 = λ t. omega (arith, h t) in
    (
      subscribe-IsShared exchanges symbol interval st b w,
      λ s. ground (arith, users-serve_subscribe exchanges symbol interval st s b w, h s),
      q,
    )
serve-IsShared exchanges (Request.unsubscribe symbol interval) rs st f n k v h w q =
    let u = to_upper symbol in
    let b : (t : Bytes) → users_of st t < 2147483647 = λ t. omega (arith, h t) in
    let p : 0 < held st.subscriptions u interval = omega (arith, v u interval, q.0) in
    (
      unsubscribe-IsShared symbol interval st b p w,
      λ s. ground (
        arith,
        h s,
        users-lower st u interval s (held st.subscriptions u interval - 1) (omega arith)
            (omega (arith, held-le st u interval w, h u)) w,
      ),
      q.1,
    )

serve_all-from_IsShared :
    (exchanges : ℕ) (rs : List Request) (st : Streams) (f : Users) (n : ℕ)
    → n + length rs < 2147483647
    → ((s i : Bytes) → view st s i ≡ f s i)
    → ((s : Bytes) → users_of st s ≤ n)
    → IsShared st
    → Matched rs f
    → IsShared (serve_all exchanges rs st)
unfolding serve_all
serve_all-from_IsShared exchanges [] st f n k v h w q = w
serve_all-from_IsShared exchanges (r ∷ rs) st f n k v h w q =
    let (w', h', q') = serve-IsShared exchanges r rs st f n (omega arith) v h w q in
    serve_all-from_IsShared exchanges rs (serve exchanges r st) (change r f) (n + 1) (omega arith)
      (λ s i.
        serve-view exchanges r st (λ s' i'. omega (arith, held-le st s' i' w, h s')) s i
        ∙ change_congr r (view st) f s i (v s i))
      h' w' q'

new-IsShared : IsShared new_streams
unfolding load
new-IsShared = record { inner_unique = tt; counted = λ s. refl }

-- For fewer than 2 ^ 31 - 1 requests from the empty state, in which nobody unsubscribes from an
-- interval of a symbol without a user: the count of a symbol's 1m stream is the sum of the users of
-- all its intervals, and a symbol without users has no stream.
pub serve_all-IsShared :
    (exchanges : ℕ) (rs : List Request)
    → length rs < 2147483647
    → Matched rs (λ _ _. 0)
    → (s : Bytes)
    → load (stream_key (to_upper s)) (serve_all exchanges rs new_streams).active_streams
      ≡ entry (users_of (serve_all exchanges rs new_streams) (to_upper s))
unfolding load
serve_all-IsShared exchanges rs h q s =
    (serve_all-from_IsShared exchanges rs new_streams (λ _ _. 0) 0 (omega arith) (λ _ _. refl)
        (λ t. omega arith) new-IsShared q).counted
      s
