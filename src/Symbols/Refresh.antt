-- ===== src/Symbols/Refresh.antt =====
-- The subscriptions of the manager in internal/services/symbols/symbol_manager.go.
use nyyu_market.Prelude.{
  ℕ, ◌+◌, ◌<◌, ◌≤◌, List, [], ◌∷◌, ◌++◌, true, false, if◌then◌else◌, length, length-append, ◌≡◌,
  refl, ◌∙◌, arith, Bool-cases, inl, inr,
}
use nyyu_market.Prelude.Text.{Bytes, codes, bytes_eq}
use nyyu_market.Prelude.Maps.{bytes_eq_iff}
use nyyu_market.Prelude.Strings.{to_upper}
use nyyu_market.Time.{Time}
use nyyu_market.Aggregator.Streams.{Request}
use nyyu_market.Aggregator.Streams.Counts.{is_at, view, serve-view}
use nyyu_market.Symbols.{
  Answer, SymbolFetcher, Fetched, SymbolConfig, SymbolManager, member, add_symbol, subscribe_each,
  or_default, refreshed, get_symbols, apply_strategy, refresh_and_subscribe, refresh_all,
}

-- No text stands twice.
abbrev pub Distinct : List Bytes → Type 0
Distinct [] = Unit
Distinct (s ∷ ss) = (member s ss ≡ false) × Distinct ss

-- How many of the texts are subscribed under a symbol and an interval: they differ in case.
abbrev pub users_of : Bytes → Bytes → List Bytes → ℕ
users_of y i [] = 0
users_of y i (s ∷ ss) = (if is_at (to_upper s) (codes "1m") y i then 1 else 0) + users_of y i ss

users_of-append :
    (y i : Bytes) (ss : List Bytes) (s : Bytes)
    → users_of y i (ss ++ (s ∷ []))
      ≡ users_of y i ss + (if is_at (to_upper s) (codes "1m") y i then 1 else 0)
users_of-append y i [] s = omega arith
users_of-append y i (t ∷ ss) s = omega (arith, users_of-append y i ss s)

users_of-le : (y i : Bytes) (ss : List Bytes) → users_of y i ss ≤ length ss
users_of-le y i [] = omega arith
users_of-le y i (s ∷ ss) = ground (arith, users_of-le y i ss)

member-append :
    (s t : Bytes) (ss : List Bytes)
    → member s (ss ++ (t ∷ [])) ≡ (if member s ss then true else bytes_eq t s)
member-append s t [] = ground arith
member-append s t (u ∷ ss) = ground (arith, member-append s t ss)

Distinct-append :
    (ss : List Bytes) (s : Bytes) → Distinct ss → member s ss ≡ false → Distinct (ss ++ (s ∷ []))
Distinct-append [] s h n = (refl, tt)
Distinct-append (t ∷ ss) s h n = (
  rw (member-append t s ss, h.0) (ground (arith, n, bytes_eq_iff t s, bytes_eq_iff s t)),
  Distinct-append ss s h.1 (ground (arith, n)),
)

-- Each name of the list stands there once and has added one user of its 1m candles; there is no other
-- user.
abbrev pub IsCounted : SymbolManager → Type 0
IsCounted m =
    Distinct m.subscribed_symbols
    × ((y i : Bytes) → view m.streams y i ≡ users_of y i m.subscribed_symbols)

module _ (exchanges : ℕ) where
  add_symbol-length :
      (s : Bytes) (m : SymbolManager)
      → length m.subscribed_symbols ≤ length (add_symbol exchanges s m).subscribed_symbols
  unfolding add_symbol
  add_symbol-length s m = elim (Bool-cases (member s m.subscribed_symbols)) [
    | inl e ↦ rw e (omega arith)
    | inr e ↦ rw e (omega (arith, length-append m.subscribed_symbols (s ∷ [])))
  ]

  add_symbol-IsCounted :
      (s : Bytes) (m : SymbolManager)
      → length m.subscribed_symbols < 2147483647
      → IsCounted m
      → IsCounted (add_symbol exchanges s m)
  unfolding add_symbol
  add_symbol-IsCounted s m h (u, v) = elim (Bool-cases (member s m.subscribed_symbols)) [
    | inl e ↦ rw e (u, v)
    | inr e ↦ rw e (
      Distinct-append m.subscribed_symbols s u e,
      λ y i.
          serve-view exchanges (Request.subscribe s (codes "1m")) m.streams
            (λ y' i'. omega (arith, v y' i', users_of-le y' i' m.subscribed_symbols)) y i
          ∙ rw (v y i, users_of-append y i m.subscribed_symbols s) (ground arith),
    )
  ]

  subscribe_each-length :
      (ss : List Bytes) (m : SymbolManager)
      → length m.subscribed_symbols ≤ length (subscribe_each exchanges ss m).subscribed_symbols
  unfolding subscribe_each
  subscribe_each-length [] m = omega arith
  subscribe_each-length (s ∷ ss) m =
      omega (arith, add_symbol-length s m, subscribe_each-length ss (add_symbol exchanges s m))

  subscribe_each-IsCounted :
      (ss : List Bytes) (m : SymbolManager)
      → length (subscribe_each exchanges ss m).subscribed_symbols < 2147483647
      → IsCounted m
      → IsCounted (subscribe_each exchanges ss m)
  unfolding subscribe_each
  subscribe_each-IsCounted [] m h c = c
  subscribe_each-IsCounted (s ∷ ss) m h c =
      subscribe_each-IsCounted ss (add_symbol exchanges s m) h (
        add_symbol-IsCounted s m
          (omega
            (arith, add_symbol-length s m, subscribe_each-length ss (add_symbol exchanges s m)))
          c)

  module _ (default_symbols : List Bytes) (c : SymbolConfig) where
    refreshed-length :
        (r : Fetched × SymbolFetcher) (m : SymbolManager)
        → length m.subscribed_symbols
          ≤ length (refreshed exchanges default_symbols c r m).1.subscribed_symbols
    unfolding subscribe_each
    refreshed-length ((symbols, false), f) m = omega arith
    refreshed-length ((symbols, true), f) m =
        subscribe_each-length (apply_strategy c (or_default default_symbols symbols))
          (record m { fetcher = f })

    refreshed-IsCounted :
        (r : Fetched × SymbolFetcher) (m : SymbolManager)
        → length (refreshed exchanges default_symbols c r m).1.subscribed_symbols < 2147483647
        → IsCounted m
        → IsCounted (refreshed exchanges default_symbols c r m).1
    unfolding subscribe_each
    refreshed-IsCounted ((symbols, false), f) m h k = k
    refreshed-IsCounted ((symbols, true), f) m h k =
        subscribe_each-IsCounted (apply_strategy c (or_default default_symbols symbols))
          (record m { fetcher = f }) h k

    refresh_all-length :
        (rs : List (Time × Answer)) (m : SymbolManager)
        → length m.subscribed_symbols
          ≤ length (refresh_all exchanges default_symbols c rs m).subscribed_symbols
    unfolding refresh_all refresh_and_subscribe
    refresh_all-length [] m = omega arith
    refresh_all-length ((now, answer) ∷ rs) m =
        let r = get_symbols now answer m.fetcher in
        omega (
          arith,
          refreshed-length r m,
          refresh_all-length rs (refreshed exchanges default_symbols c r m).1,
        )

    -- After any refreshes, whatever the backend answers, from a manager whose list is counted: each
    -- symbol stands once in the list, and the number of users of each symbol and interval is the
    -- number of listed symbols with that upper case if the interval is 1m, and else zero. So a
    -- symbol that is refreshed again adds no user. Fewer than 2 ^ 31 - 1 symbols are listed.
    pub refresh_all-IsCounted :
        (rs : List (Time × Answer)) (m : SymbolManager)
        → length (refresh_all exchanges default_symbols c rs m).subscribed_symbols < 2147483647
        → IsCounted m
        → IsCounted (refresh_all exchanges default_symbols c rs m)
    unfolding refresh_all refresh_and_subscribe
    refresh_all-IsCounted [] m h k = k
    refresh_all-IsCounted ((now, answer) ∷ rs) m h k =
        let r = get_symbols now answer m.fetcher in
        let m' = (refreshed exchanges default_symbols c r m).1 in
        refresh_all-IsCounted rs m' h
          (refreshed-IsCounted r m (omega (arith, refresh_all-length rs m')) k)
