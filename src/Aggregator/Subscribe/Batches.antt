-- ===== src/Aggregator/Subscribe/Batches.antt =====
-- The loops that send streams in batches: they end, lose nothing and keep to the exchange's limit.
use nyyu_market.Prelude.{
  ℕ, zero, suc, ◌+◌, ◌-◌, ◌<◌, ◌≤◌, List, [], ◌∷◌, ◌++◌, map, if◌then◌else◌, ltb, length, All, ◌≡◌,
  refl, ◌∙◌, sym, ap, subst, arith, Bool-cases, inl, inr,
}
use mathlib.Core.List.{flatten}
use nyyu_market.Prelude.Text.{Bytes}
use nyyu_market.Prelude.Lists.{take, drop, take-drop, length-take, length-drop, drop-drop, drop-all}
use nyyu_market.Aggregator.Subscribe.{
  Message, batches, batches_from, number_batches, binance_stream, stream_parts, active,
  subscribe_binance, subscribe_bybit, subscribe_okx, bybit_topic, okx_arg, max_streams_per_batch,
  max_topics_per_batch, max_args_per_batch,
}

module _ {ℓ} {A : Type ℓ} (n : ℕ) (pos : 0 < n) where
  -- The end of a batch that begins at `i`.
  end_of : ℕ → List A → ℕ
  end_of i xs = if ltb (length xs) (i + n) then length xs else i + n

  cut :
      (i : ℕ) (xs : List A)
      → i < length xs
      → take (end_of i xs - i) (drop i xs) ++ drop (i + n) xs ≡ drop i xs
  unfolding end_of
  cut i xs h =
      let e = end_of i xs in
      let step : drop (e - i) (drop i xs) ≡ drop (i + n) xs =
        elim (Bool-cases (ltb (length xs) (i + n))) [
          | inl t ↦
              drop-all (e - i) (drop i xs) (ground (arith, t, length-drop i xs))
              ∙ sym (drop-all (i + n) xs (ground (arith, t)))
          | inr f ↦ rw f (
              drop-drop i (i + n - i) xs
              ∙ ap (λ k. drop k xs) {x = i + (i + n - i)} {y = i + n} (omega arith))
        ] in
      ap (λ t. take (e - i) (drop i xs) ++ t) (sym step) ∙ take-drop (e - i) (drop i xs)

  batches_from-flatten :
      (fuel i : ℕ) (xs : List A)
      → length xs - i < fuel
      → flatten (batches_from fuel n i xs) ≡ drop i xs
  unfolding batches_from flatten end_of
  batches_from-flatten zero i xs h = absurd (omega arith)
  batches_from-flatten (suc fuel) i xs h = elim (Bool-cases (ltb i (length xs))) [
    | inl t ↦
        let lt : i < length xs = ground (arith, t) in
        rw (t, batches_from-flatten fuel (i + n) xs (omega arith)) (cut i xs lt)
    | inr f ↦ rw f (sym (drop-all i xs (ground (arith, f))))
  ]

  batches_from-All :
      (fuel i : ℕ) (xs : List A)
      → All (λ b. (0 < length b) × (length b ≤ n)) (batches_from fuel n i xs)
  unfolding batches_from end_of
  batches_from-All zero i xs = tt
  batches_from-All (suc fuel) i xs = elim (Bool-cases (ltb i (length xs))) [
    | inl t ↦
        let size =
          length-take (end_of i xs - i) (drop i xs) (ground (arith, t, length-drop i xs)) in
        rw t ((ground (arith, t, size), ground (arith, t, size)), batches_from-All fuel (i + n) xs)
    | inr f ↦ rw f tt
  ]

  pub batches-flatten : (xs : List A) → flatten (batches n xs) ≡ xs
  batches-flatten xs = batches_from-flatten (suc (length xs)) 0 xs (omega arith)

  pub batches-All : (xs : List A) → All (λ b. (0 < length b) × (length b ≤ n)) (batches n xs)
  batches-All xs = batches_from-All (suc (length xs)) 0 xs

-- What the messages name.
abbrev pub topics : Message → List Bytes
topics (Message.binance_subscribe batch id) = batch
topics (Message.bybit_subscribe batch) = batch
topics _ = []

abbrev pub channels : Message → List (Bytes × Bytes)
channels (Message.okx_subscribe batch) = batch
channels _ = []

-- The messages name the entries of the list, each once and in order, and none of them is empty or
-- names more than `n`.
abbrev pub SentInBatches {ℓ} :
    {A : Type ℓ} → (Message → List A) → ℕ → List A → List Message → Type ℓ
SentInBatches named n xs ms =
    (flatten (map named ms) ≡ xs) × All (λ m. (0 < length (named m)) × (length (named m) ≤ n)) ms

module _ {ℓ} {A : Type ℓ} (named : Message → List A) (message : List A → Message) (n : ℕ)
    (same : (b : List A) → named (message b) ≡ b) where
  map-named : (bs : List (List A)) → map named (map message bs) ≡ bs
  map-named [] = refl
  map-named (b ∷ bs) = rw (same b, map-named bs) refl

  map-size :
      (bs : List (List A))
      → All (λ b. (0 < length b) × (length b ≤ n)) bs
      → All (λ m. (0 < length (named m)) × (length (named m) ≤ n)) (map message bs)
  map-size [] h = tt
  map-size (b ∷ bs) h = (rw (same b) h.0, map-size bs h.1)

  map-SentInBatches : 0 < n → (xs : List A) → SentInBatches named n xs (map message (batches n xs))
  map-SentInBatches h xs = (
    ap flatten (map-named (batches n xs)) ∙ batches-flatten n h xs,
    map-size (batches n xs) (batches-All n h xs),
  )

number-SentInBatches :
    (id n : ℕ) (bs : List (List Bytes))
    → All (λ b. (0 < length b) × (length b ≤ n)) bs
    → SentInBatches topics n (flatten bs) (number_batches id bs)
unfolding flatten
number-SentInBatches id n [] h = (refl, tt)
number-SentInBatches id n (b ∷ bs) h =
    let rest = number-SentInBatches (suc id) n bs h.1 in (ap (λ t. b ++ t) rest.0, (h.0, rest.1))

-- With a round for each stream and one more, the loops over batches come to their end: Binance,
-- Bybit and OKX are sent all their active streams, each once and in order, in messages of at least
-- one and at most 200, 10 and 20 streams.
pub subscribe-SentInBatches :
    (active_streams : List (Bytes × ℕ))
    → let parts = stream_parts (active active_streams) in
      SentInBatches topics max_streams_per_batch
        (map binance_stream parts)
        (subscribe_binance active_streams)
      × SentInBatches topics max_topics_per_batch
          (map bybit_topic parts)
          (subscribe_bybit active_streams)
      × SentInBatches channels max_args_per_batch (map okx_arg parts) (subscribe_okx active_streams)
unfolding subscribe_binance subscribe_bybit subscribe_okx
subscribe-SentInBatches active_streams =
    let parts = stream_parts (active active_streams) in
    let streams = map binance_stream parts in
    (
      subst
          (λ xs.
            SentInBatches topics max_streams_per_batch xs
              (number_batches 1 (batches max_streams_per_batch streams)))
          (batches-flatten max_streams_per_batch (omega arith) streams)
          (number-SentInBatches 1 max_streams_per_batch (batches max_streams_per_batch streams)
            (batches-All max_streams_per_batch (omega arith) streams)),
      map-SentInBatches topics Message.bybit_subscribe max_topics_per_batch (λ b. refl)
          (omega arith) (map bybit_topic parts),
      map-SentInBatches channels Message.okx_subscribe max_args_per_batch (λ b. refl) (omega arith)
          (map okx_arg parts),
    )
