-- ===== src/Stats/Window.antt =====
-- The ring against the history of the candles pushed into it.
use nyyu_market.Prelude.{
  ℕ, zero, suc, ◌+◌, ◌-◌, ◌%◌, ◌≤◌, ◌<◌, List, [], ◌∷◌, ◌++◌, Option, none, some, if◌then◌else◌,
  leb, get_elem?, length, length-append, map, ◌≡◌, refl, sym, ap, ◌∙◌, subst, arith,
}
use nyyu_market.Prelude.Lists.{
  length-set, length-replicate, get_elem?-set_self, get_elem?-set_ne, get_elem?-replicate,
  get_elem?-append_left, get_elem?-append_length,
}
use mathlib.Core.List.{append-nil, append_assoc}
use native.Mathlib.Decide.{dec_lt}
use nyyu_market.Prelude.Text.{Bytes}
use nyyu_market.Decimal.{Decimal}
use nyyu_market.Models.Candle.{Candle}
use nyyu_market.Time.{Time}
use nyyu_market.Stats.Ring.{
  Symbol24hStats, ring_size, slot, empty_ring, new_stats, open_or, push_candle,
}

-- The candles pushed so far, the first one first, and the statistics they lead to.
module _ (d : Decimal) where
  -- The ring after a history: slot `j % 1440` holds candle j for the last 1440 candles, and the
  -- slots not yet written are nil.
  pub record Reflects (hist : List (Candle d.Number)) (s : Symbol24hStats d.Number) : Type 0 where
    pub sized : length s.candles ≡ ring_size
    pub next : s.next_index ≡ length hist % ring_size
    pub recent :
        (j : ℕ)
        → j < length hist
        → length hist ≤ j + ring_size
        → get_elem? s.candles (j % ring_size) ≡ some (get_elem? hist j)
    pub free : (i : ℕ) → length hist ≤ i → i < ring_size → get_elem? s.candles i ≡ some none

  pub new_stats-Reflects : (symbol : Bytes) (now : Time) → Reflects [] (new_stats d symbol now)
  unfolding new_stats empty_ring
  new_stats-Reflects symbol now = record {
    sized = length-replicate {A = Option (Candle d.Number)} ring_size none;
    next = refl;
    recent = λ j h. elim h [ ];
    free = λ i h k. get_elem?-replicate {A = Option (Candle d.Number)} ring_size none i k;
  }

  -- A push keeps the ring in step with the history.
  pub push_candle-Reflects :
      (now : Time) (c : Candle d.Number) (hist : List (Candle d.Number))
      (s : Symbol24hStats d.Number)
      → Reflects hist s
      → Reflects (hist ++ (c ∷ [])) (push_candle d now c s)
  unfolding push_candle
  push_candle-Reflects now c hist s r = record {
    sized = length-set s.candles s.next_index (some c) ∙ r.sized;
    next = omega (arith, r.next, length-append hist (c ∷ []));
    recent = λ j h k. elim (dec_lt j (length hist)) [
      | yes old ↦
          get_elem?-set_ne s.candles s.next_index (j % ring_size) (some c)
            (λ e. omega (arith, e, r.next, length-append hist (c ∷ [])))
          ∙ r.recent j old (omega (arith, length-append hist (c ∷ [])))
          ∙ ap some (sym (get_elem?-append_left hist (c ∷ []) j old))
      | no new ↦
          let last : j ≡ length hist = omega (arith, length-append hist (c ∷ [])) in
          let here : s.next_index ≡ j % ring_size = omega (arith, r.next) in
          rw (← here, last)
            (get_elem?-set_self s.candles s.next_index (some c) (omega (arith, r.next, r.sized))
              ∙ ap some (sym (get_elem?-append_length hist [] c)))
    ];
    free = λ i h k.
        get_elem?-set_ne s.candles s.next_index i (some c)
          (λ e. omega (arith, e, r.next, length-append hist (c ∷ [])))
        ∙ r.free i (omega (arith, length-append hist (c ∷ []))) k;
  }

  -- The statistics after a history of candles, each with the time of its push.
  unfoldable pub push_all :
      List (Time × Candle d.Number) → Symbol24hStats d.Number → Symbol24hStats d.Number
  push_all [] s = s
  push_all ((now, c) ∷ hist) s = push_all hist (push_candle d now c s)

  -- The open price that a history leads to.
  abbrev pub opening : List (Candle d.Number) → d.Number
  opening hist =
      if leb ring_size (length hist)
      then open_or d (get_elem? hist (length hist - ring_size)) d.zero_value
      else d.zero_value

  slot-some :
      (xs : List (Option (Candle d.Number))) (i : ℕ) (o : Option (Candle d.Number))
      → get_elem? xs i ≡ some o
      → slot xs i ≡ o
  slot-some xs i o e = rw (slot, e) refl

  -- The slot that the next candle will take over holds the oldest of 1440 candles.
  oldest :
      (hist : List (Candle d.Number)) (s : Symbol24hStats d.Number)
      → Reflects hist s
      → ring_size ≤ length hist
      → slot s.candles s.next_index ≡ get_elem? hist (length hist - ring_size)
  oldest hist s r h =
      let i = length hist - ring_size in
      let here : i % ring_size ≡ s.next_index = omega (arith, r.next) in
      slot-some s.candles s.next_index (get_elem? hist i) (
        subst (λ k. get_elem? s.candles k ≡ some (get_elem? hist i)) here
          (r.recent i (omega arith) (omega arith)))

  not_yet :
      (hist : List (Candle d.Number)) (s : Symbol24hStats d.Number)
      → Reflects hist s
      → length hist < ring_size
      → slot s.candles s.next_index ≡ none
  not_yet hist s r h =
      slot-some s.candles s.next_index none
        (r.free s.next_index (omega (arith, r.next)) (omega (arith, r.next)))

  opening-full :
      (hist : List (Candle d.Number))
      → ring_size ≤ length hist
      → opening hist ≡ open_or d (get_elem? hist (length hist - ring_size)) d.zero_value
  opening-full hist h = ground arith

  opening-short :
      (hist : List (Candle d.Number)) → length hist < ring_size → opening hist ≡ d.zero_value
  opening-short hist h = ground arith

  open_or-default :
      (xs : List (Candle d.Number)) (i : ℕ) (v w : d.Number)
      → i < length xs
      → open_or d (get_elem? xs i) v ≡ open_or d (get_elem? xs i) w
  open_or-default [] i v w h = elim h [ ]
  open_or-default (x ∷ xs) zero v w h = refl
  open_or-default (x ∷ xs) (suc i) v w h = open_or-default xs i v w (omega arith)

  push_candle-open :
      (now : Time) (c : Candle d.Number) (hist : List (Candle d.Number))
      (s : Symbol24hStats d.Number)
      → Reflects hist s
      → s.open_24h ≡ opening hist
      → (push_candle d now c s).open_24h ≡ opening (hist ++ (c ∷ []))
  unfolding push_candle
  push_candle-open now c hist s r e =
      let q = push_candle-Reflects now c hist s r in
      let hist' = hist ++ (c ∷ []) in
      elim (dec_lt (length hist') ring_size) [
        | no full ↦
            rw
              (
                opening-full hist' (omega arith),
                oldest hist' (push_candle d now c s) q (omega arith),
              )
              (open_or-default hist' (length hist' - ring_size) _ _ (omega arith))
        | yes short ↦
            rw (opening-short hist' short, not_yet hist' (push_candle d now c s) q short)
              (e ∙ opening-short hist (omega (arith, length-append hist (c ∷ []))))
      ]

  push_all-from :
      (hist : List (Candle d.Number)) (more : List (Time × Candle d.Number))
      (s : Symbol24hStats d.Number)
      → Reflects hist s
      → s.open_24h ≡ opening hist
      → Reflects (hist ++ map (λ e. e.1) more) (push_all more s)
        × ((push_all more s).open_24h ≡ opening (hist ++ map (λ e. e.1) more))
  unfolding push_all
  push_all-from hist [] s r e = rw (append-nil hist) (r, e)
  push_all-from hist ((now, c) ∷ more) s r e =
      rw (← append_assoc hist (c ∷ []) (map (λ e. e.1) more)) (
        push_all-from (hist ++ (c ∷ [])) more (push_candle d now c s)
          (push_candle-Reflects now c hist s r) (push_candle-open now c hist s r e))

  push_all-window :
      (symbol : Bytes) (now : Time) (hist : List (Time × Candle d.Number))
      → let s = push_all hist (new_stats d symbol now) in
        Reflects (map (λ e. e.1) hist) s × (s.open_24h ≡ opening (map (λ e. e.1) hist))
  unfolding new_stats
  push_all-window symbol now hist =
      push_all-from [] hist (new_stats d symbol now) (new_stats-Reflects symbol now) refl

  -- After any history of a new symbol, each of its last 1440 candles stands in the ring, in the slot
  -- of its number in the history modulo 1440.
  pub push_all-recent :
      (symbol : Bytes) (now : Time) (hist : List (Time × Candle d.Number)) (j : ℕ)
      → j < length (map (λ e. e.1) hist)
      → length (map (λ e. e.1) hist) ≤ j + ring_size
      → get_elem? (push_all hist (new_stats d symbol now)).candles (j % ring_size)
        ≡ some (get_elem? (map (λ e. e.1) hist) j)
  push_all-recent symbol now hist j h k = (push_all-window symbol now hist).0.recent j h k

  -- After any history of a new symbol, the open price of its 24 hours is that of the candle 1440
  -- candles back once there are so many, and zero before.
  pub push_all-opening :
      (symbol : Bytes) (now : Time) (hist : List (Time × Candle d.Number))
      → (push_all hist (new_stats d symbol now)).open_24h ≡ opening (map (λ e. e.1) hist)
  push_all-opening symbol now hist = (push_all-window symbol now hist).1
