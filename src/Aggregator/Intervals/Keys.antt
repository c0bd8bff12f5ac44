-- ===== src/Aggregator/Intervals/Keys.antt =====
-- The keys of the aggregators' maps, "symbol:interval:opentime" and "symbol:interval", and the
-- prefix by which a loop picks the entries of one symbol and interval.
use mathlib.Core.List.{append_assoc}
use nyyu_market.Prelude.{
  ℕ, List, [], ◌∷◌, ◌++◌, Bool, true, false, if◌then◌else◌, ◌≡◌, ◌↔◌, refl, sym, ap, ◌∙◌, arith,
}
use nyyu_market.Prelude.Text.{
  Bytes, bytes_eq, has_proper_prefix, has_proper_prefix-append, append_of_has_proper_prefix,
  NoColon, append-colon_inj, format_int, format_int_inj, format_int-ne-nil,
}
use nyyu_market.Models.Interval.{Interval, text, s1, other, valid_intervals}

-- `fmt.Sprintf("%s:%s:%d", symbol, interval, open_time)`
unfoldable pub candle_key : Bytes → Interval → ℕ → Bytes
candle_key symbol interval open_time =
    symbol ++ (b':' ∷ (text interval ++ (b':' ∷ format_int open_time)))

-- `fmt.Sprintf("%s:%s", symbol, interval)`
unfoldable pub series_key : Bytes → Interval → Bytes
series_key symbol interval = symbol ++ (b':' ∷ text interval)

-- `fmt.Sprintf("%s:%s:", symbol, interval)`
unfoldable pub series_prefix : Bytes → Interval → Bytes
series_prefix symbol interval = symbol ++ (b':' ∷ (text interval ++ (b':' ∷ [])))

-- An interval that the program names.
abbrev pub is_named : Interval → Bool
is_named (other s) = false
is_named _ = true

text-NoColon : (i : Interval) → is_named i ≡ true → NoColon (text i)
unfolding text
text-NoColon (other s) h = cc
text-NoColon s1 h = omega arith
text-NoColon i h = omega arith

-- The first named interval with a given text.
read_from : Bytes → List Interval → Interval
read_from s [] = other s
read_from s (i ∷ is) = let rest = read_from s is in if bytes_eq (text i) s then i else rest

read_text : (i : Interval) → is_named i ≡ true → read_from (text i) valid_intervals ≡ i
unfolding read_from bytes_eq text
read_text (other s) h = cc
read_text s1 h = refl
read_text i h = refl

text_inj : (i j : Interval) → is_named i ≡ true → is_named j ≡ true → text i ≡ text j → i ≡ j
text_inj i j h k e = sym (read_text i h) ∙ ap (λ s. read_from s valid_intervals) e ∙ read_text j k

-- A key determines its parts, if no symbol has a colon.
pub candle_key_inj :
    (s t : Bytes) (i j : Interval) (m n : ℕ)
    → NoColon s
    → NoColon t
    → is_named i ≡ true
    → is_named j ≡ true
    → candle_key s i m ≡ candle_key t j n
    → (s ≡ t) × (i ≡ j) × (m ≡ n)
unfolding candle_key
candle_key_inj s t i j m n hs ht hi hj e =
    let (p, q) = append-colon_inj s t hs ht e in
    let (p', q') = append-colon_inj (text i) (text j) (text-NoColon i hi) (text-NoColon j hj) q in
    (p, text_inj i j hi hj p', format_int_inj m n q')

pub series_key_inj :
    (s t : Bytes) (i j : Interval)
    → NoColon s
    → NoColon t
    → is_named i ≡ true
    → is_named j ≡ true
    → series_key s i ≡ series_key t j
    → (s ≡ t) × (i ≡ j)
unfolding series_key
series_key_inj s t i j hs ht hi hj e =
    let (p, q) = append-colon_inj s t hs ht e in (p, text_inj i j hi hj q)

-- A key is its prefix with the open time behind it.
candle_key_eq :
    (s : Bytes) (i : Interval) (n : ℕ) → candle_key s i n ≡ series_prefix s i ++ format_int n
unfolding candle_key series_prefix
candle_key_eq s i n =
    sym (append_assoc s _ _ ∙ ap (λ r. s ++ (b':' ∷ r)) (append_assoc (text i) _ _))

series_prefix-append_inj :
    (s t : Bytes) (i j : Interval) (u v : Bytes)
    → NoColon s
    → NoColon t
    → is_named i ≡ true
    → is_named j ≡ true
    → series_prefix s i ++ u ≡ series_prefix t j ++ v
    → (s ≡ t) × (i ≡ j)
unfolding series_prefix
series_prefix-append_inj s t i j u v hs ht hi hj e =
    let (p, q) = append-colon_inj s t hs ht (sym (append_assoc s _ u) ∙ e ∙ append_assoc t _ v) in
    let (p', _) =
      append-colon_inj (text i) (text j) (text-NoColon i hi) (text-NoColon j hj)
        (sym (append_assoc (text i) _ u) ∙ q ∙ append_assoc (text j) _ v) in
    (p, text_inj i j hi hj p')

-- For symbols without a colon and intervals that the program names: the prefix of a symbol and an
-- interval picks exactly the keys made of these two.
pub has_series_prefix_iff :
    (s t : Bytes) (i j : Interval) (n : ℕ)
    → NoColon s
    → NoColon t
    → is_named i ≡ true
    → is_named j ≡ true
    → (has_proper_prefix (series_prefix s i) (candle_key t j n) ≡ true) ↔ ((s ≡ t) × (i ≡ j))
has_series_prefix_iff s t i j n hs ht hi hj = (
  λ h.
      let (r, e) = append_of_has_proper_prefix (series_prefix s i) (candle_key t j n) h in
      series_prefix-append_inj s t i j r (format_int n) hs ht hi hj (sym e ∙ candle_key_eq t j n),
  λ same.
      rw (candle_key_eq t j n, same.0, same.1)
        (has_proper_prefix-append (series_prefix t j) (format_int n) (format_int-ne-nil n)),
)
