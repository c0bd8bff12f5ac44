-- ===== src/Aggregator/Handlers/Answers.antt =====
-- What is reported of a stream that was asked for.
use nyyu_market.Prelude.{
  ℕ, ◌+◌, List, [], ◌∷◌, Bool, true, false, Option, none, some, if◌then◌else◌, ltb, length, All,
  ◌≡◌, refl, arith, Bool-cases, inl, inr,
}
use nyyu_market.Prelude.Text.{Bytes, codes, bytes_eq}
use nyyu_market.Prelude.Strings.{NoByte, strip, cut_prefix, to_upper}
use nyyu_market.Prelude.Json.{Json, Fields, get, as_list}
use nyyu_market.Prelude.Maps.{load, bytes_key, nat_key}
use nyyu_market.Decimal.{Decimal}
use nyyu_market.Models.Interval.{Interval, m1, m5, m15, m30, h1, h4, d1, w1}
use nyyu_market.Models.Candle.{Candle}
use nyyu_market.Time.{Time}
use nyyu_market.Aggregator.Names.{
  convert_interval_to_okx, convert_interval_to_bybit, convert_interval_to_kraken,
}
use nyyu_market.Aggregator.Subscribe.{okx_arg, parse_interval}
use nyyu_market.Aggregator.Subscribe.Pairs.{strip-insert_before}
use nyyu_market.Aggregator.Handlers.Report.{reported}
use nyyu_market.Aggregator.Handlers.Readers.{
  interval_of_okx, interval_of_bybit, interval_of_kraken, okx_candles, okx_entries, okx_entry,
}

-- The intervals that the handlers of Bybit and OKX know, and that of Kraken.
abbrev pub is_read : Interval → Bool
is_read m1 = true
is_read m5 = true
is_read m15 = true
is_read m30 = true
is_read h1 = true
is_read h4 = true
is_read d1 = true
is_read w1 = true
is_read _ = false

abbrev pub is_read_of_kraken : Interval → Bool
is_read_of_kraken w1 = false
is_read_of_kraken i = is_read i

-- The name that Bybit, OKX and Kraken are sent for an interval is read back as the interval if the
-- handler knows it, and as one minute if it does not: 3m, 2h, 6h, 12h and 1M are asked for under names
-- of their own and read back as 1m, and so is a week of Kraken's.
pub intervals_read_back :
    (i : Interval)
    → (interval_of_bybit (convert_interval_to_bybit i) ≡ (if is_read i then i else m1))
      × (interval_of_okx (convert_interval_to_okx i) ≡ (if is_read i then i else m1))
      × (interval_of_kraken (false, convert_interval_to_kraken i)
          ≡ (if is_read_of_kraken i then i else m1))
unfolding interval_of_bybit convert_interval_to_bybit interval_of_okx convert_interval_to_okx
    interval_of_kraken convert_interval_to_kraken cut_prefix load bytes_eq
intervals_read_back m1 = (refl, refl, refl)
intervals_read_back _ = (refl, refl, refl)

-- The number of arrays of seven entries at least.
abbrev pub full_one : Option (List Json) → ℕ
full_one none = 0
full_one (some us) = if ltb (length us) 7 then 0 else 1

unfoldable pub full_entries : List Json → ℕ
full_entries [] = 0
full_entries (v ∷ vs) = full_one (as_list (some v)) + full_entries vs

module _ (d : Decimal) (new_from_string : Bytes → Option d.Number) where
  open d use {Number}

  -- So many candles, all of one symbol and interval.
  abbrev pub AreOf : Bytes → Interval → ℕ → List (Candle Number) → Type 0
  AreOf symbol interval n cs =
      (length cs ≡ n) × All (λ c. (c.symbol ≡ symbol) × (c.interval ≡ interval)) cs

  module _ (now : Time) (msg arg : Fields) (symbol : Bytes) (interval : Interval)
      (instrument channel : Bytes) (a : get (codes "arg") msg ≡ some (Json.obj arg))
      (i : get (codes "instId") arg ≡ some (Json.str instrument))
      (c : get (codes "channel") arg ≡ some (Json.str channel)) (s : strip b'-' instrument ≡ symbol)
      (t : interval_of_okx channel ≡ interval) where
    okx_entry-AreOf :
        (n : ℕ) (o : Option (List Json)) (cs : List (Candle Number))
        → AreOf symbol interval n cs
        → AreOf symbol interval (full_one o + n) (okx_entry d new_from_string now msg o cs)
    unfolding reported
    okx_entry-AreOf n none cs h = (omega (arith, h.0), h.1)
    okx_entry-AreOf n (some us) cs h = elim (Bool-cases (ltb (length us) 7)) [
      | inl e ↦ rw e (omega (arith, h.0), h.1)
      | inr e ↦ rw (e, a, i, c) (omega (arith, h.0), ((s, t), h.1))
    ]

    okx_entries-AreOf :
        (vs : List Json)
        → AreOf symbol interval (full_entries vs) (okx_entries d new_from_string now msg vs)
    unfolding okx_entries full_entries
    okx_entries-AreOf [] = (refl, tt)
    okx_entries-AreOf (v ∷ vs) =
        okx_entry-AreOf (full_entries vs) (as_list (some v))
          (okx_entries d new_from_string now msg vs) (okx_entries-AreOf vs)

  -- OKX is asked for a stream of a symbol without a dash. A message whose argument names the channel
  -- and the instrument that were asked for reports one candle for each of its data that has seven
  -- entries at least, all of the stream's symbol in upper case, and of its interval if the handler
  -- knows that, else of one minute.
  pub okx_candles-AreOf :
      (now : Time) (msg arg : Fields) (symbol interval : Bytes) (vs : List Json)
      → NoByte b'-' (to_upper symbol)
      → get (codes "arg") msg ≡ some (Json.obj arg)
      → get (codes "instId") arg ≡ some (Json.str (okx_arg (symbol, interval)).1)
      → get (codes "channel") arg ≡ some (Json.str (okx_arg (symbol, interval)).0)
      → as_list (get (codes "data") msg) ≡ some vs
      → AreOf
          (to_upper symbol)
          (if is_read (parse_interval interval) then parse_interval interval else m1)
          (full_entries vs)
          (okx_candles d new_from_string now msg)
  unfolding okx_candles
  okx_candles-AreOf now msg arg symbol interval vs h a i c e =
      rw (e, okx_candles)
        (okx_entries-AreOf now msg arg (to_upper symbol) _ _ _ a i c
          (strip-insert_before b'-' 4 (to_upper symbol) h)
          (intervals_read_back (parse_interval interval)).1 vs)
