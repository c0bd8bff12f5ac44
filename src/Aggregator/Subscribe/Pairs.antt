-- ===== src/Aggregator/Subscribe/Pairs.antt =====
-- The names that exchanges have for a symbol read back as the symbol.
use nyyu_market.Prelude.{
  ℕ, ◌-◌, ◌∷◌, ◌++◌, ltb, length, ◌≡◌, ◌∙◌, ap, sym, arith, Bool-cases, inl, inr,
}
use nyyu_market.Prelude.Text.{Bytes}
use nyyu_market.Prelude.Lists.{take, drop, take-drop}
use nyyu_market.Prelude.Strings.{NoByte, strip, strip-append, strip-NoByte}
use nyyu_market.Aggregator.Subscribe.{insert_before}

strip-cons : (sep : ℕ) (t : Bytes) → strip sep (sep ∷ t) ≡ strip sep t
unfolding strip
strip-cons sep t = ground arith

-- `BTCUSDT` as BTC-USDT or BTC_USDT, and back as the handlers take the separator out again.
pub strip-insert_before :
    (sep n : ℕ) (s : Bytes) → NoByte sep s → strip sep (insert_before sep n s) ≡ s
unfolding insert_before
strip-insert_before sep n s h =
    let k = length s - n in
    elim (Bool-cases (ltb n (length s))) [
      | inl t ↦ rw t (
          strip-append sep (take k s) (sep ∷ drop k s)
          ∙ ap (λ x. strip sep (take k s) ++ x) (strip-cons sep (drop k s))
          ∙ sym (strip-append sep (take k s) (drop k s))
          ∙ ap (strip sep) (take-drop k s)
          ∙ strip-NoByte sep s h)
      | inr f ↦ rw f (strip-NoByte sep s h)
    ]
