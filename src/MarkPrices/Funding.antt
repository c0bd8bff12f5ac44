-- ===== src/MarkPrices/Funding.antt =====
-- The time of the next funding, and the funding basis.
use nyyu_market.Prelude.{
  ℕ, ◌+◌, ◌*◌, ◌/◌, List, [], ◌∷◌, Bool, true, false, Option, none, some, if◌then◌else◌, ◌==◌, ◌≡◌,
  ◌∙◌, refl, sym, ap, All, All-append, arith,
}
use mathlib.Core.Path.{ap₂}
use nyyu_market.Prelude.Text.{Bytes}
use nyyu_market.Prelude.Maps.{load, bytes_key, All-load, All-store}
use nyyu_market.Decimal.{Decimal, DecimalSums, DecimalProducts}
use nyyu_market.Models.Candle.{MarkPrice}
use nyyu_market.Time.{Time, hour}
use nyyu_market.Time.Laws.{date-date_of}
use nyyu_market.Aggregator.Exchange
use nyyu_market.Aggregator.Exchange.{ExchangeAggregator}
use nyyu_market.MarkPrices.{
  Service, next_funding_time, next_funding_hour, next_ema, ema_or, mark_price_of,
  calculate_mark_price, update_mark_price, new_service, with_published,
}

-- Eight hours.
abbrev pub shift : ℕ
shift = 8 * hour

-- The next funding is at the first multiple of eight hours that is later than the instant.
pub next_funding_time_lem : (now : Time) → next_funding_time now ≡ (now / shift + 1) * shift
unfolding next_funding_time
next_funding_time_lem now = rw (date-date_of now 0 (next_funding_hour now) 0) (ground arith)

-- A mark price that is its index price.
abbrev pub IsIndex : (d : Decimal) → MarkPrice d.Number → Type 0
IsIndex d m = (m.mark_price ≡ m.index_price) × (m.funding_basis ≡ d.zero_value)

module _ (d : Decimal) where
  open d use {Number}

  -- Updates of mark prices, each at an instant and of a symbol, with what the aggregator then has.
  unfoldable pub update_all :
      ℕ → List (Time × Bytes × ExchangeAggregator Number) → Service Number → Service Number
  update_all period [] svc = svc
  update_all period ((now, symbol, agg) ∷ us) svc =
      update_all period us (update_mark_price d period now symbol agg svc)

module _ (d : Decimal) (s : DecimalSums d) (p : DecimalProducts d) where
  open d use {Number, zero_value, add, sub}

  sub_self : (a : Number) → sub a a ≡ zero_value
  sub_self a = ap (λ x. sub x a) (sym (s.zero-add a)) ∙ s.sub-add zero_value a

  next_ema-zero : (period : ℕ) → next_ema d period zero_value zero_value ≡ zero_value
  unfolding next_ema
  next_ema-zero period = ap₂ add (p.zero-mul _) (p.zero-mul _) ∙ s.zero-add zero_value

  -- Nothing was stored, or zero.
  abbrev IsZero : Option Number → Type 0
  IsZero none = Unit {0}
  IsZero (some x) = x ≡ zero_value

  ema_or-zero : (o : Option Number) → IsZero o → ema_or d o zero_value ≡ zero_value
  ema_or-zero none h = refl
  ema_or-zero (some x) h = h

  mark_price_of-IsIndex :
      (period : ℕ) (now : Time) (symbol : Bytes) (index_price : Number) (stored : Option Number)
      → IsZero stored
      → IsIndex d (mark_price_of d period now symbol index_price stored)
  unfolding mark_price_of
  mark_price_of-IsIndex period now symbol index_price stored h =
      rw (sub_self index_price, ema_or-zero stored h, next_ema-zero period)
        (s.add_comm index_price zero_value ∙ s.zero-add index_price, refl)

  -- Every average that is kept is zero, and what was published is an index price.
  pub record IsFlat (svc : Service Number) : Type 0 where
    pub averages : All (λ e. e.1 ≡ zero_value) svc.funding_basis_ema
    pub prices : All (IsIndex d) svc.published

  stored-IsZero :
      (symbol : Bytes) (m : List (Bytes × Number)) (o : Option Number)
      → load symbol m ≡ o
      → All (λ e. e.1 ≡ zero_value) m
      → IsZero o
  stored-IsZero symbol m none e h = tt
  stored-IsZero symbol m (some x) e h = All-load (λ e'. e'.1 ≡ zero_value) symbol m h e

  if-IsFlat :
      (b : Bool) (x y : Option (MarkPrice Number) × Service Number)
      → IsFlat (with_published d x)
      → IsFlat (with_published d y)
      → IsFlat (with_published d (if b then x else y))
  if-IsFlat true x y h k = h
  if-IsFlat false x y h k = k

  update_mark_price-IsFlat :
      (period : ℕ) (now : Time) (symbol : Bytes) (agg : ExchangeAggregator Number)
      (svc : Service Number)
      → IsFlat svc
      → IsFlat (update_mark_price d period now symbol agg svc)
  unfolding update_mark_price calculate_mark_price
  update_mark_price-IsFlat period now symbol agg svc w =
      let q = Exchange.get_aggregated_price d symbol agg in
      let stored = load symbol svc.funding_basis_ema in
      let m =
        mark_price_of-IsIndex period now symbol q.0 stored
          (stored-IsZero symbol svc.funding_basis_ema stored refl w.averages) in
      if-IsFlat (q.1 == 0) _ _ w (record {
        averages = All-store (λ e. e.1 ≡ zero_value) symbol _ svc.funding_basis_ema m.1 w.averages;
        prices = All-append (IsIndex d) svc.published _ w.prices (m, tt);
      })

  update_all-IsFlat :
      (period : ℕ) (us : List (Time × Bytes × ExchangeAggregator Number)) (svc : Service Number)
      → IsFlat svc
      → IsFlat (update_all d period us svc)
  unfolding update_all
  update_all-IsFlat period [] svc w = w
  update_all-IsFlat period ((now, symbol, agg) ∷ us) svc w =
      update_all-IsFlat period us _ (update_mark_price-IsFlat period now symbol agg svc w)

  -- By the laws of decimal sums and products: whatever updates a new service makes, each mark price
  -- that it publishes is the index price, and its funding basis is zero.
  pub update_all-IsIndex :
      (period : ℕ) (us : List (Time × Bytes × ExchangeAggregator Number))
      → All (IsIndex d) (update_all d period us (new_service d)).published
  update_all-IsIndex period us =
      (update_all-IsFlat period us (new_service d) (record { averages = tt; prices = tt })).prices
