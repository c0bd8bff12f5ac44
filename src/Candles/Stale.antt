-- ===== src/Candles/Stale.antt =====
-- A cached candle that a new one does not remove.
use nyyu_market.Prelude.{
  [], ◌∷◌, ◌++◌, Option, true, false, none, some, length, length-append, ◌≡◌, ◌≢◌, refl, ap, arith,
}
use nyyu_market.Prelude.Text.{Bytes, codes, NoColon, append-colon_inj}
use nyyu_market.Prelude.Strings.{is_empty}
use nyyu_market.Prelude.Maps.{load, delete, bytes_key, load-delete_ne}
use nyyu_market.Decimal.{Decimal}
use nyyu_market.Models.Interval.{Interval, text}
use nyyu_market.Models.Candle.{Candle}
use nyyu_market.Candles.{
  Service, one, cache_key, latest_key, create_candle, get_latest_candle, memory_of, LatestQuery,
}

length-cons_empty : (s : Bytes) → s ≢ [] → length s ≢ 0
length-cons_empty [] h e = h refl
length-cons_empty (c ∷ s) h e = absurd (omega arith)

-- A key with a source and one without differ.
source_keys :
    (symbol : Bytes) (interval : Interval) (source contract : Bytes)
    → source ≢ []
    → latest_key symbol interval source contract ≢ latest_key symbol interval [] contract
source_keys symbol interval source contract h e =
    let i = text interval in
    let t = source ++ (b':' ∷ contract) in
    absurd (
      omega (
        arith,
        ap length e,
        length-cons_empty source h,
        length-append symbol (b':' ∷ (i ++ (b':' ∷ t))),
        length-append symbol (b':' ∷ (i ++ (b':' ∷ b':' ∷ contract))),
        length-append i (b':' ∷ t),
        length-append i (b':' ∷ b':' ∷ contract),
        length-append source (b':' ∷ contract),
      ))

-- No key of a list of candles is a key of a latest candle, but for a symbol of that name.
list_keys :
    (symbol : Bytes) (interval : Interval) (source contract : Bytes) (u : Bytes)
    → NoColon symbol
    → symbol ≢ codes "latest"
    → cache_key symbol interval source contract ≢ codes "latest:" ++ u
list_keys symbol interval source contract u h n e =
    n (append-colon_inj symbol (codes "latest") h (ground arith) e).0

module _ (d : Decimal) where
  open d use {Number}

  -- The latest candle of a symbol and an interval was cached for a reader who names no source, and
  -- memory has none: there is no exchange aggregator, or it has no such candle. `CreateCandle` of a new candle that names its source leaves it there, so
  -- that such a reader still gets the old one, whatever the database would answer. The symbol has no
  -- colon and is not "latest".
  pub create_candle-stale :
      (c old : Candle Number) (latest : LatestQuery d)
      (memory : Option (Bytes → Interval → Option (Candle Number))) (s : Service d)
      → memory_of d memory [] c.symbol c.interval ≡ none
      → c.source ≢ []
      → is_empty c.contract_type ≡ false
      → NoColon c.symbol
      → c.symbol ≢ codes "latest"
      → load (latest_key c.symbol c.interval [] c.contract_type) s.cache ≡ some (one old)
      → (get_latest_candle d true latest memory c.symbol c.interval [] c.contract_type
          (create_candle d true true c s).1).0
        ≡ some old
  unfolding get_latest_candle create_candle
  create_candle-stale c old latest memory s m h k n l e = rw (
    k,
    m,
    load-delete_ne (latest_key c.symbol c.interval c.source c.contract_type)
        (latest_key c.symbol c.interval [] c.contract_type)
        (delete (cache_key c.symbol c.interval c.source c.contract_type) s.cache)
        (source_keys c.symbol c.interval c.source c.contract_type h),
    load-delete_ne (cache_key c.symbol c.interval c.source c.contract_type)
        (latest_key c.symbol c.interval [] c.contract_type) s.cache
        (list_keys c.symbol c.interval c.source c.contract_type _ n l),
    e,
  )
