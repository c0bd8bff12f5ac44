-- ===== src/Aggregator/Handlers/EventTime.antt =====
-- Binance's messages have their event time under "E".
use nyyu_market.Prelude.{Bool, true, false, ◌&&◌, Option, none, some, ◌≡◌, ◌⊎◌, inl, inr, refl}
use nyyu_market.Prelude.Text.{Bytes, codes, bytes_eq}
use nyyu_market.Prelude.Strings.{Integer, to_lower}
use nyyu_market.Prelude.Json.{Json, Fields}
use nyyu_market.Prelude.Maps.{load, bytes_key}
use nyyu_market.Decimal.{Decimal}
use nyyu_market.Time.{Time}
use nyyu_market.Aggregator.Realtime.{RealtimeCandleAggregator}
use nyyu_market.Aggregator.Handlers.Report.{process_each}
use nyyu_market.Aggregator.Handlers.Binance.{
  BinanceKlineMessage, TopField, field_of, folded, top_tags, set_field, set_message, decode,
  binance_candles, no_message, if_ok,
}
use nyyu_market.Aggregator.Handlers.{process_binance_message}

-- The object has this value under this key.
abbrev pub Has : Bytes → Json → Fields → Type 0
Has k v Fields.end = ⊥
Has k v (Fields.field j w fs) = ((j ≡ k) × (w ≡ v)) ⊎ Has k v fs

event_time-field : field_of (codes "E") top_tags ≡ some TopField.event_type
unfolding field_of folded load to_lower bytes_eq
event_time-field = refl

set_event_time :
    (n : Integer) (m : BinanceKlineMessage)
    → (set_field (field_of (codes "E") top_tags) (Json.int n) m).1 ≡ false
unfolding set_field
set_event_time n m = rw event_time-field refl

and_false : (a : Bool) → (a && false) ≡ false
and_false true = refl
and_false false = refl

set_message-Has :
    (n : Integer) (fs : Fields) (m : BinanceKlineMessage)
    → Has (codes "E") (Json.int n) fs
    → (set_message fs m).1 ≡ false
unfolding set_message
set_message-Has n Fields.end m h = absurd h
set_message-Has n (Fields.field j w fs) m (inl (p, q)) = rw (p, q, set_event_time n m)
set_message-Has n (Fields.field j w fs) m (inr h) =
    rw (set_message-Has n fs (set_field (field_of j top_tags) w m).0 h)
      (and_false (set_field (field_of j top_tags) w m).1)

if_ok-false : (p : BinanceKlineMessage × Bool) → p.1 ≡ false → if_ok p ≡ none
if_ok-false (m, true) h = cc
if_ok-false (m, false) h = refl

-- A message of Binance that has a number under "E", which is where its event time stands, changes
-- nothing: the key falls to the field of the event's type, whose tag is "e", so that the message is
-- taken for one that cannot be parsed.
pub process_binance_message-event_time :
    (d : Decimal) (new_from_string : Bytes → Option d.Number) (unmarshal : Bytes → Option Json)
    (now : Time) (message : Bytes) (fs : Fields) (n : Integer)
    (st : RealtimeCandleAggregator d.Number)
    → unmarshal message ≡ some (Json.obj fs)
    → Has (codes "E") (Json.int n) fs
    → process_binance_message d new_from_string unmarshal now message st ≡ st
unfolding process_binance_message binance_candles decode process_each
process_binance_message-event_time d new_from_string unmarshal now message fs n st e h =
    rw (e, if_ok-false (set_message fs no_message) (set_message-Has n fs no_message h))
