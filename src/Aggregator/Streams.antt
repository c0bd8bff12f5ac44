-- ===== src/Aggregator/Streams.antt =====
-- The reference counts of internal/services/aggregator/exchange_aggregator.go: `subscriptions` for
-- each symbol and interval, and `activeStreams` for each symbol's 1m stream. Symbols are ASCII.
pub mod Counts
pub mod Shared
pub mod Steps
use nyyu_market.Prelude.{
  ℕ, ◌+◌, ◌-◌, List, [], ◌∷◌, ◌++◌, Bool, true, false, ◌&&◌, Option, none, some, if◌then◌else◌, ltb,
  ◌==◌, length, map,
}
use nyyu_market.Prelude.Text.{Bytes, codes}
use nyyu_market.Prelude.Strings.{to_upper, to_lower}
use nyyu_market.Prelude.Int32.{inc, dec, is_positive}
use nyyu_market.Prelude.Maps.{load, store, delete, bytes_key}

-- The two maps, and the number of signals that wait in `reconnectChan`.
pub record Streams : Type 0 where
  pub active_streams : List (Bytes × ℕ)
  pub subscriptions : List (Bytes × List (Bytes × ℕ))
  pub reconnects : ℕ

abbrev pub new_streams : Streams
new_streams = record { active_streams = []; subscriptions = []; reconnects = 0 }

-- The capacity of `reconnectChan`.
abbrev pub reconnect_cap : ℕ
reconnect_cap = 10

-- A missing key reads as zero, a missing map as nil.
abbrev pub or_zero : Option ℕ → ℕ
or_zero none = 0
or_zero (some n) = n

abbrev pub or_empty : Option (List (Bytes × ℕ)) → List (Bytes × ℕ)
or_empty none = []
or_empty (some m) = m

-- `symbol@1m`, of a symbol in upper case.
unfoldable pub stream_key : Bytes → Bytes
stream_key symbol = to_lower symbol ++ codes "@1m"

-- One signal for each exchange, as far as the channel takes them.
abbrev pub send_signals : ℕ → ℕ → ℕ
send_signals exchanges waiting =
    if ltb (waiting + exchanges) reconnect_cap
    then waiting + exchanges
    else (if ltb waiting reconnect_cap then reconnect_cap else waiting)

abbrev pub subscribe_stream : Option ℕ → Bytes → ℕ → Streams → Streams
subscribe_stream none key exchanges st = record st {
  active_streams = store key 1 st.active_streams;
  reconnects = send_signals exchanges st.reconnects;
}
subscribe_stream (some n) key exchanges st = record st {
  active_streams = store key (inc n) st.active_streams;
}

-- `SubscribeToInterval`, with the number of exchanges.
unfoldable pub subscribe_to_interval : ℕ → Bytes → Bytes → Streams → Streams
subscribe_to_interval exchanges symbol interval st =
    let s = to_upper symbol in
    let m = or_empty (load s st.subscriptions) in
    let st' : Streams = record st {
      subscriptions = store s (store interval (inc (or_zero (load interval m))) m) st.subscriptions;
    } in
    subscribe_stream (load (stream_key s) st.active_streams) (stream_key s) exchanges st'

-- The inner map after a count went down to zero; an empty one is removed.
abbrev pub put_counts :
    Bytes → List (Bytes × ℕ) → List (Bytes × List (Bytes × ℕ)) → List (Bytes × List (Bytes × ℕ))
put_counts symbol m subs = if length m == 0 then delete symbol subs else store symbol m subs

abbrev pub lower_count :
    Bytes → Bytes → List (Bytes × List (Bytes × ℕ)) → List (Bytes × List (Bytes × ℕ))
lower_count symbol interval subs =
    let m = or_empty (load symbol subs) in
    let n = or_zero (load interval m) in
    if is_positive n
    then (if dec n == 0
        then put_counts symbol (delete interval m) subs
        else store symbol (store interval (dec n) m) subs)
    else subs

abbrev pub lower_stream : Option ℕ → Bytes → List (Bytes × ℕ) → List (Bytes × ℕ)
lower_stream none key streams = streams
lower_stream (some n) key streams =
    if is_positive (dec n) then store key (dec n) streams else delete key streams

-- `UnsubscribeFromInterval`
unfoldable pub unsubscribe_from_interval : Bytes → Bytes → Streams → Streams
unsubscribe_from_interval symbol interval st =
    let s = to_upper symbol in
    record st {
      subscriptions = lower_count s interval st.subscriptions;
      active_streams =
          lower_stream (load (stream_key s) st.active_streams) (stream_key s) st.active_streams;
    }

-- What the users of the service ask for.
pub data Request : Type 0 where
  subscribe : Bytes → Bytes → Request
  unsubscribe : Bytes → Bytes → Request

module _ (exchanges : ℕ) where
  abbrev pub serve : Request → Streams → Streams
  serve (Request.subscribe symbol interval) st = subscribe_to_interval exchanges symbol interval st
  serve (Request.unsubscribe symbol interval) st = unsubscribe_from_interval symbol interval st

  unfoldable pub serve_all : List Request → Streams → Streams
  serve_all [] st = st
  serve_all (r ∷ rs) st = serve_all rs (serve r st)
