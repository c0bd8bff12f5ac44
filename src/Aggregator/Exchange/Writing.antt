-- ===== src/Aggregator/Exchange/Writing.antt =====
-- The workers that share a batch hand every candle on.
use nyyu_market.Prelude.{
  ℕ, ◌+◌, ◌≤◌, ◌<◌, List, [], ◌∷◌, ◌++◌, Option, ◌==◌, length, length-append, All, All-append, ◌≡◌,
  sym, ap, ◌∙◌, inl, inr, arith, Bool-cases,
}
use mathlib.Core.List.{flatten, append-nil, append_assoc}
use nyyu_market.Models.Candle.{Candle}
use nyyu_market.Aggregator.Exchange.{
  Writer, flush_batch, append_candle, Workers, receive, flush_by, Writes, taking, WritesAll,
}

module _ {Number : Type 0} where
  -- All that was put into the batch.
  abbrev pub taken : Writer Number → List (Candle Number)
  taken w = flatten w.handed_on ++ w.current_batch

  flatten-append_one :
      (bs : List (List (Candle Number))) (b : List (Candle Number))
      → flatten (bs ++ (b ∷ [])) ≡ flatten bs ++ b
  unfolding flatten
  flatten-append_one [] b = append-nil b
  flatten-append_one (a ∷ bs) b = rw (flatten-append_one bs b) (sym (append_assoc a (flatten bs) b))

  taken-flush : (w : Writer Number) → taken (flush_batch w) ≡ taken w
  unfolding flush_batch
  taken-flush w = elim (Bool-cases (length w.current_batch == 0)) [
    | inl e ↦ rw e
    | inr n ↦ rw n (
        append-nil (flatten (w.handed_on ++ (w.current_batch ∷ [])))
        ∙ flatten-append_one w.handed_on w.current_batch)
  ]

  -- A batch that is handed on has a candle, and fewer than the size and the number of workers.
  abbrev pub Fits : ℕ → ℕ → List (Candle Number) → Type 0
  Fits workers size b = (0 < length b) × (length b < size + workers)

  -- Each candle above the size has a worker that is about to flush.
  pub record IsWriter (workers size : ℕ) (ws : Workers Number) : Type 0 where
    pub waiting : length ws.writer.current_batch < size + ws.flushing
    pub busy : ws.flushing ≤ workers
    pub batches : All (Fits workers size) ws.writer.handed_on

  flush-IsWriter :
      (workers size n : ℕ) (ws : Workers Number)
      → 0 < size
      → n ≤ ws.flushing
      → IsWriter workers size ws
      → IsWriter workers size (flush_by n ws)
  unfolding flush_batch
  flush-IsWriter workers size n ws h k v =
      let w = ws.writer in
      elim (Bool-cases (length w.current_batch == 0)) [
        | inl e ↦ rw e (record {
          waiting = ground (arith, e, h);
          busy = omega (arith, k, v.busy);
          batches = v.batches;
        })
        | inr e ↦ rw e (record {
          waiting = omega (arith, h);
          busy = omega (arith, k, v.busy);
          batches =
              All-append (Fits workers size) w.handed_on (w.current_batch ∷ []) v.batches
                ((ground (arith, e), omega (arith, v.waiting, v.busy)), tt);
        })
      ]

  receive-IsWriter :
      (workers size : ℕ) (c : Candle Number) (ws : Workers Number)
      → ws.flushing < workers
      → IsWriter workers size ws
      → IsWriter workers size (receive size c ws)
  unfolding receive append_candle
  receive-IsWriter workers size c ws l v =
      let n = length-append ws.writer.current_batch (c ∷ []) in
      record {
        waiting = ground (arith, n, v.waiting);
        busy = ground (arith, l);
        batches = v.batches;
      }

  taken-receive :
      (size : ℕ) (c : Candle Number) (ws : Workers Number)
      → taken (receive size c ws).writer ≡ taken ws.writer ++ (c ∷ [])
  unfolding receive append_candle
  taken-receive size c ws =
      sym (append_assoc (flatten ws.writer.handed_on) ws.writer.current_batch (c ∷ []))

  Writes-kept :
      {workers size : ℕ} {ws ws' : Workers Number} {o : Option (Candle Number)}
      → 0 < size
      → Writes workers size ws o ws'
      → IsWriter workers size ws
      → IsWriter workers size ws' × (taken ws'.writer ≡ taking (taken ws.writer) o)
  Writes-kept {workers} {size} h (Writes.candle c ws l) v =
      (receive-IsWriter workers size c ws l v, taken-receive size c ws)
  Writes-kept {workers} {size} h (Writes.flush n ws e) v =
      (flush-IsWriter workers size n ws h (omega (arith, e)) v, taken-flush ws.writer)
  Writes-kept {workers} {size} h (Writes.tick ws l) v =
      (flush-IsWriter workers size ws.flushing ws h (omega arith) v, taken-flush ws.writer)

  -- For a batch size that is not zero, and however the steps of the workers that share a batch are
  -- interleaved: the batches that were taken out of it, one behind the other, and the candles that
  -- wait in it are the candles that entered it, each once and in their order. Each batch that was
  -- taken out has one candle at least, and fewer than the size and the number of workers together;
  -- fewer than the size wait, but for one for each worker that is about to flush.
  pub WritesAll-IsWriter :
      {workers size : ℕ} {cs : List (Candle Number)} {ws : Workers Number}
      → 0 < size
      → WritesAll workers size cs ws
      → IsWriter workers size ws × (taken ws.writer ≡ cs)
  unfolding flatten
  WritesAll-IsWriter {workers} {size} h WritesAll.start =
      (record { waiting = omega (arith, h); busy = omega arith; batches = tt }, ground arith)
  WritesAll-IsWriter h (WritesAll.step {o = o} r st) =
      let (v, t) = WritesAll-IsWriter h r in
      let (v', t') = Writes-kept h st v in (v', t' ∙ ap (λ x. taking x o) t)
