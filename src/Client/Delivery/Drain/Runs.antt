-- ===== src/Client/Delivery/Drain/Runs.antt =====
-- A run that goes on until everything is written and acknowledged.
use volta.Prelude.{
  ℕ, zero, suc, ◌+◌, ◌-◌, ◌≤◌, ◌<◌, ◌^◌, ◌≡◌, refl, sym, ap, ◌∙◌, subst, true, false, Option, some,
  List, [], ◌∷◌, ◌++◌, arith, length, Option-cases, List-cases, inl, inr, append-nil,
}
use volta.Buffer.Keys.{BufferKey}
use volta.Buffer.Metrics.{MetricsBuffer, get_all_keys, create}
use volta.Client.Writer.{pop}
use volta.Client.Writer.Waiting.{waiting}
use volta.Client.Writer.Moving.{IsMoving, on_write_done-IsMoving, queue-on_write_done}
use volta.Client.Stream.{opened, MetricBatch, Reactor, poll, on_read_done, on_write_done}
use volta.Client.Stream.Reach.{Step, Reach, next, polls, writes_done, reads_done}
use volta.Client.Delivery.{ledger, pending_for}
use volta.Client.Delivery.Progress.{read_all, ids, flush}
use volta.Client.Delivery.Once.{delivers, delivered_all}
use volta.Client.Delivery.Drain.{
  deliver, drain, drain-empties, pushed-acked_batch, overrun-acked_batch,
}
use volta.Client.Delivery.Drain.Moving.{
  poll-IsMoving, writer-on_read_done, Succeeds, Reach-IsMoving,
}
use volta.Client.Delivery.Wire.{received, sent, IsOrderly, all_samples}
use volta.Client.Delivery.Wire.Runs.{received_accounted}

-- A run that begins with another one.
pub data Extends {n : ℕ} {r : Reactor} {l : ℕ} {t : Reactor} (q : Reach n r l t)
    : (k : ℕ) → (s : Reactor) → Reach n r k s → Type 0 where
  same : Extends q l t q
  longer :
      {k j : ℕ} {s u : Reactor} {q' : Reach n r k s}
      → Extends q k s q'
      → (st : Step k s j u) → Extends q j u (next q' st)

Extends-trans :
    {n : ℕ} {r : Reactor} {l k : ℕ} {t s : Reactor} {q : Reach n r l t} {q1 : Reach n r k s} {j : ℕ}
    {u : Reactor} {q2 : Reach n r j u}
    → Extends q k s q1
    → Extends q1 j u q2
    → Extends q j u q2
Extends-trans e same = e
Extends-trans e (longer f st) = longer (Extends-trans e f) st

module _ (key : BufferKey) where
  -- A run goes on to a state, and nothing more is collected.
  record Continues {n : ℕ} {r : Reactor} {l : ℕ} {t : Reactor} (q : Reach n r l t) (s : Reactor)
      : Type 0 where
    run : Reach n r l s
    extends : Extends q l s run
    pushed : (ledger key run).pushed ≡ (ledger key q).pushed
    overrun : (ledger key run).overrun ≡ (ledger key q).overrun
    orderly : IsOrderly q → IsOrderly run

  stays : {n : ℕ} {r : Reactor} {l : ℕ} {t : Reactor} (q : Reach n r l t) → Continues q t
  stays q = record { run = q; extends = same; pushed = refl; overrun = refl; orderly = λ o. o }

  goes_on :
      {n : ℕ} {r : Reactor} {l : ℕ} {t s u : Reactor} {q : Reach n r l t} (c : Continues q s)
      → Continues c.run u
      → Continues q u
  goes_on c d = record {
    run = d.run;
    extends = Extends-trans c.extends d.extends;
    pushed = d.pushed ∙ c.pushed;
    overrun = d.overrun ∙ c.overrun;
    orderly = λ o. d.orderly (c.orderly o);
  }

  read_all-Continues :
      (more : List ℕ) {n : ℕ} {r : Reactor} {l : ℕ} {t s : Reactor} (q : Reach n r l t)
      → read_all more t ≡ some s
      → Continues q s × (s.writer ≡ t.writer)
  read_all-Continues [] {t = t} {s} q e =
      subst (λ (x : Reactor). Continues q x × (x.writer ≡ t.writer))
        (let f : t ≡ s = ground arith in f) (stays q, refl)
  read_all-Continues (id ∷ more) {l = l} {t} {s} q e =
      elim (Option-cases (on_read_done t true id)) [
        | inl null ↦ absurd (ground arith)
        | inr ((u, again), done) ↦
            let (c, kept) =
              read_all-Continues more (next q (reads_done l t u true id again done))
                (let f : read_all more u ≡ some s = ground (arith, done) in f) in
            (
              goes_on
                  (record {
                    run = next q (reads_done l t u true id again done);
                    extends = longer same (reads_done l t u true id again done);
                    pushed = pushed-acked_batch key t id (ledger key q);
                    overrun = overrun-acked_batch key t id (ledger key q);
                    orderly = λ o. o;
                  })
                  c,
              kept ∙ writer-on_read_done t true id done,
            )
      ]

  flush-Continues :
      (k : ℕ) {n : ℕ} {r : Reactor} {l : ℕ} {t : Reactor} (q : Reach n r l t)
      → IsMoving t.writer
      → length t.writer.queue ≡ k
      → Continues q (flush k t) × IsMoving (flush k t).writer × ((flush k t).writer.queue ≡ [])
  unfolding on_write_done
  flush-Continues zero {t = t} q moving e =
      (stays q, moving, ground (arith, List-cases t.writer.queue))
  flush-Continues (suc k) {l = l} {t} q moving e =
      let busy : t.writer.writing ≡ true = ground (arith, List-cases t.writer.queue) in
      let less : length (pop t.writer.queue) ≡ k = ground (arith, List-cases t.writer.queue) in
      let (c, moves, empty) =
        flush-Continues k (next q (writes_done l t true)) (on_write_done-IsMoving t.writer)
          (ap length (queue-on_write_done t.writer) ∙ less) in
      (
        goes_on
            (record {
              run = next q (writes_done l t true);
              extends = longer same (writes_done l t true);
              pushed = refl;
              overrun = refl;
              orderly = λ o. (busy, o);
            })
            c,
        moves,
        empty,
      )

  deliver-Continues :
      {n : ℕ} {r : Reactor} {l : ℕ} {t s : Reactor} (q : Reach n r l t)
      → IsMoving t.writer
      → deliver t ≡ some s
      → Continues q s × IsMoving s.writer × (s.writer.queue ≡ [])
  deliver-Continues {t = t} q moving e =
      let (c, moves, empty) = flush-Continues (length t.writer.queue) q moving refl in
      let (d, kept) = read_all-Continues (ids t.pending_snapshots) c.run e in
      (goes_on c d, subst IsMoving (sym kept) moves, ap (λ w. w.queue) kept ∙ empty)

  drain-Continues :
      {n : ℕ} {r : Reactor} {l : ℕ} {t r1 r2 s : Reactor} {started : Option MetricBatch}
      (q : Reach n r l t)
      → IsMoving t.writer
      → deliver t ≡ some r1
      → r1.batch_id_counter + length (get_all_keys r1.buffer) < 2 ^ 64
      → poll r1 ≡ some (r2, started)
      → deliver r2 ≡ some s
      → Continues q s × IsMoving s.writer × (s.writer.queue ≡ [])
  drain-Continues {l = l} {r1 = r1} {r2} {started = started} q moving first small polled second =
      let (c, moves, _) = deliver-Continues q moving first in
      let st = polls l r1 r2 started small polled in
      let (d, moves', empty) =
        deliver-Continues (next c.run st) (poll-IsMoving r1 moves polled) second in
      (
        goes_on c (
            goes_on
              (record {
                run = next c.run st;
                extends = longer same st;
                pushed = refl;
                overrun = refl;
                orderly = λ o. o;
              })
              d),
        moves',
        empty,
      )

module _ (key : BufferKey) (window interval : ℕ) {m : MetricsBuffer} {l : ℕ} {t : Reactor}
    (made : create window interval ≡ some m) (wide : interval ≤ window)
    (q : Reach (2 ^ 64 - 1) (opened m) l t) where
  -- On a run of a stream opened over the buffer of a configuration whose time window holds at least one
  -- interval, on which no write and no read failed, whatever is queued and pending: gRPC can write what is
  -- queued and the server acknowledge what is pending, the poll thread can make a round, gRPC can write
  -- what is then queued and the server acknowledge what is then pending. Each of these ends. The run goes
  -- on by them, still with each write reported done while it is in progress, collects nothing more, and ends with nothing queued and nothing pending; every sample that
  -- was collected for the series is in the batches that gRPC was given, read by the batches' headers, and
  -- is acknowledged, each once and in order. The series' ring never held more than its capacity when
  -- samples came; the collectors report devices of their metrics' kind, gRPC reports a write done only
  -- while one is in progress, and the counters of the rings and the batch ids do not wrap along the run and
  -- the round.
  pub drained :
      IsOrderly q
      → Succeeds q
      → (ledger key q).overrun ≡ false
      → t.batch_id_counter + length (get_all_keys t.buffer) < 2 ^ 64
      → (s : Reactor) × (q' : Reach (2 ^ 64 - 1) (opened m) l s) × (drain t ≡ some s)
        × Extends q l s q'
        × IsOrderly q'
        × (s.pending_snapshots ≡ [])
        × (s.writer.queue ≡ [])
        × ((ledger key q').pushed ≡ (ledger key q).pushed)
        × (received key (sent q') ≡ (ledger key q).pushed)
        × ((ledger key q').acked ≡ (ledger key q).pushed)
  drained orderly succeeds kept small =
      let (r1, r2, s, started, first, small', polled, second, none_pending, empties) =
        drain-empties key (delivers key window interval made wide q).sound small in
      let (c, moving, empty) =
        drain-Continues key q (Reach-IsMoving q succeeds) first small' polled second in
      let acked : (ledger key c.run).acked ≡ (ledger key q).pushed =
        sym (append-nil (ledger key c.run).acked)
        ∙ ap (λ xs. (ledger key c.run).acked ++ xs) (sym empties)
        ∙ delivered_all key window interval made wide c.run (c.overrun ∙ kept)
        ∙ c.pushed in
      let none_waiting : waiting s.writer ≡ [] = ground arith in
      (
        s,
        c.run,
        ground (arith, first, polled, second),
        c.extends,
        c.orderly orderly,
        none_pending,
        empty,
        c.pushed,
        ap (received key)
              (sym (append-nil (sent c.run)) ∙ ap (λ bs. sent c.run ++ bs) (sym none_waiting))
            ∙ received_accounted key window interval made wide c.run (c.orderly orderly)
            ∙ ap (λ ps. (ledger key c.run).acked ++ all_samples (pending_for key ps)) none_pending
            ∙ append-nil (ledger key c.run).acked
            ∙ acked,
        acked,
      )
