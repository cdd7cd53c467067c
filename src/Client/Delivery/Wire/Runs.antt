-- ===== src/Client/Delivery/Wire/Runs.antt =====
-- What a server receives of a series along a run, against what was collected for it.
use mathlib.Core.List.{Sublist, sublist-append_left}
use mathlib.Core.List.Sublist
use volta.Prelude.{
  ℕ, ◌-◌, ◌≤◌, ◌<◌, ◌^◌, ◌≡◌, refl, sym, ap, ◌∙◌, subst, false, some, List, [], ◌∷◌, ◌++◌, arith,
  take, drop, All, append-nil, append_assoc, take-sublist, take-append-drop,
}
use volta.Buffer.Series.{Sample, SeriesBuffer, Snapshot}
use volta.Buffer.Series.Bounds.{IsValid}
use volta.Buffer.Keys.{BufferKey}
use volta.Buffer.Metrics.{MetricsBuffer, get_all_keys, create}
use volta.Buffer.Metrics.Lookup.{ring}
use volta.Client.Writer
use volta.Client.Writer.Waiting.{waiting, IsBusy, waiting-on_write_done, on_write_done-IsBusy}
use volta.Client.Writer.Fifo.{to_list}
use volta.Client.Stream.{opened, Reactor, MetricBatch, on_write_done}
use volta.Client.Stream.Reach.{Step, Reach, here, next, collects, polls, writes_done, reads_done}
use volta.Client.Delivery.{Ledger, ledger, no_entries, pending_for}
use volta.Client.Delivery.Track.{Tracked, ack-Tracked}
use volta.Client.Delivery.Rounds.{poll-Kept}
use volta.Client.Delivery.Steps.{Delivers, ring-Fits, Reach-Delivers}
use volta.Client.Delivery.Once.{delivers, opened-Delivers, room-created, created}
use volta.Client.Delivery.Wire.{received, sent, IsOrderly, all_samples}
use volta.Client.Delivery.Wire.Headers.{IsPlain, add_metrics-IsPlain}
use volta.Client.Delivery.Wire.Batches.{Accounted, received-append}
use volta.Client.Delivery.Wire.Rounds.{poll-Accounted}
use volta.Client.Delivery.Wire.Acks.{on_read_done-Accounted}

-- What was acknowledged and what is pending are, in order, among the first samples that were pushed,
-- and are just those where none was dropped.
taken :
    (b : SeriesBuffer) (ts : List Snapshot) (g : Ledger)
    → IsValid b
    → Tracked b ts g
    → (n : ℕ) × Sublist (g.acked ++ all_samples ts) (take n g.pushed)
      × (g.overrun ≡ false → g.acked ++ all_samples ts ≡ take n g.pushed)
taken b [] g v k = (
  k.upto,
  subst (λ xs. Sublist xs (take k.upto g.pushed)) (sym (append-nil g.acked)) k.in_order,
  λ e. append-nil g.acked ∙ (k.exact e).0,
)
taken b (t ∷ []) g v k =
    let after = ack-Tracked v t k in
    (
      after.upto,
      subst (λ xs. Sublist (g.acked ++ xs) (take after.upto g.pushed)) (sym (append-nil t.samples))
          after.in_order,
      λ e. ap (λ xs. g.acked ++ xs) (append-nil t.samples) ∙ (after.exact e).0,
    )
taken b (t ∷ u ∷ ts) g v k = absurd (omega (arith, k.single))

IsOrderly-next :
    {n k l : ℕ} {r s t : Reactor} (q : Reach n r k s) (st : Step k s l t)
    → IsOrderly (next q st)
    → IsOrderly q
IsOrderly-next q (collects ms room r total e) o = o.1
IsOrderly-next q (polls room r r' started h e) o = o
IsOrderly-next q (writes_done room r ok) o = o.1
IsOrderly-next q (reads_done room r r' ok id again e) o = o

module _ (key : BufferKey) where
  record Wired (r : Reactor) (g : Ledger) (bs : List MetricBatch) : Type 0 where
    plain : All IsPlain (get_all_keys r.buffer)
    busy : IsBusy r.writer
    accounted : Accounted key r bs g.acked

  module _ (c : ℕ) where
    Step-Wired :
        {n k l : ℕ} {r s t : Reactor} (q : Reach n r k s) (st : Step k s l t)
        → IsOrderly (next q st)
        → Delivers key c k s (ledger key q)
        → Wired s (ledger key q) (sent q)
        → Wired t (ledger key (next q st)) (sent (next q st))
    unfolding on_write_done
    Step-Wired q (collects ms room r total e) o d w = record {
      plain = add_metrics-IsPlain ms r.buffer o.0 w.plain;
      busy = w.busy;
      accounted = w.accounted;
    }
    Step-Wired q (polls room r r' started h e) o d w =
        let (_, same) = poll-Kept key d.sound h e d.kept in
        let (a, busy) =
          poll-Accounted key (sent q) (ledger key q).acked d.sound w.plain w.busy h e w.accounted in
        record {
          plain = subst (λ m. All IsPlain (get_all_keys m)) (sym same) w.plain;
          busy = busy;
          accounted = a;
        }
    Step-Wired q (writes_done room r ok) o d w = record {
      plain = w.plain;
      busy = on_write_done-IsBusy r.writer ok w.busy;
      accounted =
          ap (received key) (
            append_assoc (sent q) (to_list (Writer.on_write_done r.writer ok).1)
              (waiting (Writer.on_write_done r.writer ok).0)
            ∙ ap (λ cs. sent q ++ cs) (waiting-on_write_done r.writer ok o.0))
          ∙ w.accounted;
    }
    Step-Wired q (reads_done room r r' ok id again e) o d w =
        let (a, (same, keys)) =
          on_read_done-Accounted key (sent q) (ledger key q) ok id d.sound d.kept.single e
            w.accounted in
        record {
          plain = subst (All IsPlain) (sym keys) w.plain;
          busy = subst IsBusy (sym same) w.busy;
          accounted = a;
        }

    Reach-Wired :
        (pos : 0 < c) {n : ℕ} {r : Reactor} {l : ℕ} {t : Reactor} (q : Reach n r l t)
        → IsOrderly q
        → Delivers key c n r no_entries
        → Wired r no_entries []
        → Wired t (ledger key q) (sent q)
    Reach-Wired pos here o d w = w
    Reach-Wired pos (next q st) o d w =
        Step-Wired q st o (Reach-Delivers key c pos q d)
          (Reach-Wired pos q (IsOrderly-next q st o) d w)

opened-Wired :
    (key : BufferKey) (window interval : ℕ) {m : MetricsBuffer}
    → create window interval ≡ some m
    → Wired key (opened m) no_entries []
unfolding create get_all_keys
opened-Wired key window interval {m} e =
    subst (λ (m : MetricsBuffer). Wired key (opened m) no_entries []) (created window interval e).1
      (record { plain = tt; busy = λ h. absurd (ground arith); accounted = refl })

module _ (key : BufferKey) (window interval : ℕ) {m : MetricsBuffer} {l : ℕ} {t : Reactor}
    (made : create window interval ≡ some m) (wide : interval ≤ window)
    (q : Reach (2 ^ 64 - 1) (opened m) l t) (orderly : IsOrderly q) where
  -- From a stream opened over the buffer of a configuration whose time window holds at least one
  -- interval, whatever the scheduler, the poll thread and the server do, and in whatever order: of any
  -- series, the samples in the batches that gRPC was given or that wait for it, read by the batches'
  -- headers, are those that the server has acknowledged, followed by those that are pending. The
  -- collectors report devices of their metrics' kind, gRPC reports a write done only while one is in
  -- progress, and the counters of the rings and the batch ids do not wrap along the run.
  pub received_accounted :
      received key (sent q ++ waiting t.writer)
      ≡ (ledger key q).acked ++ all_samples (pending_for key t.pending_snapshots)
  received_accounted =
      (Reach-Wired key m.capacity_per_series (room-created window interval made wide) q orderly
        (opened-Delivers key window interval made)
        (opened-Wired key window interval made)).accounted

  received_parts :
      received key (sent q) ++ received key (waiting t.writer)
      ≡ (ledger key q).acked ++ all_samples (pending_for key t.pending_snapshots)
  received_parts = sym (received-append key (sent q) (waiting t.writer)) ∙ received_accounted

  prefix_of_pushed :
      (n : ℕ) × Sublist (received key (sent q)) (take n (ledger key q).pushed)
      × ((ledger key q).overrun ≡ false
          → received key (sent q) ++ received key (waiting t.writer) ≡ take n (ledger key q).pushed)
  prefix_of_pushed =
      let d = delivers key window interval made wide q in
      let (n, among, exact) =
        taken (ring t.buffer key) (pending_for key t.pending_snapshots) (ledger key q)
          (ring-Fits key d.sound.buffer).valid d.kept in
      (
        n,
        Sublist.trans
            (sublist-append_left (received key (sent q)) (received key (waiting t.writer)))
            (subst (λ xs. Sublist xs (take n (ledger key q).pushed)) (sym received_parts) among),
        λ e. received_parts ∙ exact e,
      )

  -- On a run as in `received_accounted`, with its conditions on the configuration, the collectors, gRPC
  -- and the counters: the samples of a series that gRPC was given, read by the batches' headers, are
  -- some of those that were collected for it, in the order of collection and none twice.
  pub received_once : Sublist (received key (sent q)) (ledger key q).pushed
  received_once =
      Sublist.trans prefix_of_pushed.1 (take-sublist prefix_of_pushed.0 (ledger key q).pushed)

  -- On a run as in `received_accounted`, with its conditions, on which the series' ring never held more
  -- than its capacity when samples came: the samples of the series that gRPC was given are the first of
  -- those that were collected for it, in order and with none left out.
  pub received_all :
      (ledger key q).overrun ≡ false
      → (rest : List Sample) × (received key (sent q) ++ rest ≡ (ledger key q).pushed)
  received_all e =
      let (n, _, exact) = prefix_of_pushed in
      (
        received key (waiting t.writer) ++ drop n (ledger key q).pushed,
        sym (
              append_assoc (received key (sent q)) (received key (waiting t.writer))
                (drop n (ledger key q).pushed))
            ∙ ap (λ xs. xs ++ drop n (ledger key q).pushed) (exact e)
            ∙ take-append-drop n (ledger key q).pushed,
      )
