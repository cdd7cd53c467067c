-- ===== src/Agent/Delivered.antt =====
-- From the collectors to the server: what the loop collects is what the server acknowledges and receives.
use mathlib.Core.List.{Sublist}
use volta.Prelude.{ℕ, ◌-◌, ◌≤◌, ◌^◌, ◌≡◌, sym, ap, ◌∙◌, subst, false, some, List, ◌++◌, All}
use volta.Buffer.Series.{Sample}
use volta.Buffer.Series.Unsent.{unsent}
use volta.Buffer.Keys.{BufferKey}
use volta.Buffer.Metrics.{MetricsBuffer, create}
use volta.Buffer.Metrics.Lookup.{ring}
use volta.Buffer.Metrics.Series.{samples_for}
use volta.Exporter.{Printer}
use volta.Scheduler.{Scheduler}
use volta.Client.Stream.{opened}
use volta.Client.Delivery.{Ledger, ledger}
use volta.Client.Delivery.Once.{delivered_all}
use volta.Client.Delivery.Wire.{received, sent}
use volta.Client.Delivery.Wire.Runs.{received_all, received_once}
use volta.Agent.{Agent, Reach, all_collected, all_sent, entries}
use volta.Agent.Runs.{Fits, Follows, Reach-Follows, pushed-entries}

module _ (p : Printer) (key : BufferKey) (window interval : ℕ) {m : MetricsBuffer} {l : ℕ}
    {s : Scheduler} {b : Agent} (made : create window interval ≡ some m) (wide : interval ≤ window)
    (q : Reach p (2 ^ 64 - 1) (record { scheduler = s; stream = opened m }) l b) where
  run :
      Follows key
        (2 ^ 64 - 1)
        (opened m)
        l
        b.stream
        (entries p key q)
        (all_sent p q)
        (all_collected p q)
  run = Reach-Follows p key q

  pushed : (ledger key run.run).pushed ≡ samples_for key (all_collected p q)
  pushed = ap (λ (g : Ledger). g.pushed) run.same_ledger ∙ pushed-entries p key q

  received-sent : received key (sent run.run) ≡ received key (all_sent p q)
  received-sent = ap (received key) run.same_batches

  -- An agent whose stream was just opened over the buffer of a configuration whose time window holds at
  -- least one interval runs, with the events of its loop and command handler, the rounds of its poll
  -- thread and the callbacks in any order, with any commands that can be read and whatever the server
  -- acknowledges; gRPC reports a write done only while one is in progress, and the counters of the
  -- rings and the batch ids do not wrap. If the ring of a series never held more than its capacity when
  -- samples came, then the samples of the series that the server has acknowledged, followed by those
  -- that the ring has still to send, are those of the metrics that the loop collected for it, each once
  -- and in order.
  pub acknowledged-collected :
      (entries p key q).overrun ≡ false
      → (entries p key q).acked ++ unsent (ring b.stream.buffer key)
        ≡ samples_for key (all_collected p q)
  acknowledged-collected e =
      ap (λ (g : Ledger). g.acked ++ unsent (ring b.stream.buffer key)) (sym run.same_ledger)
      ∙ delivered_all key window interval made wide run.run
          (ap (λ (g : Ledger). g.overrun) run.same_ledger ∙ e)
      ∙ pushed

  -- An agent whose stream was just opened over the buffer of a configuration whose time window holds at
  -- least one interval runs, with the events of its loop and command handler, the rounds of its poll
  -- thread and the callbacks in any order, with any commands that can be read and whatever the server
  -- acknowledges; gRPC reports a write done only while one is in progress, and the counters of the
  -- rings and the batch ids do not wrap. Where the collectors report devices of their metrics' kind,
  -- the samples of a series in the batches that gRPC was given, read by the batches' headers, are some
  -- of those of the metrics that the loop collected for it, in the order of collection and none twice,
  -- whether or not its ring ran over.
  pub received-collected :
      All Fits (all_collected p q)
      → Sublist (received key (all_sent p q)) (samples_for key (all_collected p q))
  received-collected fits =
      subst (λ xs. Sublist xs (samples_for key (all_collected p q))) received-sent
        (subst (Sublist (received key (sent run.run))) pushed
          (received_once key window interval made wide run.run (run.orderly fits)))

  -- An agent whose stream was just opened over the buffer of a configuration whose time window holds at
  -- least one interval runs, with the events of its loop and command handler, the rounds of its poll
  -- thread and the callbacks in any order, with any commands that can be read and whatever the server
  -- acknowledges; gRPC reports a write done only while one is in progress, and the counters of the
  -- rings and the batch ids do not wrap. Where the collectors report devices of their metrics' kind,
  -- and the ring of a series never held more than its capacity when samples came, the samples of the
  -- series in the batches that gRPC was given, read by the batches' headers, are the first of those of
  -- the metrics that the loop collected for it, each once and in order.
  pub received_first-collected :
      All Fits (all_collected p q)
      → (entries p key q).overrun ≡ false
      → (rest : List Sample) × (received key (all_sent p q) ++ rest
          ≡ samples_for key (all_collected p q))
  received_first-collected fits e =
      let (rest, first) =
        received_all key window interval made wide run.run (run.orderly fits)
          (ap (λ (g : Ledger). g.overrun) run.same_ledger ∙ e) in
      (rest, ap (λ xs. xs ++ rest) (sym received-sent) ∙ first ∙ pushed)
