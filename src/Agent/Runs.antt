-- ===== src/Agent/Runs.antt =====
-- A run of the agent is a run of its stream, and what the loop collected is what the server gets.
use volta.Prelude.{
  ℕ, ◌≡◌, refl, sym, ap, ◌∙◌, subst, true, false, some, List, [], ◌∷◌, ◌++◌, All, arith, append-nil,
  Option-cases, inl, inr, if◌then◌else◌,
}
use volta.Metric.{Metric, FitsKind}
use volta.Buffer.Keys.{BufferKey}
use volta.Buffer.Metrics.{add_metrics}
use volta.Buffer.Metrics.Lookup.{ring}
use volta.Buffer.Metrics.Series.{samples_for}
use volta.Exporter.{Printer}
use volta.Scheduler.{Scheduler, Event, collected, commanded, step, parse_command}
use volta.Client.Writer.Fifo.{to_list}
use volta.Client.Stream.{MetricBatch, Reactor, on_write_done}
use volta.Client.Stream.Reach.{
  Reach as Run, here as stays, next as goes, collects as run_collects, polls as run_polls,
  writes_done as run_writes_done, reads_done as run_reads_done,
}
use volta.Client.Delivery.Drain.{pushed-acked_batch}
use volta.Client.Delivery.{Ledger, ledger, push_entries, acked_batch}
use volta.Client.Delivery.Wire.{sent, IsOrderly}
use volta.Agent.{
  Agent, sharing, metrics_of, Step, Reach, here, next, schedules, polls, writes_done, reads_done,
  all_collected, all_sent, entries,
}

samples_for-append :
    (key : BufferKey) (ms ns : List Metric)
    → samples_for key (ms ++ ns) ≡ samples_for key ms ++ samples_for key ns
samples_for-append key [] ns = refl
samples_for-append key (m ∷ ms) ns = ground (arith, samples_for-append key ms ns)

abbrev pub Fits : Metric → Type 0
Fits m = FitsKind m.type m.dev_id

All-parts : (ms ns : List Metric) → All Fits (ms ++ ns) → All Fits ms × All Fits ns
All-parts [] ns h = (tt, h)
All-parts (m ∷ ms) ns h = let (f, g) = All-parts ms ns h.1 in ((h.0, f), g)

-- A run of the stream with its ledger and its batches, from the metrics that were collected.
pub record Follows (key : BufferKey) (n : ℕ) (r : Reactor) (l : ℕ) (t : Reactor) (g : Ledger)
    (bs : List MetricBatch) (ms : List Metric) : Type 0 where
  pub run : Run n r l t
  pub same_ledger : ledger key run ≡ g
  pub same_batches : sent run ≡ bs
  pub orderly : All Fits ms → IsOrderly run

module _ (p : Printer) where
  -- A step of the loop, or of the handler, adds what was collected to the shared buffer.
  buffer-step :
      (a : Agent) (ev : Event) {s : Scheduler}
      → step p (sharing a) ev ≡ some s
      → add_metrics a.stream.buffer (metrics_of ev) ≡ s.buffer
  unfolding step add_metrics
  buffer-step a (collected ms) e = ground arith
  buffer-step a (commanded disk now message) e = elim (Option-cases (parse_command message)) [
    | inl f ↦ absurd (ground arith)
    | inr (commands, f) ↦ ground (arith, f)
  ]

  module _ (key : BufferKey) {n : ℕ} {a : Agent} where
    Step-Follows :
        {k l : ℕ} {b c : Agent} (q : Reach p n a k b) (st : Step p k b l c)
        → Follows key n a.stream k b.stream (entries p key q) (all_sent p q) (all_collected p q)
        → Follows key n a.stream l c.stream
            (entries p key (next q st))
            (all_sent p (next q st))
            (all_collected p (next q st))
    unfolding add_metrics
    Step-Follows q (schedules room b (collected ms) s total e f) w =
        subst
          (λ m.
            Follows key n a.stream room (record b.stream { buffer = m })
              (push_entries (ring b.stream.buffer key) (samples_for key ms) (entries p key q))
              (all_sent p q) (all_collected p q ++ ms))
          (buffer-step b (collected ms) f)
          (record {
            run = goes w.run (run_collects ms room b.stream total e);
            same_ledger =
                ap (push_entries (ring b.stream.buffer key) (samples_for key ms)) w.same_ledger;
            same_batches = w.same_batches;
            orderly = λ h.
                let (before, now) = All-parts (all_collected p q) ms h in (now, w.orderly before);
          })
    Step-Follows q (schedules room b (commanded disk now message) s total e f) w =
        subst
          (λ m.
            Follows key n a.stream room (record b.stream { buffer = m }) (entries p key q)
              (all_sent p q) (all_collected p q ++ []))
          (buffer-step b (commanded disk now message) f)
          (subst (λ ms. Follows key n a.stream room b.stream (entries p key q) (all_sent p q) ms)
            (sym (append-nil (all_collected p q)))
            (subst
              (λ k.
                Follows key n a.stream k b.stream (entries p key q) (all_sent p q)
                  (all_collected p q))
              (let same : total ≡ room = omega arith in same) w))
    Step-Follows q (polls room b r started h e) w = record {
      run = goes w.run (run_polls room b.stream r started h e);
      same_ledger = w.same_ledger;
      same_batches = ap (λ bs. bs ++ to_list started) w.same_batches;
      orderly = w.orderly;
    }
    Step-Follows q (writes_done room b ok h) w = record {
      run = goes w.run (run_writes_done room b.stream ok);
      same_ledger = w.same_ledger;
      same_batches = ap (λ bs. bs ++ to_list (on_write_done b.stream ok).1) w.same_batches;
      orderly = λ f. (h, w.orderly f);
    }
    Step-Follows q (reads_done room b r ok id again e) w = record {
      run = goes w.run (run_reads_done room b.stream r ok id again e);
      same_ledger = ap (λ g. if ok then acked_batch key b.stream id g else g) w.same_ledger;
      same_batches = w.same_batches;
      orderly = w.orderly;
    }

    pub Reach-Follows :
        {l : ℕ} {b : Agent} (q : Reach p n a l b)
        → Follows key n a.stream l b.stream (entries p key q) (all_sent p q) (all_collected p q)
    Reach-Follows here = record {
      run = stays;
      same_ledger = refl;
      same_batches = refl;
      orderly = λ h. tt;
    }
    Reach-Follows (next q st) = Step-Follows q st (Reach-Follows q)

    -- What went to the series is what the loop collected for it.
    pub pushed-entries :
        {l : ℕ} {b : Agent} (q : Reach p n a l b)
        → (entries p key q).pushed ≡ samples_for key (all_collected p q)
    pushed-entries here = refl
    pushed-entries (next q (schedules room b (collected ms) s total e f)) =
        ap (λ xs. xs ++ samples_for key ms) (pushed-entries q)
        ∙ sym (samples_for-append key (all_collected p q) ms)
    pushed-entries (next q (schedules room b (commanded disk now message) s total e f)) =
        pushed-entries q ∙ ap (samples_for key) (sym (append-nil (all_collected p q)))
    pushed-entries (next q (polls room b r started h e)) = pushed-entries q
    pushed-entries (next q (writes_done room b ok h)) = pushed-entries q
    pushed-entries (next q (reads_done room b r true id again e)) =
        pushed-acked_batch key b.stream id (entries p key q) ∙ pushed-entries q
    pushed-entries (next q (reads_done room b r false id again e)) = pushed-entries q
