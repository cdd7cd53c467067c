-- ===== src/Agent.antt =====
-- The agent's threads together, over the buffer that they share: the collection loop and the command
-- handler of scheduler.cc, the poll thread of client/stream_metrics_reactor.cc, and gRPC's callbacks with
-- what the server acknowledges. Each method of a ring runs under its lock, and so does each change of the
-- stream's queues, so that what the threads do is a sequence of steps. A round of the poll thread is one
-- step: it takes at most one snapshot of each ring, so that for any one ring what another thread does
-- during the round comes before that snapshot or after it.
pub mod Runs
pub mod Delivered
use volta.Prelude.{
  ℕ, ◌+◌, ◌<◌, ◌^◌, ◌≡◌, true, Bool, Option, some, List, [], ◌++◌, All, length, if◌then◌else◌,
}
use volta.Metric.{Metric, FitsKind}
use volta.Buffer.Keys.{BufferKey}
use volta.Buffer.Metrics.{get_all_keys}
use volta.Buffer.Metrics.Lookup.{ring}
use volta.Buffer.Metrics.Series.{samples_for}
use volta.Exporter.{Printer}
use volta.Scheduler.{Scheduler, Event, collected, commanded, step}
use volta.Client.Writer.Fifo.{to_list}
use volta.Client.Stream.{MetricBatch, Reactor, poll, on_read_done, on_write_done}
use volta.Client.Delivery.{Ledger, no_entries, push_entries, acked_batch}

-- The stream holds the shared buffer; the scheduler's is a copy of it, renewed before each step.
pub record Agent : Type 0 where
  pub scheduler : Scheduler
  pub stream : Reactor

abbrev pub sharing : Agent → Scheduler
sharing a = record a.scheduler { buffer = a.stream.buffer }

abbrev pub metrics_of : Event → List Metric
metrics_of (collected metrics) = metrics
metrics_of (commanded disk now message) = []

module _ (p : Printer) where
  -- The steps, with the room for samples that is left. The premise of a poll says that the batch ids do
  -- not wrap; gRPC reports a write done only where one is in progress.
  pub data Step : ℕ → Agent → ℕ → Agent → Type 0 where
    schedules :
        (room : ℕ) (a : Agent) (ev : Event) (s : Scheduler) (total : ℕ)
        → total ≡ length (metrics_of ev) + room
        → step p (sharing a) ev ≡ some s
        → Step total a room
            (record { scheduler = s; stream = record a.stream { buffer = s.buffer } })
    polls :
        (room : ℕ) (a : Agent) (r : Reactor) (started : Option MetricBatch)
        → a.stream.batch_id_counter + length (get_all_keys a.stream.buffer) < 2 ^ 64
        → poll a.stream ≡ some (r, started)
        → Step room a room (record a { stream = r })
    writes_done :
        (room : ℕ) (a : Agent) (ok : Bool)
        → a.stream.writer.writing ≡ true
        → Step room a room (record a { stream = (on_write_done a.stream ok).0 })
    reads_done :
        (room : ℕ) (a : Agent) (r : Reactor) (ok : Bool) (id : ℕ) (again : Bool)
        → on_read_done a.stream ok id ≡ some (r, again)
        → Step room a room (record a { stream = r })

  pub data Reach (n : ℕ) (a : Agent) : ℕ → Agent → Type 0 where
    here : Reach n a n a
    next : {k l : ℕ} {b c : Agent} → Reach n a k b → Step k b l c → Reach n a l c

  -- The metrics that the loop collected along a run, in order.
  abbrev pub all_collected : {n : ℕ} {a : Agent} {l : ℕ} {b : Agent} → Reach n a l b → List Metric
  all_collected here = []
  all_collected (next q (schedules room a ev s total e f)) = all_collected q ++ metrics_of ev
  all_collected (next q (polls room a r started h e)) = all_collected q
  all_collected (next q (writes_done room a ok h)) = all_collected q
  all_collected (next q (reads_done room a r ok id again e)) = all_collected q

  -- What was given to `StartWrite`.
  abbrev pub all_sent : {n : ℕ} {a : Agent} {l : ℕ} {b : Agent} → Reach n a l b → List MetricBatch
  all_sent here = []
  all_sent (next q (schedules room a ev s total e f)) = all_sent q
  all_sent (next q (polls room a r started h e)) = all_sent q ++ to_list started
  all_sent (next q (writes_done room a ok h)) = all_sent q ++ to_list (on_write_done a.stream ok).1
  all_sent (next q (reads_done room a r ok id again e)) = all_sent q

  -- The ledger of a series.
  abbrev pub entries : BufferKey → {n : ℕ} {a : Agent} {l : ℕ} {b : Agent} → Reach n a l b → Ledger
  entries key here = no_entries
  entries key (next q (schedules room a (collected ms) s total e f)) =
      push_entries (ring a.stream.buffer key) (samples_for key ms) (entries key q)
  entries key (next q (schedules room a (commanded disk now message) s total e f)) = entries key q
  entries key (next q (polls room a r started h e)) = entries key q
  entries key (next q (writes_done room a ok h)) = entries key q
  entries key (next q (reads_done room a r ok id again e)) =
      let before = entries key q in if ok then acked_batch key a.stream id before else before
