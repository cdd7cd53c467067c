-- ===== src/Client/Delivery.antt =====
-- The stream of metrics from end to end: what was collected for one series, beside what the server
-- has acknowledged of it, along a run of the scheduler, the poll thread and the server.
pub mod Track
pub mod Batches
pub mod Rounds
pub mod Cover
pub mod Progress
pub mod Steps
pub mod Once
pub mod Wire
pub mod Drain
use volta.Prelude.{
  ℕ, ◌+◌, Bool, true, false, ◌||◌, Option, none, some, List, [], ◌∷◌, ◌++◌, ltb, if◌then◌else◌,
  length,
}
use volta.Metric.{Metric}
use volta.Buffer.Series.{Sample, SeriesBuffer, Snapshot}
use volta.Buffer.Series.Unsent.{unsent}
use volta.Buffer.Keys.{BufferKey, key_eq}
use volta.Buffer.Metrics.{MetricsBuffer}
use volta.Buffer.Metrics.Lookup.{ring}
use volta.Buffer.Metrics.Series.{samples_for}
use volta.Client.Stream.{Pending, Reactor, find_pending}
use volta.Client.Stream.Reach.{Reach, here, next, collects, polls, writes_done, reads_done}

-- What was pushed to the series, what was acknowledged of it, and whether its ring ever had to drop
-- a sample that was not acknowledged.
pub record Ledger : Type 0 where
  pub pushed : List Sample
  pub acked : List Sample
  pub overrun : Bool

abbrev pub no_entries : Ledger
no_entries = record { pushed = []; acked = []; overrun = false }

-- Samples come to a ring.
abbrev pub push_entries : SeriesBuffer → List Sample → Ledger → Ledger
push_entries b xs g = record {
  pushed = g.pushed ++ xs;
  acked = g.acked;
  overrun = g.overrun || ltb b.capacity (length (unsent b) + length xs);
}

-- A snapshot is acknowledged.
abbrev pub ack_entries : Snapshot → Ledger → Ledger
ack_entries t g = record g { acked = g.acked ++ t.samples }

module _ (key : BufferKey) where
  -- The server acknowledges a batch id.
  abbrev pub acked_batch : Reactor → ℕ → Ledger → Ledger
  acked_batch r id g = elim (find_pending id r.pending_snapshots) [
    | none ↦ g
    | some (k, t) ↦ if key_eq k key then ack_entries t g else g
  ]

  -- The ledger of a series along a run.
  abbrev pub ledger : {n : ℕ} {r : Reactor} {l : ℕ} {t : Reactor} → Reach n r l t → Ledger
  ledger here = no_entries
  ledger (next q (collects ms room s total e)) =
      push_entries (ring s.buffer key) (samples_for key ms) (ledger q)
  ledger (next q (polls room s t started h e)) = ledger q
  ledger (next q (writes_done room s ok)) = ledger q
  ledger (next q (reads_done room s t ok id again e)) =
      let before = ledger q in if ok then acked_batch s id before else before

  -- The pending snapshots of the series.
  abbrev pub pending_for : Pending → List Snapshot
  pending_for [] = []
  pending_for ((i, k, t) ∷ ps) =
      let rest = pending_for ps in if key_eq k key then t ∷ rest else rest
