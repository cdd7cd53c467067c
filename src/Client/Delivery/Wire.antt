-- ===== src/Client/Delivery/Wire.antt =====
-- The batches that a stream gives to gRPC along a run, read as a server reads them: the samples of a
-- series are those of the batches whose header names it.
pub mod Headers
pub mod Batches
pub mod Rounds
pub mod Acks
pub mod Runs
use volta.Prelude.{ℕ, ◌≡◌, true, Option, none, some, List, [], ◌∷◌, ◌++◌, All, if◌then◌else◌}
use volta.Metric.{Metric, DeviceId, FitsKind}
use volta.Buffer.Series.{Sample, Snapshot}
use volta.Buffer.Keys.{BufferKey, key_eq, make_buffer_key}
use volta.Client.Writer.Fifo.{to_list}
use volta.Client.Stream.{MetricBatch, Reactor, on_write_done}
use volta.Client.Stream.Reach.{Reach, here, next, collects, polls, writes_done, reads_done}

-- The series that a header names.
abbrev pub key_of_header : ℕ → Option DeviceId → BufferKey
key_of_header type device =
    make_buffer_key (record { type = type; dev_id = device; value = 0; timestamp = 0 })

-- The samples of a batch: its times with its values.
abbrev pub read_samples : List ℕ → List ℕ → List Sample
read_samples (t ∷ ts) (v ∷ vs) = record { timestamp_ns = t; value = v } ∷ read_samples ts vs
read_samples _ _ = []

-- The samples of a series in a list of batches.
abbrev pub received : BufferKey → List MetricBatch → List Sample
received key [] = []
received key (b ∷ bs) =
    let rest = received key bs in
    if key_eq (key_of_header b.metric_type b.device_id) key
    then read_samples b.timestamps_ns b.values ++ rest
    else rest

-- What was given to `StartWrite` along a run.
abbrev pub sent : {n : ℕ} {r : Reactor} {l : ℕ} {t : Reactor} → Reach n r l t → List MetricBatch
sent here = []
sent (next q (collects ms room s total e)) = sent q
sent (next q (polls room s t started h e)) = sent q ++ to_list started
sent (next q (writes_done room s ok)) = sent q ++ to_list (on_write_done s ok).1
sent (next q (reads_done room s t ok id again e)) = sent q

-- Along a run, the collectors report metrics of devices of their kind, and gRPC reports a write done
-- only where one is in progress.
abbrev pub IsOrderly : {n : ℕ} {r : Reactor} {l : ℕ} {t : Reactor} → Reach n r l t → Type 0
IsOrderly here = Unit {0}
IsOrderly (next q (collects ms room s total e)) =
    All (λ (m : Metric). FitsKind m.type m.dev_id) ms × IsOrderly q
IsOrderly (next q (polls room s t started h e)) = IsOrderly q
IsOrderly (next q (writes_done room s ok)) = (s.writer.writing ≡ true) × IsOrderly q
IsOrderly (next q (reads_done room s t ok id again e)) = IsOrderly q

-- The samples of snapshots, one after the other.
abbrev pub all_samples : List Snapshot → List Sample
all_samples [] = []
all_samples (t ∷ ts) = t.samples ++ all_samples ts
