-- ===== src/Client/Stream.antt =====
-- sources/agent/src/client/stream_metrics_reactor.h and stream_metrics_reactor.cc. The buffer is
-- shared with the scheduler, so it is a part of the state; what is given to `StartWrite` and
-- `StartRead` is handed out. The poll thread's sleeps are left out.
pub mod Device
pub mod Pending
pub mod Poll
pub mod Valid
pub mod Rounds
pub mod Acks
pub mod Reach
use volta.Prelude.{
  ℕ, ◌%◌, ◌+◌, ◌^◌, Bool, true, false, ◌&&◌, Option, none, some, List, [], ◌∷◌, ◌++◌, map, ◌==◌,
  Text, ltb, leb, if◌then◌else◌, is_empty, add64,
}
use volta.Metric.{DeviceId}
use volta.Buffer.Series.{Sample, SeriesBuffer, Snapshot, get_snapshot}
use volta.Buffer.Keys.{BufferKey}
use volta.Buffer.Metrics.{MetricsBuffer, get_buffer, get_all_keys, ack}
use volta.Client.Writer
use volta.Client.Writer.{Writer, idle}
use volta.Client.Connect.{Action, add_metadata, start_call, start_read}

-- `MetricBatch`, with its header's fields.
pub record MetricBatch : Type 0 where
  pub id : ℕ
  pub metric_type : ℕ
  pub device_id : Option DeviceId
  pub timestamps_ns : List ℕ
  pub values : List ℕ

abbrev pub Pending : Type 0
Pending = List (ℕ × BufferKey × Snapshot)

pub record Reactor : Type 0 where
  pub buffer : MetricsBuffer
  pub pending_snapshots : Pending
  pub writer : Writer MetricBatch
  pub batch_id_counter : ℕ

-- A reactor over the shared buffer, with the initial values of its members.
abbrev pub opened : MetricsBuffer → Reactor
opened buffer = record {
  buffer = buffer;
  pending_snapshots = [];
  writer = idle;
  batch_id_counter = 0;
}

-- The constructor for an agent's id: the reactor and the calls of gRPC, before the poll thread starts.
unfoldable pub create : Text → MetricsBuffer → Reactor × List Action
create id buffer = (opened buffer, add_metadata id ∷ start_call ∷ start_read ∷ [])

-- The device of a batch's header: the ranges of the metric types decide which fields are read.
unfoldable pub header_device : BufferKey → Option DeviceId
header_device key =
    if leb 100 key.metric_type && ltb key.metric_type 200
    then some (DeviceId.cpu key.socket_index key.core_index)
    else if leb 200 key.metric_type && ltb key.metric_type 300
    then some (DeviceId.gpu key.pci_domain key.pci_bus key.pci_device key.pci_function)
    else if leb 400 key.metric_type && ltb key.metric_type 500
    then some (DeviceId.disk key.disk_major key.disk_minor)
    else if leb 500 key.metric_type && ltb key.metric_type 600
    then some (DeviceId.net key.ifindex)
    else none

unfoldable pub make_batch : ℕ → BufferKey → Snapshot → MetricBatch
unfolding header_device
make_batch id key snapshot = record {
  id = id;
  metric_type = key.metric_type;
  device_id = header_device key;
  timestamps_ns = map (λ s. s.timestamp_ns) snapshot.samples;
  values = map (λ s. s.value) snapshot.samples;
}

-- `pending_snapshots_.find`
unfoldable pub find_pending : ℕ → Pending → Option (BufferKey × Snapshot)
find_pending id [] = none
find_pending id ((i, k, t) ∷ rest) = if i == id then some (k, t) else find_pending id rest

-- `pending_snapshots_.erase`
unfoldable pub erase_pending : ℕ → Pending → Pending
erase_pending id [] = []
erase_pending id ((i, k, t) ∷ rest) = if i == id then rest else (i, k, t) ∷ erase_pending id rest

-- `pending_snapshots_.emplace`: an id that is there already keeps its snapshot.
unfoldable pub emplace_pending : ℕ → BufferKey → Snapshot → Pending → Pending
emplace_pending id key t [] = (id, key, t) ∷ []
emplace_pending id key t ((i, k, u) ∷ rest) =
    if i == id then (i, k, u) ∷ rest else (i, k, u) ∷ emplace_pending id key t rest

-- The second half of `EnqueueMetrics(key)`: number the batch, note it as pending, queue it.
unfoldable pub enqueue_snapshot : Reactor → BufferKey → Snapshot → Reactor
unfolding emplace_pending make_batch
enqueue_snapshot r key snapshot = if is_empty snapshot.samples then r else record r {
  pending_snapshots = emplace_pending r.batch_id_counter key snapshot r.pending_snapshots;
  writer = Writer.push r.writer (make_batch r.batch_id_counter key snapshot);
  batch_id_counter = add64 r.batch_id_counter 1;
}

-- `EnqueueMetrics(key)`; `none` is the call through a null `GetBuffer(key)`, or the exception of
-- `GetSnapshot`, which ends the process, since the poll thread does not catch it.
unfoldable pub enqueue_key : Reactor → BufferKey → Option Reactor
unfolding enqueue_snapshot
enqueue_key r key = elim (get_buffer r.buffer key) [
  | none ↦ none
  | some b ↦ elim (get_snapshot b) [
    | none ↦ none
    | some snapshot ↦ some (enqueue_snapshot r key snapshot)
  ]
]

unfoldable pub enqueue_keys : Reactor → List BufferKey → Option Reactor
unfolding enqueue_key
enqueue_keys r [] = some r
enqueue_keys r (key ∷ keys) = elim (enqueue_key r key) [
  | none ↦ none
  | some r' ↦ enqueue_keys r' keys
]

-- `EnqueueMetrics()`
unfoldable pub enqueue_metrics : Reactor → Option Reactor
unfolding enqueue_keys
enqueue_metrics r = enqueue_keys r (get_all_keys r.buffer)

-- `Write()`
unfoldable pub write : Reactor → Reactor × Option MetricBatch
write r = (record r { writer = (Writer.write r.writer).0 }, (Writer.write r.writer).1)

-- The rest of a round, once metrics were enqueued: `Write` only where something is pending.
unfoldable pub after_enqueue : Reactor → Reactor × Option MetricBatch
unfolding write
after_enqueue r = if is_empty r.pending_snapshots then (r, none) else write r

-- One round of the poll thread's loop. With batches pending it only sleeps.
unfoldable pub poll : Reactor → Option (Reactor × Option MetricBatch)
unfolding enqueue_metrics after_enqueue
poll r =
    if is_empty r.pending_snapshots
    then elim (enqueue_metrics r) [ none ↦ none | some r' ↦ some (after_enqueue r') ]
    else some (r, none)

-- The body of `OnReadDone` under the lock; `none` is the call through a null `GetBuffer(key)`.
unfoldable pub acknowledge : Reactor → ℕ → Option Reactor
unfolding find_pending erase_pending
acknowledge r batch_id = elim (find_pending batch_id r.pending_snapshots) [
  | none ↦ some r
  | some (key, snapshot) ↦ elim (ack r.buffer key snapshot) [
    | none ↦ none
    | some buffer ↦ some (record r {
      buffer = buffer;
      pending_snapshots = erase_pending batch_id r.pending_snapshots;
    })
  ]
]

-- `OnReadDone`, with the acknowledged id; the flag says that `StartRead` is called again.
unfoldable pub on_read_done : Reactor → Bool → ℕ → Option (Reactor × Bool)
unfolding acknowledge
on_read_done r false batch_id = some (r, false)
on_read_done r true batch_id = elim (acknowledge r batch_id) [
  | none ↦ none
  | some r' ↦ some (r', true)
]

-- `OnWriteDone`
unfoldable pub on_write_done : Reactor → Bool → Reactor × Option MetricBatch
on_write_done r ok = (
  record r { writer = (Writer.on_write_done r.writer ok).0 },
  (Writer.on_write_done r.writer ok).1,
)
