-- ===== src/Tests/Streams.antt =====
-- The stream of metrics: a sample is collected, polled, joined by another, and acknowledged.
use volta.Prelude.{
  ℕ, ◌≡◌, refl, ◌<◌, ◌^◌, ◌-◌, ◌+◌, true, some, none, Option, [], ◌∷◌, arith, length,
}
use volta.Metric.{Metric, DeviceId, gpu_power}
use volta.Buffer.Series.{new, push, push_all, get_snapshot, snapshot_of}
use volta.Buffer.Keys.{make_buffer_key, key_eq}
use volta.Buffer.Metrics.{
  get_buffer, add_metrics, add_metric, add_sample, find, update, create, get_all_keys, ack,
}
use volta.Buffer.Metrics.Valid.{create-IsConsistent}
use volta.Client.Writer.{idle}
use volta.Client.Stream.{
  Reactor, MetricBatch, poll, enqueue_metrics, enqueue_keys, enqueue_key, enqueue_snapshot,
  after_enqueue, write, find_pending, emplace_pending, header_device, acknowledge, on_read_done,
}
use volta.Client.Stream.Device.{header_device-make_buffer_key}
use volta.Client.Stream.Valid.{IsSound}
use volta.Client.Stream.Reach.{Reach, here, next, collects, polls, reads_done, Reach-IsSound}
use volta.Client.Stream.Poll.{collect, round, quiet_run, quiet_run_keeps}

abbrev pub power_at : ℕ → Metric
power_at time = record {
  type = gpu_power;
  dev_id = some (DeviceId.gpu 0 4 3 0);
  value = 50;
  timestamp = time;
}

header_device-make_buffer_key_example :
    header_device (make_buffer_key (power_at 1)) ≡ (power_at 1).dev_id
header_device-make_buffer_key_example =
    header_device-make_buffer_key (power_at 1) (omega arith, omega arith)
      (omega arith, omega arith, omega arith, omega arith)

abbrev pub empty_stream : Reactor
empty_stream = record {
  buffer = record { capacity_per_series = 4; series = []; keys = [] };
  pending_snapshots = [];
  writer = idle;
  batch_id_counter = 0;
}

empty_stream-IsSound : IsSound (2 ^ 64 - 1) empty_stream
unfolding create
empty_stream-IsSound = record {
  buffer = create-IsConsistent 2000 500 refl;
  snapped = tt;
  fresh = tt;
  distinct = tt;
  counted = omega arith;
}

abbrev pub collected_one : Reactor
collected_one = record empty_stream { buffer = add_metrics empty_stream.buffer (power_at 1 ∷ []) }

abbrev pub polled : Option (Reactor × Option MetricBatch) → Reactor
polled none = empty_stream
polled (some (r, _)) = r

abbrev pub sent_by : Option (Reactor × Option MetricBatch) → Option MetricBatch
sent_by none = none
sent_by (some (_, batch)) = batch

abbrev pub sent_one : Reactor
sent_one = polled (poll collected_one)

abbrev pub collected_two : Reactor
collected_two = record sent_one { buffer = add_metrics sent_one.buffer (power_at 2 ∷ []) }

pub few_keys : collected_one.batch_id_counter + length (get_all_keys collected_one.buffer) < 2 ^ 64
unfolding get_all_keys add_metrics add_metric add_sample find
few_keys = omega arith

pub polled_once : poll collected_one ≡ some (sent_one, sent_by (poll collected_one))
unfolding poll enqueue_metrics get_all_keys add_metrics add_metric add_sample find enqueue_keys
    enqueue_key get_buffer make_buffer_key key_eq after_enqueue enqueue_snapshot get_snapshot
    snapshot_of push new
polled_once = refl

abbrev collected_two-Reach : Reach (2 ^ 64 - 1) empty_stream (2 ^ 64 - 3) collected_two
collected_two-Reach =
    next
      (next
        (next here
          (collects (power_at 1 ∷ []) (2 ^ 64 - 2) empty_stream (2 ^ 64 - 1) (omega arith)))
        (polls (2 ^ 64 - 2) collected_one sent_one (sent_by (poll collected_one)) few_keys
          polled_once))
      (collects (power_at 2 ∷ []) (2 ^ 64 - 3) sent_one (2 ^ 64 - 2) (omega arith))

Reach-IsSound_example : IsSound (2 ^ 64 - 3) collected_two
Reach-IsSound_example = Reach-IsSound empty_stream-IsSound collected_two-Reach

abbrev acknowledged : Option Reactor → Reactor
acknowledged none = empty_stream
acknowledged (some r) = r

abbrev pub acked : Reactor
acked = acknowledged (acknowledge collected_two 0)

acked_one : acknowledge collected_two 0 ≡ some acked
unfolding poll enqueue_metrics get_all_keys add_metrics add_metric add_sample find update
    enqueue_keys enqueue_key get_buffer make_buffer_key key_eq after_enqueue enqueue_snapshot
    get_snapshot snapshot_of push new write push_all acknowledge find_pending ack emplace_pending
acked_one = refl

quiet_run_keeps_example :
    ((quiet_run sent_one (collect (power_at 3 ∷ []) ∷ round ∷ [])).pending_snapshots
      ≡ sent_one.pending_snapshots)
    × ((quiet_run sent_one (collect (power_at 3 ∷ []) ∷ round ∷ [])).batch_id_counter
        ≡ sent_one.batch_id_counter)
unfolding poll enqueue_metrics get_all_keys add_metrics add_metric add_sample find enqueue_keys
    enqueue_key get_buffer make_buffer_key key_eq after_enqueue enqueue_snapshot get_snapshot
    snapshot_of push new write
quiet_run_keeps_example = quiet_run_keeps (collect (power_at 3 ∷ []) ∷ round ∷ []) sent_one refl

pub read_one : on_read_done collected_two true 0 ≡ some (acked, true)
unfolding on_read_done
read_one = ground (arith, acked_one)

abbrev pub acked-Reach : Reach (2 ^ 64 - 1) empty_stream (2 ^ 64 - 3) acked
acked-Reach =
    next collected_two-Reach (reads_done (2 ^ 64 - 3) collected_two acked true 0 true read_one)

pub made : create 2000 500 ≡ some empty_stream.buffer
unfolding create
made = refl
