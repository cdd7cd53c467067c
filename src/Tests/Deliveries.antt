-- ===== src/Tests/Deliveries.antt =====
-- Deliveries from end to end, along the run of `Streams` in which one of two samples is acknowledged.
use mathlib.Core.List.{Sublist}
use volta.Prelude.{◌++◌, false, ◌≡◌, refl, ◌<◌, ◌^◌, ◌-◌, ◌+◌, true, some, [], ◌∷◌, arith, length}
use volta.Buffer.Series.{push, new, push_all, get_snapshot, snapshot_of}
use volta.Buffer.Keys.{BufferKey, make_buffer_key, key_eq}
use volta.Buffer.Metrics.{
  get_buffer, add_metrics, add_metric, add_sample, find, update, get_all_keys, ack, sample_of,
}
use volta.Client.Writer
use volta.Client.Writer.Waiting.{waiting}
use volta.Client.Stream.{
  Reactor, poll, enqueue_metrics, enqueue_keys, enqueue_key, enqueue_snapshot, after_enqueue, write,
  find_pending, emplace_pending, acknowledge, on_write_done,
}
use volta.Client.Stream.Reach.{Reach, next, writes_done}
use volta.Client.Delivery.{ledger, pending_for}
use volta.Client.Delivery.Once.{delivered_once}
use volta.Client.Delivery.Drain.{drain}
use volta.Client.Delivery.Drain.Moving.{Succeeds}
use volta.Client.Delivery.Drain.Runs.{Extends, drained}
use volta.Client.Delivery.Wire.{received, sent, IsOrderly, all_samples}
use volta.Client.Delivery.Wire.Runs.{received_accounted}
use volta.Tests.Streams.{power_at, empty_stream, acked, acked-Reach, made}

abbrev power_key : BufferKey
power_key = make_buffer_key (power_at 1)

-- The write of the batch is done, too.
written_too : acked.writer.writing ≡ true
unfolding poll enqueue_metrics get_all_keys add_metrics add_metric add_sample find update
    enqueue_keys enqueue_key get_buffer make_buffer_key key_eq after_enqueue enqueue_snapshot
    get_snapshot snapshot_of push new write push_all acknowledge find_pending ack emplace_pending
    Writer.write Writer.push
written_too = refl

abbrev written : Reactor
written = (on_write_done acked true).0

abbrev written-Reach : Reach (2 ^ 64 - 1) empty_stream (2 ^ 64 - 3) written
written-Reach = next acked-Reach (writes_done (2 ^ 64 - 3) acked true)

written-IsOrderly : IsOrderly written-Reach
written-IsOrderly =
    (written_too, (((omega arith, omega arith), tt), (((omega arith, omega arith), tt), tt)))

never_over : (ledger power_key written-Reach).overrun ≡ false
unfolding poll enqueue_metrics get_all_keys add_metrics add_metric add_sample find update
    enqueue_keys enqueue_key get_buffer make_buffer_key key_eq after_enqueue enqueue_snapshot
    get_snapshot snapshot_of push new write push_all acknowledge find_pending ack emplace_pending
never_over = refl

delivered_once_example :
    Sublist (ledger power_key written-Reach).acked (ledger power_key written-Reach).pushed
delivered_once_example = delivered_once power_key 2000 500 made (omega arith) written-Reach

-- The first sample was acknowledged, the second is still to be sent.
ledger_of_two : (ledger power_key written-Reach).acked ≡ sample_of (power_at 1) ∷ []
unfolding poll enqueue_metrics get_all_keys add_metrics add_metric add_sample find update
    enqueue_keys enqueue_key get_buffer make_buffer_key key_eq after_enqueue enqueue_snapshot
    get_snapshot snapshot_of push new write push_all acknowledge find_pending ack emplace_pending
ledger_of_two = refl

received_accounted_example :
    received power_key (sent written-Reach ++ waiting written.writer)
    ≡ (ledger power_key written-Reach).acked
      ++ all_samples (pending_for power_key written.pending_snapshots)
received_accounted_example =
    received_accounted power_key 2000 500 made (omega arith) written-Reach written-IsOrderly

-- One batch was sent, with the first sample.
received_one : received power_key (sent written-Reach) ≡ sample_of (power_at 1) ∷ []
unfolding poll enqueue_metrics get_all_keys add_metrics add_metric add_sample find update
    enqueue_keys enqueue_key get_buffer make_buffer_key key_eq after_enqueue enqueue_snapshot
    get_snapshot snapshot_of push new write push_all acknowledge find_pending ack emplace_pending
    on_write_done Writer.write Writer.push Writer.on_write_done
received_one = refl

few_batches : written.batch_id_counter + length (get_all_keys written.buffer) < 2 ^ 64
unfolding poll enqueue_metrics get_all_keys add_metrics add_metric add_sample find update
    enqueue_keys enqueue_key get_buffer make_buffer_key key_eq after_enqueue enqueue_snapshot
    get_snapshot snapshot_of push new write push_all acknowledge find_pending ack emplace_pending
    on_write_done
few_batches = omega arith

written-Succeeds : Succeeds written-Reach
written-Succeeds = (refl, (refl, tt))

drained_example :
    (s : Reactor) × (q' : Reach (2 ^ 64 - 1) empty_stream (2 ^ 64 - 3) s) × (drain written ≡ some s)
    × Extends written-Reach (2 ^ 64 - 3) s q'
    × IsOrderly q'
    × (s.pending_snapshots ≡ [])
    × (s.writer.queue ≡ [])
    × ((ledger power_key q').pushed ≡ (ledger power_key written-Reach).pushed)
    × (received power_key (sent q') ≡ (ledger power_key written-Reach).pushed)
    × ((ledger power_key q').acked ≡ (ledger power_key written-Reach).pushed)
drained_example =
    drained power_key 2000 500 made (omega arith) written-Reach written-IsOrderly written-Succeeds
      never_over few_batches
