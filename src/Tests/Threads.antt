-- ===== src/Tests/Threads.antt =====
-- The agent's threads, interleaved: a sample is collected and polled, a command comes, another sample is
-- collected, and the batch is acknowledged and then written.
use mathlib.Core.List.{Sublist}
use volta.Prelude.{◌≡◌, refl, ◌-◌, ◌^◌, ◌++◌, true, false, some, List, [], ◌∷◌, text, arith, All}
use volta.Buffer.Series.{Sample, push, new, push_all, get_snapshot, snapshot_of}
use volta.Buffer.Series.Unsent.{unsent}
use volta.Buffer.Keys.{BufferKey, make_buffer_key, key_eq}
use volta.Buffer.Metrics.{
  get_buffer, add_metrics, add_metric, add_sample, find, update, get_all_keys, ack,
}
use volta.Buffer.Metrics.Lookup.{ring}
use volta.Buffer.Metrics.Series.{samples_for}
use volta.Exporter.{dump}
use volta.Scheduler.{Scheduler, collected, commanded, ends, step, obey}
use volta.Scheduler.Loop.{parse_command-end}
use volta.Client.Writer
use volta.Client.Stream.{
  poll, enqueue_metrics, enqueue_keys, enqueue_key, enqueue_snapshot, after_enqueue, write,
  find_pending, emplace_pending, acknowledge, on_write_done,
}
use volta.Client.Delivery.Wire.{received}
use volta.Agent.{
  Agent, sharing, Reach, here, next, schedules, polls, writes_done, reads_done, all_collected,
  all_sent, entries,
}
use volta.Agent.Runs.{Fits}
use volta.Agent.Delivered.{acknowledged-collected, received-collected, received_first-collected}
use volta.Tests.Agents.{printer, idle_scheduler, full_disk}
use volta.Tests.Streams.{
  power_at, empty_stream, collected_one, sent_one, collected_two, acked, sent_by, few_keys,
  polled_once, read_one, made,
}

abbrev first_collected : Scheduler
first_collected = record idle_scheduler {
  buffer = collected_one.buffer;
  exporter = dump printer idle_scheduler.exporter (power_at 1 ∷ []);
}

abbrev commanded_to_end : Scheduler
commanded_to_end = record first_collected {
  buffer = sent_one.buffer;
  exporter = obey full_disk (text "now") first_collected.exporter (ends ∷ []);
}

abbrev second_collected : Scheduler
second_collected = record commanded_to_end {
  buffer = collected_two.buffer;
  exporter = dump printer commanded_to_end.exporter (power_at 2 ∷ []);
}

abbrev started : Agent
started = record { scheduler = idle_scheduler; stream = empty_stream }

abbrev polled_agent : Agent
polled_agent = record { scheduler = first_collected; stream = sent_one }

first_step : step printer (sharing started) (collected (power_at 1 ∷ [])) ≡ some first_collected
unfolding step
first_step = refl

command_step :
    step printer (sharing polled_agent) (commanded full_disk (text "now") (text "dump_end"))
    ≡ some commanded_to_end
unfolding step
command_step = ground (arith, parse_command-end)

abbrev told : Agent
told = record { scheduler = commanded_to_end; stream = sent_one }

second_step : step printer (sharing told) (collected (power_at 2 ∷ [])) ≡ some second_collected
unfolding step
second_step = refl

writing : acked.writer.writing ≡ true
unfolding poll enqueue_metrics get_all_keys add_metrics add_metric add_sample find update
    enqueue_keys enqueue_key get_buffer make_buffer_key key_eq after_enqueue enqueue_snapshot
    get_snapshot snapshot_of push new write push_all acknowledge find_pending ack emplace_pending
    Writer.write Writer.push
writing = refl

abbrev ended : Agent
ended = record { scheduler = second_collected; stream = (on_write_done acked true).0 }

abbrev interleaved : Reach printer (2 ^ 64 - 1) started (2 ^ 64 - 3) ended
interleaved =
    next
      (next
        (next
          (next
            (next
              (next here (
                schedules (2 ^ 64 - 2) started (collected (power_at 1 ∷ [])) first_collected
                  (2 ^ 64 - 1) (omega arith) first_step))
              (polls (2 ^ 64 - 2) (record { scheduler = first_collected; stream = collected_one })
                sent_one (sent_by (poll collected_one)) few_keys polled_once))
            (schedules (2 ^ 64 - 2) polled_agent
              (commanded full_disk (text "now") (text "dump_end")) commanded_to_end (2 ^ 64 - 2)
              (omega arith) command_step))
          (schedules (2 ^ 64 - 3) told (collected (power_at 2 ∷ [])) second_collected (2 ^ 64 - 2)
            (omega arith) second_step))
        (reads_done (2 ^ 64 - 3) (record { scheduler = second_collected; stream = collected_two })
          acked true 0 true read_one))
      (writes_done (2 ^ 64 - 3) (record { scheduler = second_collected; stream = acked }) true
        writing)

abbrev power_key : BufferKey
power_key = make_buffer_key (power_at 1)

never_over : (entries printer power_key interleaved).overrun ≡ false
unfolding poll enqueue_metrics get_all_keys add_metrics add_metric add_sample find update
    enqueue_keys enqueue_key get_buffer make_buffer_key key_eq after_enqueue enqueue_snapshot
    get_snapshot snapshot_of push new write push_all acknowledge find_pending ack emplace_pending
never_over = refl

of_their_kind : All Fits (all_collected printer interleaved)
of_their_kind = ((omega arith, omega arith), ((omega arith, omega arith), tt))

acknowledged-collected_example :
    (entries printer power_key interleaved).acked ++ unsent (ring ended.stream.buffer power_key)
    ≡ samples_for power_key (all_collected printer interleaved)
acknowledged-collected_example =
    acknowledged-collected printer power_key 2000 500 made (omega arith) interleaved never_over

received-collected_example :
    Sublist
      (received power_key (all_sent printer interleaved))
      (samples_for power_key (all_collected printer interleaved))
received-collected_example =
    received-collected printer power_key 2000 500 made (omega arith) interleaved of_their_kind

received_first-collected_example :
    (rest : List Sample) × (received power_key (all_sent printer interleaved) ++ rest
      ≡ samples_for power_key (all_collected printer interleaved))
received_first-collected_example =
    received_first-collected printer power_key 2000 500 made (omega arith) interleaved of_their_kind
      never_over
