-- ===== src/Tests/Commands.antt =====
-- Commands, the message queue and the dump, at small messages.
use volta.Prelude.{
  ◌≡◌, refl, true, false, some, none, List, [], ◌∷◌, ◌++◌, map, Text, text, arith, if◌then◌else◌,
  leb, length,
}
use volta.Metric.{Metric, DeviceId, gpu_power, ram_used}
use volta.MessageQueue.{
  MessageQueue, sender, receiver, ok, err, invalid_argument, runtime_error, handled, message, again,
  failed, drain_and_rearm,
}
use volta.MessageQueue.Drain.{rearmed, drain_and_rearm-all}
use volta.Exporter.{Printer, Exporter, rows}
use volta.Exporter.Rows.{read_rows, entry, read_rows-rows}
use volta.Scheduler.{parse_command, starts}
use volta.Cli.{exit, cli_mode}
use volta.Cli.Commands.{cli_mode-start}

abbrev commands : MessageQueue
commands = record {
  name = text "/q";
  role = receiver;
  max_msg_size = 4096;
  is_open = true;
  has_handler = true;
  listening = true;
}

abbrev two_texts : List Text
two_texts = text "dump_start;/tmp" ∷ text "dump_end" ∷ []

drain_and_rearm-all_example :
    (drain_and_rearm commands true (map message two_texts ++ again ∷ [])
      ≡ some (rearmed commands true (map handled two_texts)))
    × (drain_and_rearm commands true (map message two_texts ++ failed ∷ [])
        ≡ some (ok (record commands { listening = false }, map handled two_texts)))
drain_and_rearm-all_example = drain_and_rearm-all two_texts commands true [] refl

abbrev outgoing : MessageQueue
outgoing = record commands { role = sender }

abbrev printer : Printer
printer = record { metric_type_name = λ type. text "METRIC"; show_double = λ value. text "1.5" }

abbrev used : Metric
used = record { type = ram_used; dev_id = none; value = 3; timestamp = 9 }

read_rows-rows_example :
    read_rows (rows printer (used ∷ used ∷ [])) ≡ map (entry printer) (used ∷ used ∷ [])
read_rows-rows_example =
    read_rows-rows printer (used ∷ used ∷ []) (λ type. (ground arith, ground arith))
      (λ value. (ground arith, ground arith))

abbrev dumping : Exporter
dumping = record {
  dump_file = some (text "/tmp/d", text "h");
  dump_dir = text "/var";
  is_exporting = true;
  closed = [];
}

abbrev gpu_metric : Metric
gpu_metric = record {
  type = gpu_power;
  dev_id = some (DeviceId.gpu 0 4 3 0);
  value = 50;
  timestamp = 7;
}

cli_mode-start_example :
    (m : Text) × (cli_mode
        (λ path. b'/' ∷ path)
        true
        (text "export" ∷ text "start" ∷ text "tmp" ∷ [])
      ≡ (if true
          then (if leb (length (b'/' ∷ text "tmp")) 4085
              then ok (exit 0 (m ∷ []))
              else err invalid_argument)
          else err runtime_error))
    × (parse_command m ≡ some (starts (b'/' ∷ text "tmp") ∷ []))
cli_mode-start_example = cli_mode-start (λ path. b'/' ∷ path) true (text "tmp") (text "tmp") [] refl
