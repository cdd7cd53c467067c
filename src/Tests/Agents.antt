-- ===== src/Tests/Agents.antt =====
-- A run of the scheduler and of the agent, with a dump that is started in between.
use volta.Prelude.{◌++◌, Text, true, false, none, List, [], ◌∷◌, text}
use volta.Metric.{Metric, ram_used}
use volta.Collectors.Registry.{Collector}
use volta.Exporter.{Printer, Disk}
use volta.MessageQueue.{receiver}
use volta.Scheduler.{Scheduler, Event, collected, commanded, Arrival}
use volta.Scheduler
use volta.Cli.Agent.{World}

abbrev pub printer : Printer
printer = record { metric_type_name = λ type. text "METRIC"; show_double = λ value. text "1.5" }

abbrev pub full_disk : Disk
full_disk = record { exists = λ dir. true; opens = λ file. true }

abbrev no_disk : Disk
no_disk = record { exists = λ dir. false; opens = λ file. false }

abbrev used : Metric
used = record { type = ram_used; dev_id = none; value = 3; timestamp = 9 }

abbrev memory : Collector
memory = record { supported = true; satisfiable = ram_used ∷ []; requested = [] }

abbrev pub idle_scheduler : Scheduler
idle_scheduler = record {
  collectors = memory ∷ [];
  buffer = record { capacity_per_series = 4; series = []; keys = [] };
  ms_queue = record {
    name = text "/q";
    role = receiver;
    max_msg_size = 4096;
    is_open = true;
    has_handler = false;
    listening = false;
  };
  exporter = record { dump_file = none; dump_dir = text "/var"; is_exporting = false; closed = [] };
}

abbrev day : List Event
day =
    collected (used ∷ [])
    ∷ commanded full_disk (text "now") (text "dump_start;/tmp")
    ∷ collected (used ∷ [])
    ∷ []

-- A message that comes after the loop.
abbrev evening : List Arrival
evening = record { disk = full_disk; now = text "late"; message = text "dump_end" } ∷ []

abbrev world : World
world = record {
  unresolved = none;
  exists = λ dir. true;
  opened = true;
  armed = true;
  thrown = λ i. none;
}

-- Metrics, another start, and metrics again.
abbrev going_on : List Event
going_on =
    collected (used ∷ [])
    ∷ commanded full_disk (text "later") (text "dump_start;/tmp")
    ∷ collected (used ∷ used ∷ [])
    ∷ []

abbrev rooted : Text → Text
rooted path = text "/" ++ path
