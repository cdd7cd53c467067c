-- ===== src/Scheduler.antt =====
-- sources/agent/src/scheduler.h and scheduler.cc: the collection loop, its command handler, and the
-- dashboard. `none` is undefined behaviour: a read through an empty `std::optional`.
pub mod Dashboard
pub mod Loop
pub mod Describe
pub mod Export
use volta.Prelude.{
  ℕ, ◌-◌, ◌+◌, ◌≡◌, Bool, true, false, not, ◌||◌, ◌&&◌, Option, none, some, List, [], ◌∷◌, ◌++◌,
  map, Text, text, dec, dec_int64, starts_with, drop, length, ltb, ◌==◌, if◌then◌else◌, replicate,
}
use volta.Metric.{Metric}
use volta.Buffer.Series.{Sample}
use volta.Buffer.Keys.{BufferKey}
use volta.Buffer.Metrics.{MetricsBuffer, add_metrics, latest_samples}
use volta.Collectors.Registry.{Collector}
use volta.Exporter.{Printer, Disk, Exporter, start_dump, end_dump, dump}
use volta.Exporter
use volta.MessageQueue.{
  MessageQueue, Failure, Result, ok, err, receiver, Action, listen, stop_listening,
}
use volta.MessageQueue

-- `std::string_view::find` of a byte; `none` is `npos`.
unfoldable pub find_byte : ℕ → Text → Option ℕ
find_byte c [] = none
find_byte c (x ∷ xs) =
    let later = find_byte c xs in
    if x == c then some 0 else elim later [ none ↦ none | some i ↦ some (i + 1) ]

-- `find` as an `int`, plus 1: `npos` becomes -1 and then 0.
abbrev after_separator : Option ℕ → ℕ
after_separator none = 0
after_separator (some i) = i + 1

-- What a command does to the exporter.
pub data Command : Type 0 where
  starts : Text → Command
  ends : Command

-- The handler's second test, on the view that the first branch may have shortened.
abbrev end_command : Text → List Command
end_command message = if starts_with message (text "dump_end") then ends ∷ [] else []

-- The first branch, for a message with more than the eleven bytes of `dump_start;`.
abbrev start_command : Text → List Command
start_command message =
    let path : Text = drop (after_separator (find_byte b';' message)) message in
    starts path ∷ end_command path

-- The handler of `Run`. Where no path follows, `*path` is read all the same, for the log.
unfoldable pub parse_command : Text → Option (List Command)
unfolding find_byte
parse_command message =
    if starts_with message (text "dump_start")
    then (if ltb 11 (length message) then some (start_command message) else none)
    else some (end_command message)

-- A command with the state of the file system and the clock at its time.
unfoldable pub obey : Disk → Text → Exporter → List Command → Exporter
obey disk now e [] = e
obey disk now e (starts path ∷ cs) = obey disk now (start_dump disk now e (some path)) cs
obey disk now e (ends ∷ cs) = obey disk now (end_dump e) cs

-- The state that the loop and the command handler share.
pub record Scheduler : Type 0 where
  pub collectors : List Collector
  pub buffer : MetricsBuffer
  pub ms_queue : MessageQueue
  pub exporter : Exporter

-- The constructor, with the configured directory of the dumps and whether `mq_open` succeeds. The queue
-- is a member, so its constructor's exception is this one's.
unfoldable pub create :
    (Text → Bool) → Text → List Collector → MetricsBuffer → Bool → Result Scheduler
create exists dump_dir collectors buffer opened =
    elim (MessageQueue.create (text "/volta_agent_command_queue") receiver 4096 opened) [
      | err f ↦ err f
      | ok (q, _) ↦ ok (record {
        collectors = collectors;
        buffer = buffer;
        ms_queue = q;
        exporter = Exporter.create exists dump_dir;
      })
    ]

-- The calls that `Run` makes around its loop: `Init` of the collector at an index, and those of the
-- queue. What `Init` returns is not looked at.
pub data Call : Type 0 where
  inits : ℕ → Call
  queue : Action → Call

-- The first loop of `Run`, from an index on, with the exceptions that `Init` throws: the first one leaves
-- it.
unfoldable pub init_all : (ℕ → Option Failure) → ℕ → List Collector → Result (List Call)
init_all thrown i [] = ok []
init_all thrown i (_ ∷ cs) = elim (thrown i) [
  | some f ↦ err f
  | none ↦ elim (init_all thrown (i + 1) cs) [ err f ↦ err f | ok calls ↦ ok (inits i ∷ calls) ]
]

-- What happens to it, in order: a collector's metrics, or a command.
pub data Event : Type 0 where
  collected : List Metric → Event
  commanded : Disk → Text → Text → Event

-- A message that comes, with what the file system and the clock say then.
pub record Arrival : Type 0 where
  pub disk : Disk
  pub now : Text
  pub message : Text

abbrev pub commands_of : List Arrival → List Event
commands_of [] = []
commands_of (a ∷ arrivals) = commanded a.disk a.now a.message ∷ commands_of arrivals

module _ (p : Printer) where
  -- The body of the loop of `Run` for one collector, or the handler's call.
  unfoldable pub step : Scheduler → Event → Option Scheduler
  step s (collected metrics) =
      some
        (record s { buffer = add_metrics s.buffer metrics; exporter = dump p s.exporter metrics })
  step s (commanded disk now message) = elim (parse_command message) [
    | none ↦ none
    | some commands ↦ some (record s { exporter = obey disk now s.exporter commands })
  ]

  unfoldable pub steps : Scheduler → List Event → Option Scheduler
  unfolding step
  steps s [] = some s
  steps s (ev ∷ evs) = elim (step s ev) [ none ↦ none | some s' ↦ steps s' evs ]

  -- What follows the loop, with the messages that are handled after `EndDump` and before
  -- `stop_listening`.
  unfoldable pub finish : Scheduler → List Arrival → Option (Scheduler × List Action)
  unfolding steps
  finish s late = elim (steps (record s { exporter = end_dump s.exporter }) (commands_of late)) [
    | none ↦ none
    | some t ↦
        some (record t { ms_queue = (stop_listening t.ms_queue).0 }, (stop_listening t.ms_queue).1)
  ]

  -- `Run`, with what `Init` throws and whether `mq_notify` succeeds, over the events until the agent is
  -- stopped and the messages handled later. The exceptions of `Init` and of `listen` leave it before the
  -- loop.
  unfoldable pub run :
      Scheduler
      → (ℕ → Option Failure)
      → Bool
      → List Event
      → List Arrival
      → Option (Result (Scheduler × List Call))
  unfolding init_all steps finish
  run s thrown armed events late = elim (init_all thrown 0 s.collectors) [
    | err f ↦ some (err f)
    | ok calls ↦ elim (listen s.ms_queue true armed) [
      | err f ↦ some (err f)
      | ok (q, listened) ↦ elim (steps (record s { ms_queue = q }) events) [
        | none ↦ none
        | some t ↦ elim (finish t late) [
          | none ↦ none
          | some (u, stopped) ↦ some (ok (u, calls ++ map queue (listened ++ stopped)))
        ]
      ]
    ]
  ]
