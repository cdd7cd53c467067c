-- ===== src/Scheduler/Loop.antt =====
-- The collection loop beside its command handler, and the commands that are read.
use volta.Prelude.{
  ℕ, ◌+◌, ◌≤◌, ◌≡◌, refl, Bool, true, false, Option, none, some, List, [], ◌∷◌, ◌++◌, arith, Text,
  text, is_some, starts_with, length, All, lt→ltb,
}
use volta.Metric.{Metric}
use volta.Buffer.Metrics.{MetricsBuffer, add_metrics}
use volta.Collectors.Registry.{Collector}
use volta.Exporter.{Exporter}
use volta.MessageQueue.{MessageQueue, Failure, Result, ok, err, runtime_error, arm, disarm, unlink}
use volta.Scheduler.{
  Call, inits, queue, Scheduler, Event, collected, commanded, Command, starts, ends, Arrival,
  parse_command,
}

-- A `dump_start` with a path from the root starts a dump into that directory, and does nothing else.
pub parse_command-start :
    (rest : Text)
    → parse_command (text "dump_start;" ++ b'/' ∷ rest) ≡ some (starts (b'/' ∷ rest) ∷ [])
unfolding parse_command
parse_command-start rest = rw (lt→ltb 11 (length (text "dump_start;" ++ b'/' ∷ rest)) (omega arith))

-- A message that begins with `dump_start` and has no more than eleven bytes makes the handler read
-- an empty optional.
parse_command-bare :
    (message : Text)
    → starts_with message (text "dump_start") ≡ true
    → length message ≤ 11
    → parse_command message ≡ none
unfolding parse_command
parse_command-bare message s l = ground arith

-- `dump_end` ends a dump, and does nothing else.
pub parse_command-end : parse_command (text "dump_end") ≡ some (ends ∷ [])
unfolding parse_command
parse_command-end = refl

-- The metrics that were collected, in order.
abbrev pub all_metrics : List Event → List Metric
all_metrics [] = []
all_metrics (collected metrics ∷ evs) = metrics ++ all_metrics evs
all_metrics (commanded _ _ _ ∷ evs) = all_metrics evs

-- Every command among the events can be read.
abbrev pub IsReadable : Event → Type 0
IsReadable (collected metrics) = Unit
IsReadable (commanded disk now message) = is_some (parse_command message) ≡ true

pub add_metrics-append :
    (xs ys : List Metric) (m : MetricsBuffer)
    → add_metrics (add_metrics m xs) ys ≡ add_metrics m (xs ++ ys)
unfolding add_metrics
add_metrics-append [] ys m = refl
add_metrics-append (x ∷ xs) ys m = add_metrics-append xs ys _

pub add_metrics_nil : (m : MetricsBuffer) → m ≡ add_metrics m []
unfolding add_metrics
add_metrics_nil m = refl

-- No dump is in progress, and no file is open.
abbrev IsIdle : Exporter → Type 0
IsIdle e = (e.is_exporting ≡ false) × (e.dump_file ≡ none)

abbrev IsEnd : Command → Type 0
IsEnd (starts path) = ⊥
IsEnd ends = Unit {0}

-- The message can be read, and does not start a dump.
abbrev pub IsQuiet : Arrival → Type 0
IsQuiet a =
    (commands : List Command) × (parse_command a.message ≡ some commands) × All IsEnd commands

-- `Init` of every collector, from an index on.
abbrev init_calls : ℕ → List Collector → List Call
init_calls i [] = []
init_calls i (_ ∷ cs) = inits i ∷ init_calls (i + 1) cs

-- The first exception of an `Init`.
abbrev pub first_thrown : (ℕ → Option Failure) → ℕ → List Collector → Option Failure
first_thrown thrown i [] = none
first_thrown thrown i (_ ∷ cs) = elim (thrown i) [
  | some f ↦ some f
  | none ↦ first_thrown thrown (i + 1) cs
]

-- What the collectors' initialisation comes to.
abbrev initialised : Option Failure → List Call → Result (List Call)
initialised (some f) calls = err f
initialised none calls = ok calls

-- The calls of a run that is not left by an exception.
abbrev calls_of : Scheduler → List Call
calls_of s = init_calls 0 s.collectors ++ queue arm ∷ queue disarm ∷ queue unlink ∷ []

-- How a run ends, by the first exception of an `Init` and whether the queue can be armed.
abbrev pub outcome : Option Failure → Bool → Scheduler → Scheduler → Result (Scheduler × List Call)
outcome (some f) armed s s' = err f
outcome none false s s' = err runtime_error
outcome none true s s' = ok (s', calls_of s)
