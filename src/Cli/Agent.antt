-- ===== src/Cli/Agent.antt =====
-- sources/agent/src/main.cc: `agent_mode`, which puts the agent together. The thread of the client is
-- beside it: it shares the buffer, as in Client, and can turn the dashboard on. The stops that signals
-- ask for end the list of events.
use volta.Prelude.{
  ◌∷◌, ◌++◌, dec, ℕ, Bool, true, ◌&&◌, Option, none, some, List, Text, if◌then◌else◌, not, is_some,
}
use volta.Buffer.Metrics
use volta.Client.Session
use volta.Client.Session.{Client}
use volta.Client.Connect.{Action}
use volta.Collectors.Registry.{Collector, resolve}
use volta.Config.{Config, Toml, Platform}
use volta.Config.Files.{File, load_config}
use volta.Exporter.{Printer}
use volta.MessageQueue.{Failure, Result, ok, err}
use volta.MessageQueue
use volta.Exporter
use volta.Scheduler.{Scheduler, Event, Arrival, run}
use volta.Scheduler

-- How `agent_mode` returns: its status, and the scheduler that it destroys then, if it has run to its end.
pub record Returned : Type 0 where
  pub status : ℕ
  pub scheduler : Option Scheduler

-- What the thread of the client comes to: a client that calls the server at an address and waits, or the
-- local dashboard.
pub data Thread : Type 0 where
  connects : Text → Client → List Action → Thread
  shows_dashboard : Thread

-- The body of `grpc_thread`, with whether gRPC gives a channel and it connects, and the UUID file.
unfoldable pub grpc_thread : Config → Bool → Bool → Option Text → Thread
grpc_thread config given connected uuid_file =
    let address : Text = config.server_address ++ (b':' ∷ dec config.server_port) in
    let (c, actions) = Session.connect (Session.create uuid_file true) in
    if Session.create_channel given connected then connects address c actions else shows_dashboard

-- What the system answers: the exception of a collector's `IsSupported`, if one throws in `Resolve`;
-- `exists` of a path; whether `mq_open` and `mq_notify` succeed; and the exceptions of `Init`, by the
-- index of the collector. An exception is told by its base class.
pub record World : Type 0 where
  pub unresolved : Option Failure
  pub exists : Text → Bool
  pub opened : Bool
  pub armed : Bool
  pub thrown : ℕ → Option Failure

-- An exception, which is caught.
abbrev crashed : Returned
crashed = record { status = 1; scheduler = none }

module _ (p : Printer) where
  -- The run of a scheduler that was made, or the exception of its constructor.
  unfoldable pub supervise :
      Result Scheduler → (ℕ → Option Failure) → Bool → List Event → List Arrival → Option Returned
  supervise (err f) thrown armed events late = some crashed
  supervise (ok s) thrown armed events late = elim (run p s thrown armed events late) [
    | none ↦ none
    | some (err f) ↦ some crashed
    | some (ok (s', calls)) ↦ some (record { status = 0; scheduler = some s' })
  ]

module _ {Node : Type 0} (toml : Toml Node) (platform : Platform) (p : Printer) where
  -- `none` is undefined behaviour: the buffer's division by 0, or what the scheduler runs into.
  unfoldable pub agent_mode :
      File Node → List Collector → World → List Event → List Arrival → Option Returned
  unfolding supervise
  agent_mode file entries world events late = elim world.unresolved [
    | some f ↦ some crashed
    | none ↦
        let config : Config = (load_config toml platform file).0 in
        elim (Metrics.create config.buffered_time_window config.collection_interval) [
          | none ↦ none
          | some buffer ↦
              supervise p
                (Scheduler.create world.exists config.dump_dir
                  (resolve config.requested_metrics entries).1 buffer world.opened)
                world.thrown world.armed events late
        ]
  ]

-- Nothing throws until the loop.
abbrev pub starts_up : Option Failure → Bool → Option Failure → Bool → Bool
starts_up unresolved opened thrown armed =
    not (is_some unresolved) && (opened && (not (is_some thrown) && armed))
