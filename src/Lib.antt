-- ===== src/Lib.antt =====
-- The Volta agent, modelled and proved.
--
-- Volta watches machines: an agent in C++ (sources/agent/src) collects metrics and streams them to a
-- server. This library models the agent.
--
-- How it works. The registry (collectors/collector.h) picks the collectors that can deliver a requested
-- metric. In a loop the scheduler (scheduler.cc) asks each for its metrics, puts them into the metrics
-- buffer (buffer.cc), a map from series to rings, and dumps them to a CSV file while a dump is in
-- progress (exporter.cc). Commands to start and end a dump come over a POSIX message queue
-- (message_queue.cc), to which the command line (main.cc) writes. A client (client/) keeps a control
-- stream to the server, and on its request a second stream whose poll thread takes snapshots of the
-- rings, sends them as batches, and marks them as sent when the server acknowledges them. The rings are
-- shared by the scheduler and the client; each method of a ring runs under its lock, so that an
-- interleaving of the threads is a sequence of calls. A round of the poll thread is one step.
--
-- Files, by the code that they model, below sources/agent/src:
--   Prelude       shared names: Boolean tests, lists over native numbers, machine words, text as bytes,
--                 formatted input of the standard library
--   Metric        metric.h
--   Buffer/Series         buffer.cc, SeriesBuffer: Bounds its invariant, Window and Unsent the queue of
--                         unsent samples that the ring stands for, History the ring beside all that was
--                         pushed, Stall what a new capacity does
--   Buffer/Keys           buffer.cc, BufferKey, MakeBufferKey and the hash
--   Buffer/Metrics        buffer.cc, MetricsBuffer: lookups, series and its invariant
--   Client/Writer         client/iwriter.h and the write paths of both reactors
--   Client/Connect        client/connect_reactor.cc
--   Client/Stream         client/stream_metrics_reactor.cc
--   Client/Delivery       the stream from end to end: rings, scheduler, poll thread and server together;
--                         Once what is acknowledged, Drain how everything
--                         comes to be, Wire the batches that are sent, read by their headers
--   Client/Session        client/volta_collector_client.cc
--   Exporter      exporter.cc
--   MessageQueue  message_queue.cc
--   Scheduler     scheduler.cc: Loop what a run does, Dashboard and Describe the table
--   Cli           main.cc: the command line, and in Cli/Agent the agent's own mode; Cli/Export a dump from
--                 the command line to the file
--   Agent         the threads of the agent over the buffer that they share
--   Collectors    collectors/: the registry, RamCollector, ProcStatCollector, NvmlCollector and
--                 RaplCollector; Kinds what their metrics have in common
--   Config        config/: the configuration and its file
--   Platform      platform/: the loader of NVML and the detection of the machine
--   Utils         utils/: identifiers, addresses and the CPUs in use
--   Tests         the theorems at concrete states
-- A function has the name of the C++ function that it models, in lower case; a member that a method
-- changes is a field of the record that the function returns.
--
-- Conventions. Numbers are native; a conversion or an operation of a machine word has its wrap-around
-- written out (Prelude/Words). A text is the list of its bytes. A double is its bit pattern, and its
-- arithmetic a parameter. `none` is undefined behaviour, a null pointer or an exception that ends the
-- process where a comment says so; other exceptions are errors of a result type. Loops are structural; the digits of a number are printed with
-- fuel 20, the most that a 64-bit number has. The counters of the rings are 64 bits wide; theorems about
-- many pushes carry a bound, named `room` where a whole map shares it, that they do not wrap.
--
-- Parameters: what NVML, toml++, gRPC, POSIX message queues, the file system, the clock, the generated
-- code of the protocol and the printing of doubles answer. Calls without an answer that matters are
-- handed out as lists of actions.
--
-- The exceptions that collectors throw from `IsSupported` and `Init` are answers of the world, too. The
-- messages that the command handler takes after the loop, between `EndDump` and `stop_listening`, are a list
-- of their own.
--
-- Not modelled: memory that runs out, and writes to an open file that fail; log lines; the template
-- IReaderWriter, in a header that nothing includes and that would not compile; the server, the dashboard
-- and the vendored header of NVML. A signal handler
-- is the end of a list of events.
pub mod Prelude
pub mod Metric
pub mod Buffer
pub mod Client
pub mod Exporter
pub mod MessageQueue
pub mod Scheduler
pub mod Cli
pub mod Agent
pub mod Collectors
pub mod Config
pub mod Utils
pub mod Platform
mod Tests
