-- ===== src/Cli/Export.antt =====
-- An export from the command line to the file: `export start` and `export stop` with what the loop
-- collects in between.
use volta.Prelude.{◌++◌, Text, text}
use volta.Exporter.{Exporter}
use volta.Scheduler.{Scheduler}

-- The file of a dump into a directory, by the clock's text.
abbrev pub dump_path : Text → Text → Text
dump_path dir now = dir ++ (text "/dump_" ++ (now ++ text ".csv"))
