-- ===== src/Exporter.antt =====
-- sources/agent/src/exporter.h and exporter.cc: the dump of metrics as a CSV file.
-- `MetricType_Name` (generated code) and the printing of a `double` by a stream are parameters; so is
-- what the file system answers. The clock's text of `StartDump` is an argument of the call. The content
-- of a file is kept once it is closed; writes to an open file are taken to succeed.
pub mod Rows
pub mod Life
use volta.Prelude.{
  ℕ, Bool, true, false, not, Option, none, some, List, [], ◌∷◌, ◌++◌, Text, text, dec, dec_int64,
  is_some, if◌then◌else◌, u8,
}
use volta.Metric.{Metric, DeviceId}

pub record Printer : Type 0 where
  pub metric_type_name : ℕ → Text
  pub show_double : ℕ → Text

-- What the file system answers at a time: whether a path exists, and whether a file opens for writing.
pub record Disk : Type 0 where
  pub exists : Text → Bool
  pub opens : Text → Bool

pub record Exporter : Type 0 where
  -- the path and the content of the file that is open
  pub dump_file : Option (Text × Text)
  pub dump_dir : Text
  pub is_exporting : Bool
  -- the files that were closed, newest first
  pub closed : List (Text × Text)

-- `DescribeDevice`, the visitor
unfoldable pub describe_id : DeviceId → Text
describe_id (DeviceId.gpu domain bus device function) =
    text "gpu="
    ++ (dec domain
        ++ (text ":" ++ (dec bus ++ (text ":" ++ (dec device ++ (text "." ++ dec function))))))
describe_id (DeviceId.cpu socket core) = text "cpu=" ++ (dec socket ++ (text "/" ++ dec core))
describe_id (DeviceId.net ifindex) = text "net_ifindex=" ++ dec ifindex
describe_id (DeviceId.disk major minor) = text "disk=" ++ (dec major ++ (text ":" ++ dec minor))

unfoldable pub describe_device : Option DeviceId → Text
unfolding describe_id
describe_device none = text "system"
describe_device (some id) = describe_id id

abbrev pub header_line : Text
header_line = text "metric_type;device_id;timestamp;value" ++ 10 ∷ []

-- The constructor: the configured directory, if it exists, or the empty path.
unfoldable pub create : (Text → Bool) → Text → Exporter
create exists dump_dir = record {
  dump_file = none;
  dump_dir = if exists dump_dir then dump_dir else [];
  is_exporting = false;
  closed = [];
}

-- `StartDump`: an open of a stream that is open already fails and would lose the file, so the guard
-- on `is_exporting` comes first. Where the file does not open the exporter is exporting all the same, and
-- what it writes is lost.
unfoldable pub start_dump : Disk → Text → Exporter → Option Text → Exporter
start_dump disk now e dump_dir_overload =
    let dir : Text = elim dump_dir_overload [ none ↦ e.dump_dir | some d ↦ d ] in
    let file : Text = dir ++ (text "/dump_" ++ (now ++ text ".csv")) in
    if e.is_exporting then e else if not (disk.exists dir) then e else record e {
      dump_file = if disk.opens file then some (file, header_line) else none;
      is_exporting = true;
    }

-- `EndDump`
unfoldable pub end_dump : Exporter → Exporter
end_dump e = elim e.dump_file [
  | none ↦ record e { is_exporting = false }
  | some file ↦ record e { dump_file = none; is_exporting = false; closed = file ∷ e.closed }
]

module _ (p : Printer) where
  -- One round of the loop of `Dump`.
  unfoldable pub row : Metric → Text
  unfolding describe_device
  row m =
      p.metric_type_name m.type
      ++ (59
          ∷ (describe_device m.dev_id
              ++ (59 ∷ (dec_int64 m.timestamp ++ (59 ∷ (p.show_double m.value ++ 10 ∷ []))))))

  unfoldable pub rows : List Metric → Text
  unfolding row
  rows [] = []
  rows (m ∷ ms) = row m ++ rows ms

  -- `Dump`: a write to a stream that is not open is lost.
  unfoldable pub dump : Exporter → List Metric → Exporter
  unfolding rows
  dump e metrics = if not e.is_exporting then e else elim e.dump_file [
    | none ↦ e
    | some (path, content) ↦ record e { dump_file = some (path, content ++ rows metrics) }
  ]
