-- ===== src/Scheduler/Dashboard.antt =====
-- sources/agent/src/scheduler.cc: `DescribeKey` and `PrintDashboard`, the table of the latest samples.
use volta.Prelude.{
  ℕ, ◌-◌, Bool, not, ◌&&◌, List, [], ◌∷◌, ◌++◌, Text, text, dec, dec_int64, starts_with, drop,
  length, ◌==◌, if◌then◌else◌, replicate,
}
use volta.Buffer.Series.{Sample}
use volta.Buffer.Keys.{BufferKey}
use volta.Buffer.Metrics.{MetricsBuffer, latest_samples}
use volta.Exporter.{Printer, Exporter}

-- `DescribeKey`
unfoldable pub describe_key : BufferKey → Text
describe_key key =
    if not
      (key.pci_domain == 0 && (key.pci_bus == 0 && (key.pci_device == 0 && key.pci_function == 0)))
    then text "gpu="
      ++ (dec key.pci_domain
          ++ (text ":"
              ++ (dec key.pci_bus
                  ++ (text ":" ++ (dec key.pci_device ++ (text "." ++ dec key.pci_function))))))
    else if not (key.socket_index == 0 && key.core_index == 0)
    then text "cpu=" ++ (dec key.socket_index ++ (text "/" ++ dec key.core_index))
    else if not (key.ifindex == 0)
    then text "net_ifindex=" ++ dec key.ifindex
    else if not (key.disk_major == 0 && key.disk_minor == 0)
    then text "disk=" ++ (dec key.disk_major ++ (text ":" ++ dec key.disk_minor))
    else text "system"

-- `std::left << std::setw(width)`
abbrev pad : ℕ → Text → Text
pad width t = t ++ replicate (width - length t) b' '

-- A metric's name without the prefix of its enum.
unfoldable pub short_name : Text → Text
short_name name =
    if starts_with name (text "METRIC_TYPE_")
    then drop (length (text "METRIC_TYPE_")) name
    else name

-- A line of `n` times the byte.
abbrev rule : ℕ → ℕ → Text
rule n c = replicate n c ++ 10 ∷ []

-- What is printed above the rows: the escapes that clear the screen, the title, and the columns' names.
unfoldable pub heading : Text
heading =
    27 ∷ text "[2J"
    ++ (27 ∷ text "[1;1H"
        ++ (rule 47 b'='
            ++ (text "    VOLTA AGENT - ACTIVE MONITOR    "
                ++ (10 ∷ rule 47 b'='
                    ++ (pad 42 (text "METRIC NAME")
                        ++ (pad 38 (text "DEVICE")
                            ++ (text "    VALUE" ++ (10 ∷ rule 47 b'-'))))))))

-- What is printed below them, at the number of series, whether a dump is in progress, and the capacity.
unfoldable pub footing : ℕ → Bool → ℕ → Text
footing series exporting capacity =
    rule 47 b'-'
    ++ (text "Data points collected: "
        ++ (dec series
            ++ (10
                ∷ ((if exporting then text "Export in progress... " ++ 10 ∷ [] else [])
                    ++ (text "# of metrics buffered: "
                        ++ (dec capacity ++ (10 ∷ text "Press Ctrl+C to exit." ++ 10 ∷ [])))))))

module _ (p : Printer) where
  -- One line of the table of `PrintDashboard`, the value printed with two decimals by `p`.
  unfoldable pub dashboard_row : BufferKey × Sample → Text
  unfolding short_name describe_key
  dashboard_row (key, sample) =
      pad 42 (short_name (p.metric_type_name key.metric_type))
      ++ (pad 38 (describe_key key)
          ++ (text "    "
              ++ (p.show_double sample.value
                  ++ (text " @ " ++ (dec_int64 sample.timestamp_ns ++ 10 ∷ [])))))

  unfoldable pub dashboard_rows : List (BufferKey × Sample) → Text
  unfolding dashboard_row
  dashboard_rows [] = []
  dashboard_rows (x ∷ xs) = dashboard_row x ++ dashboard_rows xs

  -- `PrintDashboard`; the rows stand in the map's order, which is that of creation here.
  unfoldable pub dashboard : MetricsBuffer → Exporter → Text
  unfolding heading footing dashboard_rows
  dashboard m e =
      heading
      ++ (dashboard_rows (latest_samples m)
          ++ footing (length (latest_samples m)) e.is_exporting m.capacity_per_series)
