-- ===== src/Config/Files.antt =====
-- sources/agent/src/config/config_loader.cc: what is read of the file. Messages are left out, but for the
-- keys that `CheckKeys` names.
use volta.Prelude.{
  ℕ, Bool, false, ◌||◌, Option, none, some, List, [], ◌∷◌, ◌++◌, Text, text, ◌=t=◌, contains,
  is_empty, if◌then◌else◌, ltb, ◌==◌,
}
use volta.Metric.{MetricType, unspecified}
use volta.Config.{
  Config, Toml, Platform, default_affinity, load_default_config, max_online_cpus, add_cpu,
  add_range, scan_range,
}

pub data File (Node : Type 0) : Type 0 where
  missing : File Node
  -- `toml::parse_error`
  malformed : File Node
  parsed : List (Text × Node) → File Node

-- `tbl.contains(key)` and `tbl[key]`
unfoldable pub lookup : {Node : Type 0} → Text → List (Text × Node) → Option Node
lookup key [] = none
lookup key ((k, v) ∷ tbl) = if k =t= key then some v else lookup key tbl

-- `append_metric`
unfoldable pub append_metric : List MetricType → MetricType → List MetricType
append_metric metrics metric =
    if metric == unspecified
    then metrics
    else if contains metrics metric
    then metrics
    else metrics ++ metric ∷ []

-- `parse_metric_name`
unfoldable pub parse_metric_name : Platform → Text → Option MetricType
parse_metric_name p name = elim (p.metric_parse name) [
  | some metric ↦ some metric
  | none ↦ p.metric_parse (text "METRIC_TYPE_" ++ name)
]

-- What the name adds to the metrics: nothing, if it is not one.
unfoldable pub append_name : Platform → List MetricType → Text → List MetricType
unfolding parse_metric_name append_metric
append_name p metrics name = elim (parse_metric_name p name) [
  | none ↦ metrics
  | some metric ↦ append_metric metrics metric
]

unfoldable pub valid_keys : List Text
valid_keys =
    text "core_affinity"
    ∷ text "interval"
    ∷ text "server_address"
    ∷ text "server_port"
    ∷ text "metrics"
    ∷ text "time_window"
    ∷ []

unfoldable pub is_valid_key : List Text → Text → Bool
is_valid_key [] key = false
is_valid_key (k ∷ ks) key = key =t= k || is_valid_key ks key

module _ {Node : Type 0} (toml : Toml Node) (p : Platform) where
  -- One round of the loop over the entries; `none` is the return.
  unfoldable pub affinity_entry : List ℕ → Node → Option (List ℕ)
  unfolding max_online_cpus add_cpu add_range scan_range
  affinity_entry mask item = elim (toml.value_uint32 item) [
    | some cpu ↦ add_cpu mask cpu (max_online_cpus p)
    | none ↦ elim (toml.value_string item) [
      | none ↦ none
      | some str ↦ elim (scan_range str) [
        | none ↦ none
        | some (from, to) ↦ add_range mask from to (max_online_cpus p)
      ]
    ]
  ]

  unfoldable pub affinity_entries : List ℕ → List Node → Option (List ℕ)
  unfolding affinity_entry
  affinity_entries mask [] = some mask
  affinity_entries mask (item ∷ items) = elim (affinity_entry mask item) [
    | none ↦ none
    | some mask' ↦ affinity_entries mask' items
  ]

  -- The value as an array.
  unfoldable pub affinity_array : Node → Config → Config
  unfolding affinity_entries
  affinity_array val c = elim (toml.as_array val) [
    | none ↦ c
    | some items ↦ elim (affinity_entries [] items) [
      | none ↦ c
      | some mask ↦ record c { core_affinity = mask }
    ]
  ]

  -- Whether the value is the text "all".
  unfoldable pub is_all : Node → Bool
  is_all val = elim (toml.value_string val) [ none ↦ false | some s ↦ s =t= text "all" ]

  unfoldable pub load_core_affinity : List (Text × Node) → Config → Config
  unfolding lookup is_all affinity_array
  load_core_affinity tbl c = elim (lookup (text "core_affinity") tbl) [
    | none ↦ c
    | some val ↦
        if is_all val then record c { core_affinity = default_affinity p } else affinity_array val c
  ]

  unfoldable pub load_interval : List (Text × Node) → Config → Config
  unfolding lookup
  load_interval tbl c = elim (lookup (text "interval") tbl) [
    | none ↦ c
    | some val ↦ elim (toml.value_uint32 val) [
      | none ↦ c
      | some ms ↦ record c { collection_interval = ms }
    ]
  ]

  unfoldable pub load_server_address : List (Text × Node) → Config → Config
  unfolding lookup
  load_server_address tbl c = elim (lookup (text "server_address") tbl) [
    | none ↦ c
    | some val ↦ elim (toml.value_string val) [
      | none ↦ c
      | some str ↦
          if p.is_valid_ip str || p.is_resolvable str then record c { server_address = str } else c
    ]
  ]

  unfoldable pub load_server_port : List (Text × Node) → Config → Config
  unfolding lookup
  load_server_port tbl c = elim (lookup (text "server_port") tbl) [
    | none ↦ c
    | some val ↦ elim (toml.value_uint16 val) [
      | none ↦ c
      | some port ↦ if ltb 0 port then record c { server_port = port } else c
    ]
  ]

  -- One round of the loop over the entries.
  unfoldable pub metric_entry : List MetricType → Node → List MetricType
  unfolding append_metric append_name
  metric_entry metrics item = elim (toml.value_int item) [
    | some number ↦ if p.metric_is_valid number then append_metric metrics number else metrics
    | none ↦ elim (toml.value_string item) [
      | none ↦ metrics
      | some name ↦ append_name p metrics name
    ]
  ]

  unfoldable pub metric_entries : List MetricType → List Node → List MetricType
  unfolding metric_entry
  metric_entries metrics [] = metrics
  metric_entries metrics (item ∷ items) = metric_entries (metric_entry metrics item) items

  -- The metrics that the value names: none, where it has another type.
  unfoldable pub metrics_of : Node → List MetricType
  unfolding metric_entries append_name
  metrics_of val = elim (toml.as_array val) [
    | some items ↦ metric_entries [] items
    | none ↦ elim (toml.value_string val) [ none ↦ [] | some name ↦ append_name p [] name ]
  ]

  unfoldable pub load_metrics : List (Text × Node) → Config → Config
  unfolding lookup metrics_of
  load_metrics tbl c = elim (lookup (text "metrics") tbl) [
    | none ↦ c
    | some val ↦
        if is_empty (metrics_of val) then c else record c { requested_metrics = metrics_of val }
  ]

  unfoldable pub load_time_window : List (Text × Node) → Config → Config
  unfolding lookup
  load_time_window tbl c = elim (lookup (text "time_window") tbl) [
    | none ↦ c
    | some val ↦ elim (toml.value_float val) [
      | none ↦ c
      | some window ↦
          if p.exceeds (p.times_1000 window) c.collection_interval
          then record c { buffered_time_window = p.to_uint32 (p.times_1000 window) }
          else c
    ]
  ]

  -- The keys that `CheckKeys` names.
  unfoldable pub check_keys : List (Text × Node) → List Text
  unfolding is_valid_key valid_keys
  check_keys [] = []
  check_keys ((key, _) ∷ tbl) =
      let rest = check_keys tbl in if is_valid_key valid_keys key then rest else key ∷ rest

  unfoldable pub load_config_file : File Node → Config → Config × List Text
  unfolding load_core_affinity load_interval load_time_window load_server_address load_server_port
      load_metrics check_keys
  load_config_file missing c = (c, [])
  load_config_file malformed c = (c, [])
  load_config_file (parsed tbl) c = (
    load_metrics tbl (
        load_server_port tbl (
          load_server_address tbl
            (load_time_window tbl (load_interval tbl (load_core_affinity tbl c))))),
    check_keys tbl,
  )

  unfoldable pub load_config : File Node → Config × List Text
  unfolding load_config_file load_default_config
  load_config file = load_config_file file (load_default_config p)
