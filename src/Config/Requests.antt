-- ===== src/Config/Requests.antt =====
-- sources/agent/src/config/config_loader.cc: the metrics that a file can name.
use volta.Prelude.{
  ◌≡◌, inl, inr, ◌∙◌, true, false, some, List, [], ◌∷◌, ◌++◌, contains, ◌==◌, All, All-append,
  NoDup, NoDup-append_one, Text, text, Bool-cases, Option-cases,
}
use volta.Metric.{MetricType, unspecified}
use volta.Config.{Toml, Platform}
use volta.Config.Files.{
  append_metric, append_name, parse_metric_name, metric_entry, metric_entries, metrics_of,
}

abbrev IsMetric : Platform → MetricType → Type 0
IsMetric p m = (p.metric_is_valid m ≡ true) × ((m == unspecified) ≡ false)

-- Metrics as a file can name them: of the enum, not unspecified, and none twice.
abbrev pub IsRequest : Platform → List MetricType → Type 0
IsRequest p metrics = NoDup metrics × All (IsMetric p) metrics

-- The generated parser returns values of the enum.
abbrev pub ParsesValid : Platform → Type 0
ParsesValid p =
    (name : Text) (m : MetricType) → p.metric_parse name ≡ some m → p.metric_is_valid m ≡ true

append_metric-IsRequest :
    (p : Platform) (metrics : List MetricType) (m : MetricType)
    → p.metric_is_valid m ≡ true
    → IsRequest p metrics
    → IsRequest p (append_metric metrics m)
unfolding append_metric
append_metric-IsRequest p metrics m v (d, a) = elim (Bool-cases (m == unspecified)) [
  | inl e ↦ rw e (d, a)
  | inr e ↦ elim (Bool-cases (contains metrics m)) [
    | inl h ↦ rw (e, h) (d, a)
    | inr h ↦
        rw (e, h)
          (NoDup-append_one metrics m d h, All-append (IsMetric p) metrics (m ∷ []) a ((v, e), tt))
  ]
]

parse_metric_name-valid :
    (p : Platform)
    → ParsesValid p
    → (name : Text) (m : MetricType) → parse_metric_name p name ≡ some m
    → p.metric_is_valid m ≡ true
unfolding parse_metric_name
parse_metric_name-valid p h name m e = elim (Option-cases (p.metric_parse name)) [
  | inl n ↦ h (text "METRIC_TYPE_" ++ name) m (rw (n, parse_metric_name) at e)
  | inr (k, s) ↦ h name m (s ∙ rw (s, parse_metric_name) at e)
]

append_name-IsRequest :
    (p : Platform)
    → ParsesValid p
    → (metrics : List MetricType) (name : Text) → IsRequest p metrics
    → IsRequest p (append_name p metrics name)
unfolding append_name
append_name-IsRequest p h metrics name r = elim (Option-cases (parse_metric_name p name)) [
  | inl n ↦ rw (n, append_name) r
  | inr (m, s) ↦
      rw (s, append_name)
        (append_metric-IsRequest p metrics m (parse_metric_name-valid p h name m s) r)
]

module _ {Node : Type 0} (toml : Toml Node) (p : Platform) where
  metric_entry-IsRequest :
      (metrics : List MetricType) (item : Node)
      → ParsesValid p
      → IsRequest p metrics
      → IsRequest p (metric_entry toml p metrics item)
  unfolding metric_entry
  metric_entry-IsRequest metrics item v h = elim (Option-cases (toml.value_int item)) [
    | inr (n, i) ↦ elim (Bool-cases (p.metric_is_valid n)) [
      | inl e ↦ rw (i, e, metric_entry) (append_metric-IsRequest p metrics n e h)
      | inr e ↦ rw (i, e, metric_entry) h
    ]
    | inl i ↦ elim (Option-cases (toml.value_string item)) [
      | inl s ↦ rw (i, s, metric_entry) h
      | inr (name, s) ↦ rw (i, s, metric_entry) (append_name-IsRequest p v metrics name h)
    ]
  ]

  metric_entries-IsRequest :
      (items : List Node) (metrics : List MetricType)
      → ParsesValid p
      → IsRequest p metrics
      → IsRequest p (metric_entries toml p metrics items)
  unfolding metric_entries
  metric_entries-IsRequest [] metrics v h = h
  metric_entries-IsRequest (item ∷ items) metrics v h =
      metric_entries-IsRequest items _ v (metric_entry-IsRequest metrics item v h)

  pub metrics_of-IsRequest : (val : Node) → ParsesValid p → IsRequest p (metrics_of toml p val)
  unfolding metrics_of
  metrics_of-IsRequest val v = elim (Option-cases (toml.as_array val)) [
    | inr (items, a) ↦ rw (a, metrics_of) (metric_entries-IsRequest items [] v (tt, tt))
    | inl a ↦ elim (Option-cases (toml.value_string val)) [
      | inl s ↦ rw (a, s, metrics_of) (tt, tt)
      | inr (name, s) ↦ rw (a, s, metrics_of) (append_name-IsRequest p v [] name (tt, tt))
    ]
  ]
