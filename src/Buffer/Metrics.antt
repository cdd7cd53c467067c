-- ===== src/Buffer/Metrics.antt =====
-- sources/agent/src/buffer.h and buffer.cc: `MetricsBuffer`.
-- The hash map of shared rings is an association list by key: a ring, once made, is never replaced,
-- so a pointer to it and its key say the same. The order in which the list stands is the order of
-- creation; the source's iteration order is unspecified, and no theorem depends on it.
pub mod Lookup
pub mod Series
pub mod Valid
pub mod Acks
use volta.Prelude.{
  ℕ, ◌/◌, ◌≡◌, Bool, true, false, Option, none, some, List, [], ◌∷◌, ◌++◌, map, ◌==◌, if◌then◌else◌,
  is_some,
}
use volta.Metric.{Metric, unspecified}
use volta.Buffer.Keys.{BufferKey, key_eq, make_buffer_key}
use volta.Buffer.Series.{
  Sample, SeriesBuffer, Snapshot, new, push, latest, set_capacity, ack_snapshot,
}

abbrev pub SeriesMap : Type 0
SeriesMap = List (BufferKey × SeriesBuffer)

pub record MetricsBuffer : Type 0 where
  pub capacity_per_series : ℕ
  pub series : SeriesMap
  pub keys : List BufferKey

-- `series_.find`
unfoldable pub find : BufferKey → SeriesMap → Option SeriesBuffer
find key [] = none
find key ((k, b) ∷ rest) = if key_eq k key then some b else find key rest

-- A method of the ring under a key, called through the map's pointer.
unfoldable pub update : BufferKey → (SeriesBuffer → SeriesBuffer) → SeriesMap → SeriesMap
update key f [] = []
update key f ((k, b) ∷ rest) = if key_eq k key then (k, f b) ∷ rest else (k, b) ∷ update key f rest

-- The constructor, at the configuration's time window and interval in milliseconds. The quotient is
-- undefined where the interval is 0, and there is no buffer then.
unfoldable pub create : ℕ → ℕ → Option MetricsBuffer
create buffered_time_window collection_interval =
    if collection_interval == 0
    then none
    else some (record {
      capacity_per_series = buffered_time_window / collection_interval;
      series = [];
      keys = [];
    })

unfoldable pub set_capacity_per_series : MetricsBuffer → ℕ → MetricsBuffer
set_capacity_per_series m capacity = record m {
  capacity_per_series = capacity;
  series = map (λ (k, b). (k, set_capacity b capacity)) m.series;
}

unfoldable pub get_buffer : MetricsBuffer → BufferKey → Option SeriesBuffer
unfolding find
get_buffer m key = find key m.series

-- `emplace` adds a ring of the map's capacity only where the key is new.
unfoldable pub add_sample : MetricsBuffer → BufferKey → Sample → MetricsBuffer
unfolding find
add_sample m key sample =
    if is_some (find key m.series)
    then record m { series = update key (λ b. push b sample) m.series }
    else record m {
      series = m.series ++ (key, push (new m.capacity_per_series) sample) ∷ [];
      keys = m.keys ++ key ∷ [];
    }

abbrev pub sample_of : Metric → Sample
sample_of metric = record { timestamp_ns = metric.timestamp; value = metric.value }

unfoldable pub add_metric : MetricsBuffer → Metric → MetricsBuffer
add_metric m metric =
    if metric.type == unspecified
    then m
    else add_sample m (make_buffer_key metric) (sample_of metric)

unfoldable pub add_metrics : MetricsBuffer → List Metric → MetricsBuffer
unfolding add_metric
add_metrics m [] = m
add_metrics m (metric ∷ metrics) = add_metrics (add_metric m metric) metrics

unfoldable pub latest_of : MetricsBuffer → BufferKey → Option Sample
latest_of m key = elim (get_buffer m key) [ none ↦ none | some b ↦ latest b ]

latest_from : SeriesMap → List (BufferKey × Sample)
latest_from [] = []
latest_from ((k, b) ∷ rest) =
    let others = latest_from rest in elim (latest b) [ none ↦ others | some x ↦ (k, x) ∷ others ]

unfoldable pub latest_samples : MetricsBuffer → List (BufferKey × Sample)
unfolding latest_from
latest_samples m = latest_from m.series

unfoldable pub get_all_keys : MetricsBuffer → List BufferKey
get_all_keys m = m.keys

-- `GetBuffer(key)->AckSnapshot(snapshot)`; `none` is the call through the null pointer.
unfoldable pub ack : MetricsBuffer → BufferKey → Snapshot → Option MetricsBuffer
unfolding get_buffer
ack m key snapshot =
    if is_some (get_buffer m key)
    then some (record m { series = update key (λ b. ack_snapshot b snapshot) m.series })
    else none
