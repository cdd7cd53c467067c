-- ===== src/Buffer/Metrics/Series.antt =====
-- `AddMetrics`, seen from one series: its ring takes the samples of its key, in order.
use volta.Prelude.{
  ◌≡◌, refl, some, List, [], ◌∷◌, arith, if◌then◌else◌, ◌==◌, is_empty, ◌∙◌, inl, inr, List-cases,
  ◌≤◌, length,
}
use volta.Metric.{Metric, unspecified}
use volta.Buffer.Keys.{BufferKey, key_eq, make_buffer_key, eq_of_key_eq}
use volta.Buffer.Series.{Sample, push, push_all}
use volta.Buffer.Metrics.{MetricsBuffer, get_buffer, add_metric, add_metrics, sample_of}
use volta.Buffer.Metrics.Lookup.{ring, get_buffer-add_sample, capacity-add_sample}

-- The samples of the metrics that go to a key.
abbrev pub samples_for : BufferKey → List Metric → List Sample
samples_for key [] = []
samples_for key (m ∷ ms) =
    let rest = samples_for key ms in
    if m.type == unspecified
    then rest
    else if key_eq (make_buffer_key m) key
    then sample_of m ∷ rest
    else rest

pub samples_for-le : (key : BufferKey) (ms : List Metric) → length (samples_for key ms) ≤ length ms
samples_for-le key [] = omega arith
samples_for-le key (m ∷ ms) = ground (arith, samples_for-le key ms)

get_buffer-add_metric :
    (m : MetricsBuffer) (metric : Metric) (key : BufferKey)
    → get_buffer (add_metric m metric) key ≡ (
        if metric.type == unspecified
        then get_buffer m key
        else if key_eq (make_buffer_key metric) key
        then some (push (ring m key) (sample_of metric))
        else get_buffer m key)
unfolding add_metric
get_buffer-add_metric m metric key = ground (
  arith,
  get_buffer-add_sample m (make_buffer_key metric) key (sample_of metric),
  eq_of_key_eq (make_buffer_key metric) key,
)

capacity-add_metric :
    (m : MetricsBuffer) (metric : Metric)
    → (add_metric m metric).capacity_per_series ≡ m.capacity_per_series
unfolding add_metric
capacity-add_metric m metric =
    ground (arith, capacity-add_sample m (make_buffer_key metric) (sample_of metric))

pub capacity-add_metrics :
    (ms : List Metric) (m : MetricsBuffer)
    → (add_metrics m ms).capacity_per_series ≡ m.capacity_per_series
unfolding add_metrics
capacity-add_metrics [] m = refl
capacity-add_metrics (x ∷ ms) m = capacity-add_metrics ms (add_metric m x) ∙ capacity-add_metric m x

-- After `AddMetrics` a series that no metric went to is as it was, and any other is its old ring, or
-- a new one of the map's capacity, with the samples of its metrics pushed in order.
pub get_buffer-add_metrics :
    (ms : List Metric) (m : MetricsBuffer) (key : BufferKey)
    → get_buffer (add_metrics m ms) key ≡ (
        if is_empty (samples_for key ms)
        then get_buffer m key
        else some (push_all (ring m key) (samples_for key ms)))
unfolding add_metrics push_all
get_buffer-add_metrics [] m key = refl
get_buffer-add_metrics (x ∷ ms) m key = elim (List-cases (samples_for key ms)) [
  | inl e ↦ ground (
    arith,
    get_buffer-add_metric m x key,
    capacity-add_metric m x,
    get_buffer-add_metrics ms (add_metric m x) key,
  )
  | inr (y, ys, e) ↦ ground (
    arith,
    get_buffer-add_metric m x key,
    capacity-add_metric m x,
    get_buffer-add_metrics ms (add_metric m x) key,
  )
]
