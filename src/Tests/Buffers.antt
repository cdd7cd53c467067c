-- ===== src/Tests/Buffers.antt =====
-- Rings and the map of rings, at small samples.
use volta.Prelude.{
  none, ℕ, ◌≡◌, refl, some, [], ◌∷◌, ◌++◌, arith, keep_last, is_empty, if◌then◌else◌, ◌^◌, ◌-◌,
}
use volta.Metric.{Metric, DeviceId, gpu_power}
use volta.Buffer.Series.{Sample, SeriesBuffer, new, push, push_all, get_snapshot, set_capacity}
use volta.Buffer.Series.Bounds.{IsValid, new-IsValid, push-IsValid}
use volta.Buffer.Series.Unsent.{unsent, push_all_refines}
use volta.Buffer.Series.Stall.{set_capacity_stalls}
use volta.Buffer.Keys.{make_buffer_key}
use volta.Buffer.Keys.Range.{make_buffer_key-injective}
use volta.Buffer.Metrics.{MetricsBuffer, get_buffer, add_metrics, create}
use volta.Buffer.Metrics.Lookup.{ring}
use volta.Buffer.Metrics.Series.{samples_for, get_buffer-add_metrics}
use volta.Buffer.Metrics.Valid.{create-IsConsistent, IsConsistent}

abbrev at : ℕ → Sample
at n = record { timestamp_ns = n; value = 10 }

-- A ring of two samples with one sample pushed.
abbrev one_pushed : SeriesBuffer
one_pushed = push (new 2) (at 1)

one_pushed-IsValid : IsValid one_pushed
unfolding new
one_pushed-IsValid = push-IsValid (at 1) (new-IsValid 2) (omega arith)

push_all_refines_example :
    unsent (push_all one_pushed (at 2 ∷ at 3 ∷ []))
    ≡ keep_last one_pushed.capacity (unsent one_pushed ++ at 2 ∷ at 3 ∷ [])
unfolding push new
push_all_refines_example =
    push_all_refines (at 2 ∷ at 3 ∷ []) one_pushed-IsValid (omega arith) (omega arith)

-- A ring of one sample that has dropped one: its tail is 1.
abbrev dropped : SeriesBuffer
dropped = push (push (new 1) (at 1)) (at 2)

set_capacity_stalls_example :
    get_snapshot (push_all (set_capacity dropped 3) (at 3 ∷ at 4 ∷ [])) ≡ none
unfolding push new
set_capacity_stalls_example =
    set_capacity_stalls dropped 3 (at 3 ∷ at 4 ∷ []) (omega arith) (omega arith) (omega arith)
      (omega arith) (omega arith)

abbrev power_of : ℕ → Metric
power_of bus = record {
  type = gpu_power;
  dev_id = some (DeviceId.gpu 0 bus 3 0);
  value = 50;
  timestamp = 7;
}

make_buffer_key-injective_example :
    ((power_of 4).type ≡ (power_of 4).type) × ((power_of 4).dev_id ≡ (power_of 4).dev_id)
make_buffer_key-injective_example =
    make_buffer_key-injective (power_of 4) (power_of 4) tt (omega arith) (omega arith) refl

abbrev empty_buffer : MetricsBuffer
empty_buffer = record { capacity_per_series = 4; series = []; keys = [] }

get_buffer-add_metrics_example :
    get_buffer
      (add_metrics empty_buffer (power_of 4 ∷ power_of 5 ∷ []))
      (make_buffer_key (power_of 5))
    ≡ (if is_empty (samples_for (make_buffer_key (power_of 5)) (power_of 4 ∷ power_of 5 ∷ []))
        then get_buffer empty_buffer (make_buffer_key (power_of 5))
        else some (
            push_all
              (ring empty_buffer (make_buffer_key (power_of 5)))
              (samples_for (make_buffer_key (power_of 5)) (power_of 4 ∷ power_of 5 ∷ []))))
get_buffer-add_metrics_example =
    get_buffer-add_metrics (power_of 4 ∷ power_of 5 ∷ []) empty_buffer
      (make_buffer_key (power_of 5))

created-IsConsistent : IsConsistent (2 ^ 64 - 1) empty_buffer
unfolding create
created-IsConsistent = create-IsConsistent 2000 500 refl

abbrev filled : MetricsBuffer
filled = add_metrics empty_buffer (power_of 4 ∷ power_of 5 ∷ [])
