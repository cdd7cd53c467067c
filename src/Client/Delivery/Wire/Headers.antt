-- ===== src/Client/Delivery/Wire/Headers.antt =====
-- Headers name their series: every key of the buffer is that of its own header.
use volta.Prelude.{
  ℕ, ◌≡◌, Option, none, some, [], ◌∷◌, arith, All, All-append, is_some, Bool-cases, inl, inr, ◌==◌,
}
use volta.Metric.{Metric, DeviceId, FitsKind, unspecified}
use volta.Buffer.Series.{Snapshot}
use volta.Buffer.Keys.{BufferKey, make_buffer_key}
use volta.Buffer.Metrics.{
  MetricsBuffer, find, add_sample, add_metric, add_metrics, get_all_keys, ack,
}
use volta.Client.Stream.{header_device}
use volta.Client.Delivery.Wire.{key_of_header}

-- The fields that the header leaves out are 0.
abbrev pub IsPlain : BufferKey → Type 0
IsPlain k = key_of_header k.metric_type (header_device k) ≡ k

key-IsPlain :
    (type value timestamp : ℕ) (d : Option DeviceId)
    → FitsKind type d
    → IsPlain
        (make_buffer_key (record { type = type; dev_id = d; value = value; timestamp = timestamp }))
unfolding header_device make_buffer_key
key-IsPlain type v t none f = ground arith
key-IsPlain type v t (some (DeviceId.cpu a b)) f = ground arith
key-IsPlain type v t (some (DeviceId.gpu a b c e)) f = ground arith
key-IsPlain type v t (some (DeviceId.disk a b)) f = ground arith
key-IsPlain type v t (some (DeviceId.net a)) f = ground arith

add_metric-IsPlain :
    (m : MetricsBuffer) (metric : Metric)
    → FitsKind metric.type metric.dev_id
    → All IsPlain (get_all_keys m)
    → All IsPlain (get_all_keys (add_metric m metric))
unfolding add_metric add_sample get_all_keys
add_metric-IsPlain m metric f h = elim (Bool-cases (metric.type == unspecified)) [
  | inl e ↦ rw e h
  | inr e ↦ rw e (elim (Bool-cases (is_some (find (make_buffer_key metric) m.series))) [
    | inl old ↦ rw old h
    | inr new ↦ rw new (
        All-append IsPlain m.keys (make_buffer_key metric ∷ []) h
          (key-IsPlain metric.type metric.value metric.timestamp metric.dev_id f, tt))
  ])
]

pub add_metrics-IsPlain :
    (ms : _) (m : MetricsBuffer)
    → All (λ (x : Metric). FitsKind x.type x.dev_id) ms
    → All IsPlain (get_all_keys m)
    → All IsPlain (get_all_keys (add_metrics m ms))
unfolding add_metrics
add_metrics-IsPlain [] m f h = h
add_metrics-IsPlain (x ∷ xs) m f h =
    add_metrics-IsPlain xs (add_metric m x) f.1 (add_metric-IsPlain m x f.0 h)

pub get_all_keys-ack :
    (m : MetricsBuffer) (key : BufferKey) (t : Snapshot) {m' : MetricsBuffer}
    → ack m key t ≡ some m'
    → get_all_keys m' ≡ get_all_keys m
unfolding get_all_keys ack
get_all_keys-ack m key t {m'} e = ground arith
