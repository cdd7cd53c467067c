-- ===== src/Client/Stream/Device.antt =====
-- The device that the server reads in a batch's header, against the device of the metric.
use volta.Prelude.{ℕ, ◌≤◌, ◌<◌, ◌≡◌, Option, none, some, arith, ◌⊎◌}
use volta.Metric.{Metric, DeviceId}
use volta.Buffer.Keys.{make_buffer_key}
use volta.Buffer.Keys.Range.{InRange}
use volta.Client.Stream.{header_device}

-- The metric's type lies in the range of its device's kind: CPU [100, 199], GPU [200, 299], disk
-- [400, 499], network [500, 599], and outside these four ranges for a metric of no device.
abbrev FitsDevice : ℕ → Option DeviceId → Type 0
FitsDevice type none = (type < 100) ⊎ (((300 ≤ type) × (type < 400)) ⊎ (600 ≤ type))
FitsDevice type (some (DeviceId.cpu _ _)) = (100 ≤ type) × (type < 200)
FitsDevice type (some (DeviceId.gpu _ _ _ _)) = (200 ≤ type) × (type < 300)
FitsDevice type (some (DeviceId.disk _ _)) = (400 ≤ type) × (type < 500)
FitsDevice type (some (DeviceId.net _)) = (500 ≤ type) × (type < 600)

header_device-key :
    (type value timestamp : ℕ) (d : Option DeviceId)
    → FitsDevice type d
    → InRange d
    → header_device
        (make_buffer_key (record { type = type; dev_id = d; value = value; timestamp = timestamp }))
      ≡ d
unfolding header_device make_buffer_key
header_device-key type v t none f r = ground arith
header_device-key type v t (some (DeviceId.gpu a b c e)) f r = ground arith
header_device-key type v t (some d) f r = ground arith

-- The header of a batch names the device of its metrics, where the type lies in the range of the
-- device's kind and the device's numbers fit the fields of the key.
pub header_device-make_buffer_key :
    (m : Metric)
    → FitsDevice m.type m.dev_id
    → InRange m.dev_id
    → header_device (make_buffer_key m) ≡ m.dev_id
header_device-make_buffer_key m f r = header_device-key m.type m.value m.timestamp m.dev_id f r

-- A metric of no device whose type lies in the CPU range, such as the CPU utilization that the
-- /proc/stat collector reports for the whole machine, is sent as that of socket 0, core 0.
header_device-no_device :
    (type value timestamp : ℕ)
    → 100 ≤ type
    → type < 200
    → header_device (
        make_buffer_key
          (record { type = type; dev_id = none; value = value; timestamp = timestamp }))
      ≡ some (DeviceId.cpu 0 0)
unfolding header_device make_buffer_key
header_device-no_device type v t h k = ground arith
