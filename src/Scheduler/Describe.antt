-- ===== src/Scheduler/Describe.antt =====
-- The device that the dashboard shows for a series, against the one that the dump writes.
use volta.Prelude.{ℕ, dec, ◌+◌, ◌<◌, ◌≡◌, refl, Option, none, some, arith, text}
use volta.Metric.{Metric, DeviceId}
use volta.Buffer.Keys.{make_buffer_key}
use volta.Buffer.Keys.Range.{InRange}
use volta.Exporter.{describe_device}
use volta.Scheduler.Dashboard.{describe_key}

-- Some number of the device is not 0.
abbrev IsNonzero : Option DeviceId → Type 0
IsNonzero none = Unit
IsNonzero (some (DeviceId.gpu a b c d)) = 0 < a + b + c + d
IsNonzero (some (DeviceId.cpu s c)) = 0 < s + c
IsNonzero (some (DeviceId.net i)) = 0 < i
IsNonzero (some (DeviceId.disk a b)) = 0 < a + b

describe_key-device :
    (type value timestamp : ℕ) (d : Option DeviceId)
    → InRange d
    → IsNonzero d
    → describe_key
        (make_buffer_key (record { type = type; dev_id = d; value = value; timestamp = timestamp }))
      ≡ describe_device d
unfolding describe_key describe_device make_buffer_key
describe_key-device t v w none r n = refl
describe_key-device t v w (some (DeviceId.gpu a b c d)) r n = ground arith
describe_key-device t v w (some d) r n = ground arith

-- For a device whose numbers fit the key's fields and are not all 0, and for a metric of no device,
-- the dashboard and the dump describe the same device.
describe_key-make_buffer_key :
    (m : Metric)
    → InRange m.dev_id
    → IsNonzero m.dev_id
    → describe_key (make_buffer_key m) ≡ describe_device m.dev_id
describe_key-make_buffer_key m r n = describe_key-device m.type m.value m.timestamp m.dev_id r n

-- CPU socket 0, core 0, for which the RAPL collector reports the package power, is shown as `system`
-- by the dashboard, and as `cpu=0/0` by the dump.
describe_key-cpu_zero :
    (type value timestamp : ℕ)
    → (describe_key (
          make_buffer_key (record {
            type = type;
            dev_id = some (DeviceId.cpu 0 0);
            value = value;
            timestamp = timestamp;
          }))
        ≡ text "system")
      × (describe_device (some (DeviceId.cpu 0 0)) ≡ text "cpu=0/0")
unfolding describe_key describe_device make_buffer_key dec
describe_key-cpu_zero t v w = (refl, refl)
