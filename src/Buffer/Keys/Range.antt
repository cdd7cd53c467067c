-- ===== src/Buffer/Keys/Range.antt =====
-- When `MakeBufferKey` keeps devices apart, and when it does not.
use volta.Prelude.{ℕ, ◌<◌, ◌^◌, ◌≡◌, refl, Option, none, some, arith}
use volta.Metric.{Metric, DeviceId}
use volta.Buffer.Keys.{make_buffer_key}

-- The device's numbers fit the fields of a `BufferKey`.
abbrev pub InRange : Option DeviceId → Type 0
InRange none = Unit {0}
InRange (some (DeviceId.gpu domain bus device function)) =
    (domain < 2 ^ 16) × (bus < 2 ^ 8) × (device < 2 ^ 8) × (function < 2 ^ 8)
InRange (some (DeviceId.cpu socket core)) = (socket < 2 ^ 8) × (core < 2 ^ 16)
InRange (some (DeviceId.net ifindex)) = Unit
InRange (some (DeviceId.disk major minor)) = Unit

-- Two metrics name devices of one kind, or none.
abbrev SameKind : Option DeviceId → Option DeviceId → Type 0
SameKind none none = Unit
SameKind (some (DeviceId.gpu _ _ _ _)) (some (DeviceId.gpu _ _ _ _)) = Unit
SameKind (some (DeviceId.cpu _ _)) (some (DeviceId.cpu _ _)) = Unit
SameKind (some (DeviceId.net _)) (some (DeviceId.net _)) = Unit
SameKind (some (DeviceId.disk _ _)) (some (DeviceId.disk _ _)) = Unit
SameKind _ _ = ⊥

device_of_key :
    (s t : ℕ) (d e : Option DeviceId) (v w x y : ℕ)
    → SameKind d e
    → InRange d
    → InRange e
    → make_buffer_key (record { type = s; dev_id = d; value = v; timestamp = w })
      ≡ make_buffer_key (record { type = t; dev_id = e; value = x; timestamp = y })
    → (s ≡ t) × (d ≡ e)
unfolding make_buffer_key
device_of_key s t none none v w x y k i j h = ground arith
device_of_key s t (some (DeviceId.gpu a b c f)) (some (DeviceId.gpu a' b' c' f')) v w x y k i j h =
    ground arith
device_of_key s t d e v w x y k i j h = ground arith

-- Metrics whose devices are of one kind and fit the key's fields share a series only if they have
-- the same type and the same device.
pub make_buffer_key-injective :
    (m n : Metric)
    → SameKind m.dev_id n.dev_id
    → InRange m.dev_id
    → InRange n.dev_id
    → make_buffer_key m ≡ make_buffer_key n
    → (m.type ≡ n.type) × (m.dev_id ≡ n.dev_id)
make_buffer_key-injective m n k i j h =
    device_of_key m.type n.type m.dev_id n.dev_id m.value m.timestamp n.value n.timestamp k i j h

-- A metric of no device shares the series of the metrics of the same type for socket 0, core 0.
make_buffer_key_shared :
    (type v w x y : ℕ)
    → make_buffer_key (record { type = type; dev_id = none; value = v; timestamp = w })
      ≡ make_buffer_key
          (record { type = type; dev_id = some (DeviceId.cpu 0 0); value = x; timestamp = y })
unfolding make_buffer_key
make_buffer_key_shared type v w x y = refl
