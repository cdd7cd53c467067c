-- ===== src/Metric.antt =====
-- sources/agent/src/metric.h and the messages of sources/proto/types/metric.proto that it holds.
-- A `double` is the number of its bit pattern: the agent's buffers only move it. An `int64_t`
-- timestamp is its bit pattern too. The enum `MetricType` is its number on the wire.
use volta.Prelude.{ℕ, ◌≤◌, ◌<◌, Option, none, some, Bool, is_some}

abbrev pub MetricType : Type 0
MetricType = ℕ

-- `MetricType::METRIC_TYPE_UNSPECIFIED` and the kinds that the collectors produce.
abbrev pub unspecified : MetricType
unspecified = 0

abbrev pub cpu_power_package : MetricType
cpu_power_package = 100

abbrev pub cpu_utilization : MetricType
cpu_utilization = 103

abbrev pub gpu_power : MetricType
gpu_power = 200

abbrev pub gpu_utilization : MetricType
gpu_utilization = 202

abbrev pub gpu_temperature : MetricType
gpu_temperature = 203

abbrev pub gpu_vram_used : MetricType
gpu_vram_used = 204

abbrev pub gpu_shared_memory_utilization : MetricType
gpu_shared_memory_utilization = 207

abbrev pub ram_total : MetricType
ram_total = 301

abbrev pub ram_used : MetricType
ram_used = 303

-- `std::variant<GpuID, CpuID, NetInterfaceID, DiskID>`; every field is a `uint32`.
pub data DeviceId : Type 0 where
  gpu : ℕ → ℕ → ℕ → ℕ → DeviceId
  cpu : ℕ → ℕ → DeviceId
  net : ℕ → DeviceId
  disk : ℕ → ℕ → DeviceId

pub record Metric : Type 0 where
  pub type : MetricType
  pub dev_id : Option DeviceId
  pub value : ℕ
  pub timestamp : ℕ

-- A metric's device, if it names one, is of the kind of its type: CPU [100, 199], GPU [200, 299], disk
-- [400, 499], network [500, 599].
abbrev pub FitsKind : ℕ → Option DeviceId → Type 0
FitsKind type none = Unit {0}
FitsKind type (some (DeviceId.cpu _ _)) = (100 ≤ type) × (type < 200)
FitsKind type (some (DeviceId.gpu _ _ _ _)) = (200 ≤ type) × (type < 300)
FitsKind type (some (DeviceId.disk _ _)) = (400 ≤ type) × (type < 500)
FitsKind type (some (DeviceId.net _)) = (500 ≤ type) × (type < 600)

abbrev has_device : Metric → Bool
has_device m = is_some m.dev_id

-- The operations on doubles that the collectors use, at their bit patterns. The bit pattern of 0.0
-- is 0.
pub record Double : Type 0 where
  pub of_uint64 : ℕ → ℕ
  pub sub : ℕ → ℕ → ℕ
  pub mul : ℕ → ℕ → ℕ
  pub div : ℕ → ℕ → ℕ
  -- 0.5 to the power of a number
  pub half_pow : ℕ → ℕ
