-- ===== src/Collectors/Nvml.antt =====
-- sources/agent/src/collectors/nvml_collector.h and nvml_collector.cc. What the functions of NVML answer
-- at a call is a parameter, and so is the clock; `none` is another result than `NVML_SUCCESS`. A pointer
-- to the functions is set exactly when `initialized_` is.
pub mod Sessions
pub mod Readings
use volta.Prelude.{
  ℕ, ◌+◌, Bool, true, false, not, ◌&&◌, ◌||◌, Option, none, some, List, [], ◌∷◌, ◌++◌, contains,
  is_empty, if◌then◌else◌, ◌==◌,
}
use volta.Metric.{
  Metric, MetricType, DeviceId, gpu, Double, gpu_power, gpu_utilization, gpu_temperature,
  gpu_vram_used, gpu_shared_memory_utilization,
}

-- The answers of NVML: whether `Init` succeeds, and the values of the functions by device handle.
pub record Nvml : Type 0 where
  pub init_succeeds : Bool
  pub device_count : Option ℕ
  pub handle_by_index : ℕ → Option ℕ
  -- domain, bus and device
  pub pci_info : ℕ → Option (ℕ × ℕ × ℕ)
  pub power_usage : ℕ → Option ℕ
  pub temperature : ℕ → Option ℕ
  -- gpu and memory
  pub utilization_rates : ℕ → Option (ℕ × ℕ)
  -- used and total
  pub memory_info : ℕ → Option (ℕ × ℕ)

-- The calls that NVML counts: an `Init` that succeeds, and `Shutdown`.
pub data Effect : Type 0 where
  opened : Effect
  closed : Effect

pub record NvmlCollector : Type 0 where
  pub requested_metrics : List MetricType
  pub gpu_id : Option DeviceId
  pub device_handle : ℕ
  pub initialized : Bool

-- `Init`; `none` for the library is one that `TryLoadNvml` could not load.
unfoldable pub init : NvmlCollector → Option Nvml → NvmlCollector × Bool × List Effect
init c none = (c, false, [])
init c (some nvml) =
    if not nvml.init_succeeds then (c, false, []) else elim (nvml.handle_by_index 0) [
      | none ↦ (c, false, opened ∷ closed ∷ [])
      | some handle ↦ elim (nvml.pci_info handle) [
        | none ↦ (record c { device_handle = handle }, false, opened ∷ closed ∷ [])
        | some (domain, bus, device) ↦ (
          record c {
            device_handle = handle;
            gpu_id = some (gpu domain bus device 0);
            initialized = true;
          },
          true,
          opened ∷ [],
        )
      ]
    ]

unfoldable pub is_supported : Option Nvml → Bool × List Effect
is_supported none = (false, [])
is_supported (some nvml) = if not nvml.init_succeeds then (false, []) else elim nvml.device_count [
  | none ↦ (false, opened ∷ closed ∷ [])
  | some device_count ↦
      if device_count == 0 then (false, opened ∷ closed ∷ []) else elim (nvml.handle_by_index 0) [
        | none ↦ (false, opened ∷ closed ∷ [])
        | some _ ↦ (true, opened ∷ closed ∷ [])
      ]
]

-- The destructor.
unfoldable pub destroy : NvmlCollector → List Effect
destroy c = if c.initialized then closed ∷ [] else []

unfoldable pub set_requested_metrics : NvmlCollector → List MetricType → NvmlCollector
set_requested_metrics c metrics = record c { requested_metrics = metrics }

unfoldable pub satisfiable : List MetricType
satisfiable =
    gpu_vram_used ∷ gpu_utilization ∷ gpu_shared_memory_utilization ∷ gpu_temperature ∷ gpu_power
    ∷ []

-- The metrics of one kind: one, where the kind is requested and the function answered.
unfoldable pub reading : NvmlCollector → ℕ → MetricType → Option ℕ → List Metric
reading c now type none = []
reading c now type (some value) =
    if contains c.requested_metrics type
    then record { type = type; dev_id = c.gpu_id; value = value; timestamp = now } ∷ []
    else []

abbrev pub answer : {A : Type 0} → (A → ℕ) → Option A → Option ℕ
answer f none = none
answer f (some a) = some (f a)

-- The blocks of `Collect`, one for each kind. A function of NVML that nothing requested needs is not
-- called by the source; such a call has no effect here, and `reading` asks what is requested.
unfoldable pub power : Double → NvmlCollector → Nvml → ℕ → List Metric
unfolding reading
power d c nvml now = reading c now gpu_power (
    answer (λ power_mw. d.div (d.of_uint64 power_mw) (d.of_uint64 1000))
      (nvml.power_usage c.device_handle))

unfoldable pub temperature_of : Double → NvmlCollector → Nvml → ℕ → List Metric
unfolding reading
temperature_of d c nvml now =
    reading c now gpu_temperature (answer d.of_uint64 (nvml.temperature c.device_handle))

unfoldable pub utilization : Double → NvmlCollector → Nvml → ℕ → List Metric
unfolding reading
utilization d c nvml now =
    reading c now gpu_utilization
      (answer (λ u. d.of_uint64 u.0) (nvml.utilization_rates c.device_handle))

unfoldable pub memory_utilization : Double → NvmlCollector → Nvml → ℕ → List Metric
unfolding reading
memory_utilization d c nvml now =
    reading c now gpu_shared_memory_utilization
      (answer (λ u. d.of_uint64 u.1) (nvml.utilization_rates c.device_handle))

unfoldable pub vram : Double → NvmlCollector → Nvml → ℕ → List Metric
unfolding reading
vram d c nvml now =
    reading c now gpu_vram_used
      (answer (λ m. d.div (d.of_uint64 m.0) (d.of_uint64 m.1)) (nvml.memory_info c.device_handle))

unfoldable pub readings : Double → NvmlCollector → Nvml → ℕ → List Metric
unfolding power temperature_of utilization memory_utilization vram
readings d c nvml now =
    power d c nvml now
    ++ (temperature_of d c nvml now
        ++ (utilization d c nvml now ++ (memory_utilization d c nvml now ++ vram d c nvml now)))

unfoldable pub collect : Double → NvmlCollector → Nvml → ℕ → List Metric
unfolding readings
collect d c nvml now =
    let metrics = readings d c nvml now in
    if not c.initialized || is_empty c.requested_metrics then [] else metrics
