-- ===== src/Collectors/Kinds.antt =====
-- The metrics that the collectors report, by their types and devices.
use volta.Prelude.{
  ℕ, ◌≤◌, ◌<◌, ◌≡◌, Bool, true, false, not, ◌&&◌, ◌||◌, Option, none, some, List, [], ◌∷◌, Text,
  arith, All, All-append, contains, is_empty, if◌then◌else◌, Bool-cases, Option-cases, inl, inr,
}
use volta.Metric.{
  Metric, DeviceId, Double, FitsKind, cpu_power_package, cpu_utilization, gpu_power,
  gpu_utilization, gpu_temperature, gpu_vram_used, gpu_shared_memory_utilization, ram_total,
  ram_used,
}
use volta.Collectors.Ram
use volta.Collectors.Ram.{RamCollector, read_stats}
use volta.Collectors.ProcStat
use volta.Collectors.ProcStat.{ProcStatCollector, read_cpu_stats}
use volta.Collectors.Nvml
use volta.Collectors.Nvml.{
  NvmlCollector, init, reading, readings, power, temperature_of, utilization, memory_utilization,
  vram,
}
use volta.Collectors.Rapl
use volta.Collectors.Rapl.{RaplCollector, read_msr, report, energy_status}

-- The metric has a type, and its device, if it names one, is of that type's kind.
abbrev pub IsReported : Metric → Type 0
IsReported m = (0 < m.type) × FitsKind m.type m.dev_id

abbrev pub stat_metrics : Option (ProcStatCollector × List Metric) → List Metric
stat_metrics none = []
stat_metrics (some (_, ms)) = ms

one_of_none :
    (b : Bool) (type value now : ℕ)
    → 0 < type
    → All IsReported (
        if b
        then record { type = type; dev_id = none; value = value; timestamp = now } ∷ []
        else [])
one_of_none true type value now h = ((h, tt), tt)
one_of_none false type value now h = tt

guarded : (b : Bool) (ms : List Metric) → All IsReported ms → All IsReported (if b then [] else ms)
guarded true ms h = tt
guarded false ms h = h

ram-IsReported :
    (d : Double) (c : RamCollector) (value : ℕ) (lines : List Text) (now : ℕ)
    → All IsReported (Ram.collect d c value lines now)
unfolding Ram.collect
ram-IsReported d c value lines now = guarded (not c.initialized || is_empty c.requested_metrics) _ (
    guarded
      (not (contains c.requested_metrics ram_total) && not (contains c.requested_metrics ram_used))
      _
      (All-append IsReported _ _
        (one_of_none (contains c.requested_metrics ram_total) ram_total _ now (omega arith))
        (one_of_none (contains c.requested_metrics ram_used) ram_used _ now (omega arith))))

stat-IsReported :
    (d : Double) (c : ProcStatCollector) (line : Option Text) (now : ℕ)
    → All IsReported (stat_metrics (ProcStat.collect d c line now))
unfolding ProcStat.collect
stat-IsReported d c line now = elim (Bool-cases (is_empty c.requested_metrics)) [
  | inl e ↦ rw e tt
  | inr e ↦ elim (Bool-cases (contains c.requested_metrics cpu_utilization)) [
    | inl f ↦ elim (Option-cases (read_cpu_stats line)) [
      | inl g ↦ rw (e, f, g) tt
      | inr ((total, idle), g) ↦ rw (e, f, g) ((omega arith, tt), tt)
    ]
    | inr f ↦ rw (e, f) tt
  ]
]

-- The device that `Init` finds is a GPU.
abbrev IsGpu : Option DeviceId → Type 0
IsGpu none = Unit {0}
IsGpu (some (DeviceId.gpu _ _ _ _)) = Unit
IsGpu (some (DeviceId.cpu _ _)) = ⊥
IsGpu (some (DeviceId.net _)) = ⊥
IsGpu (some (DeviceId.disk _ _)) = ⊥

init-IsGpu :
    (c : NvmlCollector) (library : Option Nvml.Nvml)
    → c.gpu_id ≡ none
    → IsGpu (init c library).0.gpu_id
unfolding init
init-IsGpu c none h = rw h tt
init-IsGpu c (some nvml) h = elim (Bool-cases nvml.init_succeeds) [
  | inl e ↦ elim (Option-cases (nvml.handle_by_index 0)) [
    | inl f ↦ rw (e, f) (rw h tt)
    | inr (handle, f) ↦ elim (Option-cases (nvml.pci_info handle)) [
      | inl g ↦ rw (e, f, g) (rw h tt)
      | inr (_, g) ↦ rw (e, f, g) tt
    ]
  ]
  | inr e ↦ rw e (rw h tt)
]

gpu-FitsKind :
    (type : ℕ) (d : Option DeviceId) → 200 ≤ type → type < 300 → IsGpu d → FitsKind type d
gpu-FitsKind type none h k g = tt
gpu-FitsKind type (some (DeviceId.gpu a b c e)) h k g = (h, k)
gpu-FitsKind type (some (DeviceId.cpu a b)) h k g = absurd g
gpu-FitsKind type (some (DeviceId.net a)) h k g = absurd g
gpu-FitsKind type (some (DeviceId.disk a b)) h k g = absurd g

module _ (c : NvmlCollector) (found : IsGpu c.gpu_id) where
  reading-IsReported :
      (now type : ℕ) (value : Option ℕ)
      → 200 ≤ type
      → type < 300
      → All IsReported (reading c now type value)
  unfolding reading
  reading-IsReported now type none h k = tt
  reading-IsReported now type (some v) h k = elim (Bool-cases (contains c.requested_metrics type)) [
    | inl e ↦ rw e ((omega arith, gpu-FitsKind type c.gpu_id h k found), tt)
    | inr e ↦ rw e tt
  ]

  nvml-IsReported :
      (d : Double) (nvml : Nvml.Nvml) (now : ℕ) → All IsReported (Nvml.collect d c nvml now)
  unfolding Nvml.collect readings power temperature_of utilization memory_utilization vram
  nvml-IsReported d nvml now =
      let join = All-append IsReported in
      guarded (not c.initialized || is_empty c.requested_metrics) _ (
        join (power d c nvml now) _ (reading-IsReported now gpu_power _ (omega arith) (omega arith))
          (join (temperature_of d c nvml now) _
            (reading-IsReported now gpu_temperature _ (omega arith) (omega arith))
            (join (utilization d c nvml now) _
              (reading-IsReported now gpu_utilization _ (omega arith) (omega arith))
              (join (memory_utilization d c nvml now) _
                (reading-IsReported now gpu_shared_memory_utilization _ (omega arith) (omega arith))
                (reading-IsReported now gpu_vram_used _ (omega arith) (omega arith))))))

report-IsReported :
    (d : Double) (now : ℕ) (c : RaplCollector) (r : Rapl.Result ℕ)
    → All IsReported
        (elim r as (λ x. RaplCollector × List Metric) [
          | Rapl.throws _ ↦ (c, [])
          | Rapl.ok readout ↦ report d c now readout
        ]).1
report-IsReported d now c (Rapl.throws e) = tt
report-IsReported d now c (Rapl.ok readout) = ((omega arith, (omega arith, omega arith)), tt)

rapl-IsReported :
    (d : Double) (pread : ℕ → ℕ → Option ℕ) (now : ℕ) (c : RaplCollector)
    → All IsReported (Rapl.collect d pread now c).1
unfolding Rapl.collect
rapl-IsReported d pread now c =
    elim (Bool-cases (not c.initialized || is_empty c.requested_metrics)) [
      | inl e ↦ rw e tt
      | inr e ↦ elim (Bool-cases (contains c.requested_metrics cpu_power_package)) [
        | inl f ↦ rw (e, f) (report-IsReported d now c (read_msr pread c.msr_files energy_status))
        | inr f ↦ rw (e, f) tt
      ]
    ]

-- Whatever the machine answers, at every collection of every collector: each metric that it reports has
-- a type, so that the buffer does not drop it, and a device, if it names one, of that type's kind, so
-- that the header of its batch names the series. The NVML collector was initialized, from no device.
pub collect-IsReported :
    (d : Double) (now : ℕ) (ram : RamCollector) (value : ℕ) (lines : List Text)
    (stat : ProcStatCollector) (line : Option Text) (gpu : NvmlCollector)
    (library : Option Nvml.Nvml) (nvml : Nvml.Nvml) (rapl : RaplCollector)
    (pread : ℕ → ℕ → Option ℕ)
    → gpu.gpu_id ≡ none
    → All IsReported (Ram.collect d ram value lines now)
      × All IsReported (stat_metrics (ProcStat.collect d stat line now))
      × All IsReported (Nvml.collect d (init gpu library).0 nvml now)
      × All IsReported (Rapl.collect d pread now rapl).1
collect-IsReported d now ram value lines stat line gpu library nvml rapl pread h = (
  ram-IsReported d ram value lines now,
  stat-IsReported d stat line now,
  nvml-IsReported (init gpu library).0 (init-IsGpu gpu library h) d nvml now,
  rapl-IsReported d pread now rapl,
)
