-- ===== src/Platform/Detector/Gpus.antt =====
-- The part of `Detect` under HAVE_NVML: the GPUs that NVML names. A handle that NVML does not give is read
-- without a value, which is undefined: `none`.
use volta.Prelude.{
  ℕ, zero, suc, ◌+◌, ◌<◌, ◌≡◌, refl, Bool, true, Option, none, some, List, [], ◌∷◌, ◌++◌, Text,
  arith, is_some, map, if◌then◌else◌, Bool-cases, inl, inr,
}
use volta.Collectors.Nvml.{Effect, opened, closed}
use volta.Collectors.Nvml.Sessions.{sessions}
use volta.Platform.Detector.{GpuVendor, GpuInfo, HardwareInfo, detect}

-- What NVML answers. `none` for the number of devices leaves the variable at 0.
pub record Devices : Type 0 where
  pub init_succeeds : Bool
  pub count : Option ℕ
  pub handle_by_index : ℕ → Option ℕ
  pub name : ℕ → Option Text

abbrev pub device_count : Devices → ℕ
device_count d = elim d.count [ none ↦ 0 | some n ↦ n ]

abbrev gpu_named : Text → GpuInfo
gpu_named name = record {
  vendor = GpuVendor.nvidia;
  model_name = name;
  pci_address = [];
  driver_version = [];
  vram_total_bytes = 0;
  power_limit_watts = 0;
}

-- A device whose name is not given is passed over.
abbrev gpu_of : Option Text → List GpuInfo
gpu_of none = []
gpu_of (some name) = gpu_named name ∷ []

-- The loop over the devices from an index on, with the number of those that are left.
unfoldable pub scan_devices : Devices → ℕ → ℕ → Option (List GpuInfo)
scan_devices d i zero = some []
scan_devices d i (suc left) =
    let later = scan_devices d (i + 1) left in
    elim (d.handle_by_index i) [
      | none ↦ none
      | some handle ↦ elim later [ none ↦ none | some gpus ↦ some (gpu_of (d.name handle) ++ gpus) ]
    ]

-- The whole part, with the calls that NVML counts.
unfoldable pub detect_gpus : Devices → Option (List GpuInfo × List Effect)
unfolding scan_devices
detect_gpus d =
    if d.init_succeeds
    then (elim (scan_devices d 0 (device_count d)) [
      | none ↦ none
      | some gpus ↦ some (gpus, opened ∷ closed ∷ [])
    ])
    else some ([], [])

-- `Detect` of a build with HAVE_NVML.
unfoldable pub detect_with_nvml :
    Devices → Option Text → Option (List Text) → List Text → Option HardwareInfo
unfolding detect_gpus
detect_with_nvml d hostname os_release cpuinfo = elim (detect hostname os_release cpuinfo) [
  | none ↦ none
  | some info ↦ elim (detect_gpus d) [
    | none ↦ none
    | some (gpus, effects) ↦ some (record info { gpus = gpus })
  ]
]

-- The names that NVML gives for some devices, in order.
abbrev names_from : Devices → ℕ → ℕ → List Text
names_from d i zero = []
names_from d i (suc left) =
    let rest = names_from d (i + 1) left in
    elim (d.handle_by_index i) [
      | none ↦ rest
      | some handle ↦ elim (d.name handle) [ none ↦ rest | some name ↦ name ∷ rest ]
    ]

scan_devices_lem :
    (d : Devices) (i left : ℕ)
    → ((j : ℕ) → j < i + left → is_some (d.handle_by_index j) ≡ true)
    → scan_devices d i left ≡ some (map gpu_named (names_from d i left))
unfolding scan_devices
scan_devices_lem d i zero h = refl
scan_devices_lem d i (suc left) h =
    ground
      (arith, h i (omega arith), scan_devices_lem d (i + 1) left (λ j below. h j (omega arith)))

-- Where NVML gives a handle for each device that it counts, the detection of the GPUs ends, finds one for
-- each device that NVML names, in order and of its name, and leaves the number of open sessions as it
-- was.
detect_gpus_lem :
    (d : Devices) (n : ℕ)
    → ((j : ℕ) → j < device_count d → is_some (d.handle_by_index j) ≡ true)
    → (effects : List Effect) × (detect_gpus d
        ≡ some (
          if d.init_succeeds then map gpu_named (names_from d 0 (device_count d)) else [],
          effects,
        ))
      × (sessions n effects ≡ some n)
unfolding detect_gpus
detect_gpus_lem d n h = elim (Bool-cases d.init_succeeds) [
  | inl e ↦ (
    opened ∷ closed ∷ [],
    ground (arith, e, scan_devices_lem d 0 (device_count d) (λ j below. h j (omega arith))),
    refl,
  )
  | inr e ↦ ([], ground (arith, e), refl)
]
