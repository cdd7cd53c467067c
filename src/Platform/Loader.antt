-- ===== src/Platform/Loader.antt =====
-- sources/agent/src/platform/nvml_loader.h and nvml_loader.cc. What the dynamic linker answers is an
-- argument of each call; its handles and addresses are numbers, and a null pointer is `none`.
pub mod Balance
use volta.Prelude.{
  ℕ, Bool, true, false, ◌||◌, not, Option, none, some, List, [], ◌∷◌, ◌++◌, Text, text, is_some,
  is_empty, if◌then◌else◌,
}

-- `NvmlApi`
pub record NvmlApi : Type 0 where
  pub library_path : Text
  pub init : Option ℕ
  pub shutdown : Option ℕ
  pub error_string : Option ℕ
  pub device_get_count : Option ℕ
  pub device_get_handle_by_index : Option ℕ
  pub device_get_pci_info : Option ℕ
  pub device_get_power_usage : Option ℕ
  pub device_get_temperature : Option ℕ
  pub device_get_utilization_rates : Option ℕ
  pub device_get_memory_info : Option ℕ
  pub device_get_name : Option ℕ

-- The variables of the file.
pub record Loader : Type 0 where
  pub nvml : NvmlApi
  pub load_error : Text
  pub nvml_handle : Option ℕ

-- `NvmlLoadError`
abbrev nvml_load_error : Loader → Text
nvml_load_error l = l.load_error

-- What `dlopen` and `dlsym` return, and `dlerror` after them.
pub record Linker : Type 0 where
  pub dlopen : Text → Option ℕ
  pub dlopen_error : Text → Option Text
  pub dlsym : ℕ → Text → Option ℕ
  pub dlsym_error : ℕ → Text → Option Text

-- The handles that are opened and closed.
pub data Action : Type 0 where
  opens closes : ℕ → Action

-- `ResolveSymbol`; `out` stores a pointer.
unfoldable pub resolve_symbol : Linker → ℕ → Loader → Text → (ℕ → NvmlApi → NvmlApi) → Loader × Bool
resolve_symbol linker handle l symbol out = elim (linker.dlsym_error handle symbol) [
  | some error ↦
      (record l { load_error = text "dlsym(" ++ (symbol ++ (text "): " ++ error)) }, false)
  | none ↦ elim (linker.dlsym handle symbol) [
    | none ↦ (
      record l { load_error = text "dlsym(" ++ (symbol ++ (text "): " ++ text "null symbol")) },
      false,
    )
    | some fn ↦ (record l { nvml = out fn l.nvml }, true)
  ]
]

-- A chain of `&&` of calls of `ResolveSymbol`.
unfoldable pub resolve_symbols :
    Linker → ℕ → Loader → List (Text × (ℕ → NvmlApi → NvmlApi)) → Loader × Bool
unfolding resolve_symbol
resolve_symbols linker handle l [] = (l, true)
resolve_symbols linker handle l ((symbol, out) ∷ rest) =
    let (l', resolved) = resolve_symbol linker handle l symbol out in
    let others = resolve_symbols linker handle l' rest in if resolved then others else (l', false)

-- The symbols, and where their addresses are kept.
abbrev pub symbols : List (Text × (ℕ → NvmlApi → NvmlApi))
symbols =
    (text "nvmlInit_v2", λ f a. record a { init = some f })
    ∷ (text "nvmlShutdown", λ f a. record a { shutdown = some f })
    ∷ (text "nvmlErrorString", λ f a. record a { error_string = some f })
    ∷ (text "nvmlDeviceGetCount_v2", λ f a. record a { device_get_count = some f })
    ∷ (
      text "nvmlDeviceGetHandleByIndex_v2",
      λ f a. record a { device_get_handle_by_index = some f },
    )
    ∷ (text "nvmlDeviceGetPciInfo_v3", λ f a. record a { device_get_pci_info = some f })
    ∷ (text "nvmlDeviceGetPowerUsage", λ f a. record a { device_get_power_usage = some f })
    ∷ (text "nvmlDeviceGetTemperature", λ f a. record a { device_get_temperature = some f })
    ∷ (
      text "nvmlDeviceGetUtilizationRates",
      λ f a. record a { device_get_utilization_rates = some f },
    )
    ∷ (text "nvmlDeviceGetMemoryInfo", λ f a. record a { device_get_memory_info = some f })
    ∷ (text "nvmlDeviceGetName", λ f a. record a { device_get_name = some f })
    ∷ []

unfoldable pub resolve_all_symbols : Linker → ℕ → Loader → Loader × Bool
unfolding resolve_symbols
resolve_all_symbols linker handle l = resolve_symbols linker handle l symbols

-- `kLibraryCandidates`
abbrev pub library_candidates : List Text
library_candidates = text "libnvidia-ml.so.1" ∷ text "libnvidia-ml.so" ∷ []

-- The error of the linker, where there is none yet.
unfoldable pub keep_error : Option Text → Loader → Loader
keep_error error l =
    if not (is_empty l.load_error)
    then l
    else elim error [ none ↦ l | some e ↦ record l { load_error = e } ]

-- The loop over the candidates.
unfoldable pub open_library : Linker → List Text → Loader → Loader × Option ℕ
unfolding keep_error
open_library linker [] l = (l, none)
open_library linker (candidate ∷ candidates) l =
    let later = open_library linker candidates (keep_error (linker.dlopen_error candidate) l) in
    elim (linker.dlopen candidate) [
      | some handle ↦ (record l { nvml = record l.nvml { library_path = candidate } }, some handle)
      | none ↦ later
    ]

unfoldable pub no_library : Loader → Loader
no_library l =
    if is_empty l.load_error
    then record l { load_error = text "libnvidia-ml not found in search paths" }
    else l

-- What follows the opening of a library: the symbols, the handle or its end.
unfoldable pub use_library : Linker → ℕ → Loader → Loader × Bool × List Action
unfolding resolve_all_symbols
use_library linker handle l =
    let (l', resolved) = resolve_all_symbols linker handle l in
    if resolved
    then (record l' { nvml_handle = some handle; load_error = [] }, true, opens handle ∷ [])
    else (l', false, opens handle ∷ closes handle ∷ [])

-- `TryLoadNvml`, with whether it returns the API, and not a null pointer.
unfoldable pub try_load_nvml : Linker → Loader → Loader × Bool × List Action
unfolding open_library no_library use_library
try_load_nvml linker l =
    let (l', opened) = open_library linker library_candidates l in
    if is_some l.nvml_handle then (l, true, []) else elim opened [
      | none ↦ (no_library l', false, [])
      | some handle ↦ use_library linker handle l'
    ]

-- Before the first call.
abbrev pub unloaded : Loader
unloaded = record {
  nvml = record {
    library_path = [];
    init = none;
    shutdown = none;
    error_string = none;
    device_get_count = none;
    device_get_handle_by_index = none;
    device_get_pci_info = none;
    device_get_power_usage = none;
    device_get_temperature = none;
    device_get_utilization_rates = none;
    device_get_memory_info = none;
    device_get_name = none;
  };
  load_error = [];
  nvml_handle = none;
}
