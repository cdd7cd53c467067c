-- ===== src/Platform/Detector.antt =====
-- sources/agent/src/platform/platform_detector.h and platform_detector.cc, with the records of cpu_info.h,
-- gpu_info.h and hardware_info.h. The host's name and the lines of the files are arguments. The part under
-- HAVE_NVML, which no build defines, is in Gpus. `none` is the exception that `substr` throws.
pub mod Scan
pub mod Gpus
use volta.Prelude.{
  ℕ, ◌+◌, ◌-◌, Bool, true, false, ◌||◌, Option, none, some, List, [], ◌∷◌, ◌++◌, Text, text,
  starts_with, drop, take, length, ltb, leb, ◌==◌, if◌then◌else◌, is_empty, get_or, ◌&&◌, not,
}

pub data CpuVendor : Type 0 where
  unknown amd intel : CpuVendor

-- A `float` is its bit pattern.
pub record CpuInfo : Type 0 where
  pub vendor : CpuVendor
  pub model_name : Text
  pub architecture : Text
  pub physical_cores : ℕ
  pub logical_threads : ℕ
  pub socket_count : ℕ
  pub base_frequency_mhz : ℕ
  pub max_frequency_mhz : ℕ
  pub l1_cache_size_bytes : ℕ
  pub l2_cache_size_bytes : ℕ
  pub l3_cache_size_bytes : ℕ
  pub power_limit_watts : ℕ
  pub has_rapl : Bool
  pub has_zenpower : Bool
  pub has_pmu : Bool

pub data GpuVendor : Type 0 where
  unknown nvidia amd intel : GpuVendor

pub record GpuInfo : Type 0 where
  pub vendor : GpuVendor
  pub model_name : Text
  pub pci_address : Text
  pub driver_version : Text
  pub vram_total_bytes : ℕ
  pub power_limit_watts : ℕ

pub record HardwareInfo : Type 0 where
  pub hostname : Text
  pub os_version : Text
  pub kernel_version : Text
  pub total_ram_bytes : ℕ
  pub cpu : CpuInfo
  pub gpus : List GpuInfo

abbrev pub default_cpu : CpuInfo
default_cpu = record {
  vendor = CpuVendor.unknown;
  model_name = [];
  architecture = [];
  physical_cores = 0;
  logical_threads = 0;
  socket_count = 1;
  base_frequency_mhz = 0;
  max_frequency_mhz = 0;
  l1_cache_size_bytes = 0;
  l2_cache_size_bytes = 0;
  l3_cache_size_bytes = 0;
  power_limit_watts = 0;
  has_rapl = false;
  has_zenpower = false;
  has_pmu = false;
}

-- `std::string::find` of a text; `none` is `npos`.
unfoldable pub find_text : Text → Text → Option ℕ
find_text needle [] = if is_empty needle then some 0 else none
find_text needle (c ∷ cs) =
    let later = find_text needle cs in
    if starts_with (c ∷ cs) needle
    then some 0
    else elim later [ none ↦ none | some i ↦ some (i + 1) ]

abbrev pub has_text : Text → Text → Bool
has_text needle line = elim (find_text needle line) [ none ↦ false | some _ ↦ true ]

-- `std::string::substr` from a position on.
abbrev substr : Text → ℕ → Option Text
substr line pos = if ltb (length line) pos then none else some (drop pos line)

-- The first test of the loop of `Detect`: the vendor that a line names, or the one known before.
unfoldable pub vendor_of : Text → CpuVendor → CpuVendor
vendor_of line before =
    if has_text (text "vendor_id") line
    then (if has_text (text "AuthenticAMD") line
        then CpuVendor.amd
        else if has_text (text "GenuineIntel") line
        then CpuVendor.intel
        else before)
    else before

-- The model's name of a line that has one: what follows its first colon, less one byte.
unfoldable pub model_of : Text → CpuInfo → Option CpuInfo
model_of line cpu = elim (find_text (text ":") line) [
  | none ↦ some cpu
  | some pos ↦ elim (substr line (pos + 2)) [
    | none ↦ none
    | some name ↦ some (record cpu { model_name = name })
  ]
]

-- The loop over the lines of /proc/cpuinfo, to the first that has a model's name.
unfoldable pub scan_cpuinfo : List Text → CpuInfo → Option CpuInfo
unfolding vendor_of model_of
scan_cpuinfo [] cpu = some cpu
scan_cpuinfo (line ∷ lines) cpu =
    let cpu' : CpuInfo = record cpu { vendor = vendor_of line cpu.vendor } in
    let later = scan_cpuinfo lines cpu' in
    if has_text (text "model name") line then model_of line cpu' else later

-- `value.substr(1, value.size() - 2)` of a quoted value.
abbrev pub unquote : Text → Text
unquote value =
    if leb 2 (length value)
      && (get_or value 0 0 == b'"' && get_or value (length value - 1) 0 == b'"')
    then take (length value - 2) (drop 1 value)
    else value

-- The loop of `DetectOS` over the lines of /etc/os-release.
unfoldable pub pretty_name : List Text → Text
pretty_name [] = text "Linux (Unknown - Tag not found)"
pretty_name (line ∷ lines) =
    let later = pretty_name lines in
    if starts_with line (text "PRETTY_NAME=") then unquote (drop 12 line) else later

-- `DetectOS`; `none` where the file does not open.
unfoldable pub detect_os : Option (List Text) → Text
unfolding pretty_name
detect_os none = text "Linux (Unknown - Cannot open /etc/os-release)"
detect_os (some lines) = pretty_name lines

-- `Detect`, with what `gethostname` gives if it succeeds. A file that does not open has no lines.
unfoldable pub detect : Option Text → Option (List Text) → List Text → Option HardwareInfo
unfolding scan_cpuinfo detect_os
detect hostname os_release cpuinfo = elim (scan_cpuinfo cpuinfo default_cpu) [
  | none ↦ none
  | some cpu ↦ some (record {
    hostname = elim hostname [ none ↦ text "unknown-host" | some name ↦ name ];
    os_version = detect_os os_release;
    kernel_version = [];
    total_ram_bytes = 0;
    cpu = cpu;
    gpus = [];
  })
]

abbrev cpu_vendor_to_string : CpuVendor → Text
cpu_vendor_to_string CpuVendor.intel = text "Intel"
cpu_vendor_to_string CpuVendor.amd = text "AMD"
cpu_vendor_to_string CpuVendor.unknown = text "Unknown"

abbrev gpu_vendor_to_string : GpuVendor → Text
gpu_vendor_to_string GpuVendor.nvidia = text "NVIDIA"
gpu_vendor_to_string GpuVendor.amd = text "AMD"
gpu_vendor_to_string GpuVendor.intel = text "Intel"
gpu_vendor_to_string GpuVendor.unknown = text "Unknown"

unfoldable pub print_gpus : List GpuInfo → Text
print_gpus [] = []
print_gpus (gpu ∷ gpus) =
    text "  > GPU:   "
    ++ (gpu_vendor_to_string gpu.vendor
        ++ (10 ∷ text "  | Model: " ++ (gpu.model_name ++ (10 ∷ print_gpus gpus))))

-- What `PrintDetectedInfo` prints, with the name that `typeid` gives to the class.
unfoldable pub print_detected_info : Text → HardwareInfo → Text
unfolding print_gpus
print_detected_info type_name info =
    text "["
    ++ (type_name
        ++ (text "] Hardware Detection Result:"
            ++ (10 ∷ text "  > Host:  "
                ++ (info.hostname
                    ++ (10 ∷ text "  > OS:    "
                        ++ (info.os_version
                            ++ (10 ∷ text "  > CPU:   "
                                ++ (cpu_vendor_to_string info.cpu.vendor
                                    ++ (10 ∷ text "  | Model: "
                                        ++ (info.cpu.model_name
                                            ++ (10
                                                  ∷ (if is_empty info.gpus
                                                      then text
                                                          "  > GPU:  None detected (or NVML disabled)"
                                                        ++ 10 ∷ []
                                                      else print_gpus info.gpus)
                                                ++ (text
                                                      "--------------------------------------------------"
                                                    ++ 10 ∷ []))))))))))))
