-- ===== src/Tests/Platforms.antt =====
-- The loader of NVML, the detection of the machine and the identifiers, at small inputs.
use volta.Prelude.{
  true, ◌≡◌, refl, ◌++◌, Text, some, none, [], ◌∷◌, text, ◌=t=◌, if◌then◌else◌, is_some, is_empty,
}
use volta.Utils.{generate_uuid_v4, uuid_text, hex, hex_from}
use volta.Utils.Hex.{matches}
use volta.Utils.Uuid.{generate_uuid_v4_lem}
use volta.Platform.Detector.{CpuVendor, default_cpu, detect, find_text}
use volta.Platform.Detector.Scan.{quoted, vendor_line, id_of, model_line, detect_lem}
use volta.Platform.Loader.{Linker, unloaded, try_load_nvml}
use volta.Platform.Loader.Balance.{IsSettled, try_load_nvml_lem}

-- A machine on which the second candidate opens, with all symbols, and one where it lacks one of them.
abbrev whole : Linker
whole = record {
  dlopen = λ name. if name =t= text "libnvidia-ml.so" then some 7 else none;
  dlopen_error = λ name. some (text "not found");
  dlsym = λ handle symbol. some 1;
  dlsym_error = λ handle symbol. none;
}

abbrev broken : Linker
broken = record whole {
  dlsym = λ handle symbol. if symbol =t= text "nvmlDeviceGetName" then none else some 1;
}

try_load_nvml_lem_example :
    ((try_load_nvml whole unloaded).1 ≡ is_some (try_load_nvml whole unloaded).0.nvml_handle)
    × ((try_load_nvml whole unloaded).1 ≡ is_empty (try_load_nvml whole unloaded).0.load_error)
    × IsSettled (try_load_nvml whole unloaded).0
try_load_nvml_lem_example = try_load_nvml_lem whole unloaded refl

abbrev debian : Text
debian = text "Debian 12"

detect_lem_example :
    detect
      (some (text "node1"))
      (some (text "NAME=Debian" ∷ (text "PRETTY_NAME=" ++ quoted debian) ∷ []))
      (text "processor: 0"
        ∷ vendor_line (id_of CpuVendor.amd)
        ∷ (text "cpu family: 25" ∷ model_line (text "EPYC") ∷ []))
    ≡ some (record {
      hostname = text "node1";
      os_version = debian;
      kernel_version = [];
      total_ram_bytes = 0;
      cpu = record default_cpu { vendor = CpuVendor.amd; model_name = text "EPYC" };
      gpus = [];
    })
unfolding find_text
detect_lem_example =
    detect_lem (text "node1") debian (text "EPYC") CpuVendor.amd (text "NAME=Debian" ∷ []) []
      (text "processor: 0" ∷ []) (text "cpu family: 25" ∷ []) [] (refl, tt) ((refl, refl), tt)
      ((refl, refl), tt) refl

generate_uuid_v4_lem_example :
    matches (text "xxxxxxxx-xxxx-4xxx-yxxx-xxxxxxxxxxxx") (generate_uuid_v4 11 0xfedcba9876543210)
    ≡ true
generate_uuid_v4_lem_example = generate_uuid_v4_lem 11 0xfedcba9876543210

-- The text at these numbers.
uuid_of_two : generate_uuid_v4 11 0xfedcba9876543210 ≡ text "00000000-0000-400b-bedc-ba9876543210"
unfolding generate_uuid_v4 uuid_text hex hex_from
uuid_of_two = refl
