-- ===== src/Tests/Collecting.antt =====
-- The collectors, at small inputs.
use volta.Prelude.{
  Option, ℕ, ◌≡◌, refl, ◌<◌, ◌-◌, ◌*◌, ◌&&◌, true, false, some, none, List, [], ◌∷◌, ◌++◌, Text,
  text, arith, All, contains, read_word, read_uint64, skip_space, word, read_digits, if◌then◌else◌,
  suc,
}
use volta.Metric.{
  MetricType, Double, ram_total, ram_used, cpu_utilization, gpu_power, cpu_power_package,
}
use volta.Collectors.Kinds.{IsReported, stat_metrics, collect-IsReported}
use volta.Collectors.Registry.{Collector, resolve, is_requested, is_available, is_requested-resolve}
use volta.Collectors.Ram
use volta.Collectors.Ram.{RamCollector, read_stats}
use volta.Collectors.Ram.Meminfo.{IsOther, IsEntry, read_stats_lem}
use volta.Collectors.ProcStat
use volta.Collectors.ProcStat.{ProcStatCollector, usage, usage-idle_falls}
use volta.Collectors.Rapl
use volta.Collectors.Rapl.{RaplCollector, Entry, cpu_entries, open_msr}
use volta.Collectors.Rapl.Lowest.{file_of, file_or_throw, lowest, read_file, open_msr-lowest}
use volta.Collectors.Rapl.Energy.{collect_all, values, readings, differences, values-collect_all}
use volta.Collectors.Nvml.{Nvml, NvmlCollector, init, is_supported, destroy, collect, satisfiable}
use volta.Collectors.Nvml.Sessions.{sessions, sessions-balanced}
use volta.Collectors.Nvml.Readings.{IsReading, answers, types, collect_lem}

abbrev memory_and_cpu : List Collector
memory_and_cpu =
    record { supported = true; satisfiable = ram_total ∷ ram_used ∷ []; requested = [] }
    ∷ record { supported = false; satisfiable = cpu_utilization ∷ []; requested = [] }
    ∷ []

is_requested-resolve_example :
    is_requested ram_used (resolve (ram_used ∷ cpu_utilization ∷ []) memory_and_cpu).1
    ≡ (contains (ram_used ∷ cpu_utilization ∷ []) ram_used && is_available ram_used memory_and_cpu)
is_requested-resolve_example =
    is_requested-resolve memory_and_cpu (ram_used ∷ cpu_utilization ∷ []) ram_used

abbrev total_line : Text
total_line = text "MemTotal: 100 kB"

abbrev free_line : Text
free_line = text "MemFree: 7 kB"

abbrev available_line : Text
available_line = text "MemAvailable: 40 kB"

total_line-IsEntry : IsEntry (text "MemTotal:") 100 total_line
unfolding read_word read_uint64 skip_space word read_digits
total_line-IsEntry = record {
  after_key = text " 100 kB";
  after_value = text " kB";
  key_read = refl;
  value_read = refl;
}

free_line-IsOther : IsOther free_line
unfolding read_word skip_space word
free_line-IsOther = record {
  word = text "MemFree:";
  after_key = text " 7 kB";
  key_read = refl;
  not_total = refl;
  not_available = refl;
}

available_line-IsEntry : IsEntry (text "MemAvailable:") 40 available_line
unfolding read_word read_uint64 skip_space word read_digits
available_line-IsEntry = record {
  after_key = text " 40 kB";
  after_value = text " kB";
  key_read = refl;
  value_read = refl;
}

read_stats_lem_example :
    read_stats 5 ([] ++ (total_line ∷ ((free_line ∷ []) ++ (available_line ∷ []))))
    ≡ ((100 - 40) * 1024, 100 * 1024)
read_stats_lem_example =
    read_stats_lem 5 100 40 [] (free_line ∷ []) [] total_line available_line tt total_line-IsEntry
      (free_line-IsOther, tt) available_line-IsEntry (omega arith) (omega arith) (omega arith)

abbrev seen_before : ProcStatCollector
seen_before = record {
  requested_metrics = cpu_utilization ∷ [];
  prev_total = 1000;
  prev_idle = 600;
}

usage-idle_falls_example : (usage seen_before 1100 599).1 < (usage seen_before 1100 599).0
usage-idle_falls_example =
    usage-idle_falls seen_before 1100 599 (omega arith) (omega arith) (omega arith) (omega arith)
      (omega arith)

abbrev one_gpu : Nvml
one_gpu = record {
  init_succeeds = true;
  device_count = some 1;
  handle_by_index = λ i. some 17;
  pci_info = λ h. some (0, 4, 0);
  power_usage = λ h. some 250000;
  temperature = λ h. none;
  utilization_rates = λ h. some (60, 30);
  memory_info = λ h. some (1, 2);
}

abbrev not_started : NvmlCollector
not_started = record {
  requested_metrics = gpu_power ∷ [];
  gpu_id = none;
  device_handle = 0;
  initialized = false;
}

sessions-balanced_example :
    (sessions 0 (is_supported (some one_gpu)).1 ≡ some 0)
    × ((init not_started (some one_gpu)).0.initialized ≡ (init not_started (some one_gpu)).1)
    × (sessions 0 (init not_started (some one_gpu)).2
        ≡ some (if (init not_started (some one_gpu)).1 then suc 0 else 0))
    × (sessions
          (if (init not_started (some one_gpu)).1 then suc 0 else 0)
          (destroy (init not_started (some one_gpu)).0)
        ≡ some 0)
sessions-balanced_example = sessions-balanced (some one_gpu) not_started 0 refl

abbrev double : Double
double = record {
  of_uint64 = λ n. n;
  sub = λ a b. a - b;
  mul = λ a b. a * b;
  div = λ a b. a;
  half_pow = λ n. n;
}

abbrev running : NvmlCollector
running = record not_started { device_handle = 17; initialized = true }

collect_lem_example :
    ((t : MetricType)
      → contains (types (collect double running one_gpu 9)) t
        ≡ (contains running.requested_metrics t && answers one_gpu running.device_handle t))
    × ((t : MetricType)
        → answers one_gpu running.device_handle t ≡ true
        → contains satisfiable t ≡ true)
    × All (IsReading running 9) (collect double running one_gpu 9)
collect_lem_example = collect_lem double running one_gpu 9 refl

abbrev package_meter : RaplCollector
package_meter = record {
  requested_metrics = cpu_power_package ∷ [];
  initialized = true;
  power_units = 1;
  energy_units = 2;
  time_units = 1;
  msr_files = 5 ∷ [];
  last_value = 100;
}

-- The register reads 60, fails, and reads 75.
abbrev three_rounds : List ((ℕ → ℕ → Option ℕ) × ℕ)
three_rounds = (λ fd offset. some 60, 1) ∷ (λ fd offset. none, 2) ∷ (λ fd offset. some 75, 3) ∷ []

values-collect_all_example :
    values (collect_all double package_meter three_rounds)
    ≡ differences double package_meter.energy_units package_meter.last_value
        (readings package_meter.msr_files three_rounds)
values-collect_all_example = values-collect_all double three_rounds package_meter refl refl

-- CPU 3 opens, CPU 0 does not, CPU 2 opens.
abbrev three_cpus : List Entry
three_cpus =
    record { is_directory = true; name = text "3"; msr = some 30 }
    ∷ record { is_directory = true; name = text "0"; msr = none }
    ∷ record { is_directory = false; name = text "microcode"; msr = none }
    ∷ record { is_directory = true; name = text "2"; msr = some 20 }
    ∷ []

three_cpus-found : cpu_entries three_cpus ≡ some ((3, some 30) ∷ (0, none) ∷ (2, some 20) ∷ [])
unfolding cpu_entries read_digits
three_cpus-found = refl

open_msr-lowest_example :
    read_file (open_msr (some three_cpus))
    ≡ file_or_throw (file_of (lowest ((3, some 30) ∷ (0, none) ∷ (2, some 20) ∷ [])))
open_msr-lowest_example =
    open_msr-lowest three_cpus ((3, some 30) ∷ (0, none) ∷ (2, some 20) ∷ []) three_cpus-found

abbrev memory : RamCollector
memory = record { requested_metrics = ram_total ∷ []; initialized = true }

abbrev processor : ProcStatCollector
processor = record { requested_metrics = cpu_utilization ∷ []; prev_total = 10; prev_idle = 5 }

collect-IsReported_example :
    All IsReported (Ram.collect double memory 0 (text "MemTotal: 16" ∷ []) 9)
    × All IsReported
        (stat_metrics (ProcStat.collect double processor (some (text "cpu 4 5 6 7")) 9))
    × All IsReported (collect double (init not_started (some one_gpu)).0 one_gpu 9)
    × All IsReported (Rapl.collect double (λ fd offset. some 60) 9 package_meter).1
collect-IsReported_example =
    collect-IsReported double 9 memory 0 (text "MemTotal: 16" ∷ []) processor
      (some (text "cpu 4 5 6 7")) not_started (some one_gpu) one_gpu package_meter
      (λ fd offset. some 60) refl
