-- ===== src/Collectors/Rapl.antt =====
-- sources/agent/src/collectors/rapl_collector.h and rapl_collector.cc. The directories below /dev/cpu and
-- what `open` and `pread` answer are parameters, and so is the clock. A number of a directory's name
-- that `std::stoi` refuses, from 2^31 on, is `none`: its exception is not one that `Init` catches.
pub mod Energy
pub mod Lowest
use volta.Prelude.{
  ℕ, ◌+◌, ◌/◌, ◌%◌, ◌^◌, Bool, true, false, not, ◌&&◌, ◌||◌, Option, none, some, List, [], ◌∷◌,
  ◌++◌, Text, is_digit, read_digits, contains, is_empty, if◌then◌else◌, ltb, leb, ◌==◌, length,
}
use volta.Metric.{Metric, MetricType, DeviceId, Double, cpu_power_package}

pub record RaplCollector : Type 0 where
  pub requested_metrics : List MetricType
  pub initialized : Bool
  pub power_units : ℕ
  pub energy_units : ℕ
  pub time_units : ℕ
  pub msr_files : List ℕ
  pub last_value : ℕ

-- An entry of /dev/cpu: whether it is a directory, its name, and the descriptor that opening its `msr`
-- gives, if it can be opened.
pub record Entry : Type 0 where
  pub is_directory : Bool
  pub name : Text
  pub msr : Option ℕ

-- `std::ranges::all_of(dirname, ::isdigit)`
unfoldable pub all_digits : Text → Bool
all_digits [] = true
all_digits (c ∷ cs) = is_digit c && all_digits cs

-- `std::stoi` of a name of digits.
unfoldable pub stoi : Text → Option ℕ
unfolding read_digits
stoi name =
    let (n, seen, _) = read_digits 0 false name in if seen && ltb n (2 ^ 31) then some n else none

-- The loop over the directory: the numbers with their files.
unfoldable pub cpu_entries : List Entry → Option (List (ℕ × Option ℕ))
unfolding all_digits stoi
cpu_entries [] = some []
cpu_entries (e ∷ es) =
    if not e.is_directory || not (all_digits e.name) then cpu_entries es else elim (stoi e.name) [
      | none ↦ none
      | some id ↦ elim (cpu_entries es) [ none ↦ none | some rest ↦ some ((id, e.msr) ∷ rest) ]
    ]

-- `std::ranges::sort`, by number; names of one number, as 1 and 01, do not stand below /dev/cpu.
unfoldable pub insert : ℕ × Option ℕ → List (ℕ × Option ℕ) → List (ℕ × Option ℕ)
insert (id, msr) [] = (id, msr) ∷ []
insert (id, msr) ((j, other) ∷ rest) =
    let later = insert (id, msr) rest in
    if leb id j then (id, msr) ∷ (j, other) ∷ rest else (j, other) ∷ later

unfoldable pub sort : List (ℕ × Option ℕ) → List (ℕ × Option ℕ)
unfolding insert
sort [] = []
sort (e ∷ es) = insert e (sort es)

-- The files that open, in order.
unfoldable pub open_files : List (ℕ × Option ℕ) → List ℕ
open_files [] = []
open_files ((_, none) ∷ rest) = open_files rest
open_files ((_, some fd) ∷ rest) = fd ∷ open_files rest

-- `IsSupported`: whether /dev/cpu is a directory, and, by entry of it, whether that is a directory with
-- an `msr` that can be read.
unfoldable pub is_supported : Bool → List Bool → Bool
is_supported exists [] = false
is_supported exists (readable ∷ rest) = exists && (readable || is_supported exists rest)

-- The exceptions of `OpenMSR` and `ReadMSR`, and of `std::stoi`.
pub data Thrown : Type 0 where
  msr_open msr_read out_of_range : Thrown

pub data Result (A : Type 0) : Type 0 where
  ok : A → Result A
  throws : Thrown → Result A

-- `OpenMSR`; `none` for the entries is a missing /dev/cpu.
unfoldable pub open_msr : Option (List Entry) → Result (List ℕ)
unfolding cpu_entries sort open_files
open_msr none = throws msr_open
open_msr (some entries) = elim (cpu_entries entries) [
  | none ↦ throws out_of_range
  | some found ↦
      let files = open_files (sort found) in if is_empty files then throws msr_open else ok files
]

-- `ReadMSR(0, offset)`, at what `pread` of eight bytes gives.
unfoldable pub read_msr : (ℕ → ℕ → Option ℕ) → List ℕ → ℕ → Result ℕ
read_msr pread [] offset = throws msr_read
read_msr pread (fd ∷ _) offset = elim (pread fd offset) [
  | none ↦ throws msr_read
  | some data_ ↦ ok data_
]

unfoldable pub set_requested_metrics : RaplCollector → List MetricType → RaplCollector
set_requested_metrics c metrics = record c { requested_metrics = metrics }

unfoldable pub satisfiable : List MetricType
satisfiable = cpu_power_package ∷ []

-- The files that the destructor closes.
unfoldable pub destroy : RaplCollector → List ℕ
destroy c = c.msr_files

-- `MSR_RAPL::POWER_UNIT` and `MSR_RAPL::PKG::ENERGY_STATUS`, 0x606 and 0x611.
abbrev power_unit : ℕ
power_unit = 1542

abbrev pub energy_status : ℕ
energy_status = 1553

-- The exceptions that `Init` catches make it return false.
abbrev caught : Thrown → Result Bool
caught msr_open = ok false
caught msr_read = ok false
caught out_of_range = throws out_of_range

-- What `Init` does once the files are open.
unfoldable pub read_units :
    Double → (ℕ → ℕ → Option ℕ) → RaplCollector → RaplCollector × Result Bool
unfolding read_msr
read_units d pread c = elim (read_msr pread c.msr_files power_unit) [
  | throws e ↦ (c, caught e)
  | ok readout ↦
      let energy = d.half_pow (readout / 2 ^ 8 % 2 ^ 5) in
      let c' : RaplCollector = record c {
        power_units = d.half_pow (readout % 2 ^ 4);
        energy_units = energy;
        time_units = d.half_pow (readout / 2 ^ 16 % 2 ^ 4);
      } in
      elim (read_msr pread c.msr_files energy_status) [
        | throws e ↦ (c', caught e)
        | ok status ↦ (
          record c' { last_value = d.mul energy (d.of_uint64 status); initialized = true },
          ok true,
        )
      ]
]

unfoldable pub init :
    Double → Option (List Entry) → (ℕ → ℕ → Option ℕ) → RaplCollector → RaplCollector × Result Bool
unfolding open_msr read_units
init d entries pread c = elim (open_msr entries) [
  | throws e ↦ (record c { msr_files = [] }, caught e)
  | ok files ↦ read_units d pread (record c { msr_files = files })
]

-- The energy, in units of `energy_units_`, as a double.
abbrev pub energy_of : Double → RaplCollector → ℕ → ℕ
energy_of d c readout = d.mul c.energy_units (d.of_uint64 readout)

-- The end of `Collect`, once the register was read.
abbrev pub report : Double → RaplCollector → ℕ → ℕ → RaplCollector × List Metric
report d c now readout = (
  record c { last_value = energy_of d c readout },
  record {
    type = cpu_power_package;
    dev_id = some (DeviceId.cpu 0 0);
    value = d.sub (energy_of d c readout) c.last_value;
    timestamp = now;
  }
      ∷ [],
)

unfoldable pub collect :
    Double → (ℕ → ℕ → Option ℕ) → ℕ → RaplCollector → RaplCollector × List Metric
unfolding read_msr
collect d pread now c =
    if not c.initialized || is_empty c.requested_metrics
    then (c, [])
    else if not (contains c.requested_metrics cpu_power_package)
    then (c, [])
    else elim (read_msr pread c.msr_files energy_status) [
      | throws _ ↦ (c, [])
      | ok readout ↦ report d c now readout
    ]
