-- ===== src/Collectors/Ram.antt =====
-- sources/agent/src/collectors/ram_collector.h and ram_collector.cc. The content of /proc/meminfo, line
-- by line, is an argument, and so is the clock.
pub mod Meminfo
use volta.Prelude.{
  ℕ, ◌<◌, Bool, true, false, not, ◌&&◌, ◌||◌, Option, none, some, List, [], ◌∷◌, ◌++◌, Text, text,
  ◌=t=◌, contains, is_empty, if◌then◌else◌, ltb, mul64, sub64, Extract, absent, fails, number,
  read_word, read_uint64,
}
use volta.Metric.{Metric, Double, ram_total, ram_used}

pub record RamCollector : Type 0 where
  pub requested_metrics : List ℕ
  pub initialized : Bool

unfoldable pub init : RamCollector → RamCollector
init c = record c { initialized = true }

unfoldable pub set_requested_metrics : RamCollector → List ℕ → RamCollector
set_requested_metrics c metrics = record c { requested_metrics = metrics }

-- `IsSupported`, with whether /proc/meminfo exists.
unfoldable pub is_supported : Bool → Bool
is_supported exists = exists

unfoldable pub satisfiable : List ℕ
satisfiable = ram_total ∷ ram_used ∷ []

-- The variables of `ReadStats`; `key` and `value` keep what an earlier line left.
pub record Stats : Type 0 where
  pub total : ℕ
  pub available : ℕ
  pub key : Text
  pub value : ℕ

abbrev pub after_number : ℕ → Extract → ℕ
after_number value absent = value
after_number value (fails n) = n
after_number value (number n _) = n

-- `iss >> key >> value >> unit`: the unit is not used.
unfoldable pub scan_line : Text → Stats → Stats
scan_line line s = elim (read_word line) [
  | none ↦ s
  | some (w, rest) ↦ record s { key = w; value = after_number s.value (read_uint64 rest) }
]

-- The rest of the loop's body.
unfoldable pub take_value : Stats → Stats
take_value s =
    if s.key =t= text "MemTotal:"
    then record s { total = mul64 s.value 1024 }
    else if s.key =t= text "MemAvailable:"
    then record s { available = mul64 s.value 1024 }
    else s

unfoldable pub read_lines : Stats → List Text → Stats
unfolding scan_line take_value
read_lines s [] = s
read_lines s (line ∷ lines) =
    let s' = take_value (scan_line line s) in
    let rest = read_lines s' lines in if ltb 0 s'.total && ltb 0 s'.available then s' else rest

-- `ReadStats`: used and total. `value` has no initial value in the source; it is an argument here.
unfoldable pub read_stats : ℕ → List Text → ℕ × ℕ
unfolding read_lines
read_stats value lines =
    let s = read_lines (record { total = 0; available = 0; key = []; value = value }) lines in
    (sub64 s.total s.available, s.total)

unfoldable pub collect : Double → RamCollector → ℕ → List Text → ℕ → List Metric
unfolding read_stats
collect d c value lines now =
    let needs_total = contains c.requested_metrics ram_total in
    let needs_used = contains c.requested_metrics ram_used in
    let (used, total) = read_stats value lines in
    if not c.initialized || is_empty c.requested_metrics
    then []
    else if not needs_total && not needs_used
    then []
    else (if needs_total
        then record { type = ram_total; dev_id = none; value = d.of_uint64 total; timestamp = now }
          ∷ []
        else [])
      ++ (if needs_used
          then record { type = ram_used; dev_id = none; value = d.of_uint64 used; timestamp = now }
            ∷ []
          else [])
