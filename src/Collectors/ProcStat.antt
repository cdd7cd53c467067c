-- ===== src/Collectors/ProcStat.antt =====
-- sources/agent/src/collectors/proc_stat_collector.h and proc_stat_collector.cc. The first line of
-- /proc/stat, if there is one, and the clock are arguments. `none` is a read of a variable that was
-- never set, where a number is missing in the line.
use volta.Prelude.{
  ℕ, suc, zero, ◌+◌, ◌-◌, ◌≤◌, ◌<◌, ◌^◌, ◌≡◌, Bool, true, not, Option, none, some, List, [], ◌∷◌,
  Text, contains, is_empty, if◌then◌else◌, ltb, add64, sub64, absent, fails, number, read_word,
  read_uint64, arith,
}
use volta.Metric.{Metric, Double, cpu_utilization}

pub record ProcStatCollector : Type 0 where
  pub requested_metrics : List ℕ
  pub prev_total : ℕ
  pub prev_idle : ℕ

unfoldable pub init : ProcStatCollector → Bool
init c = true

unfoldable pub set_requested_metrics : ProcStatCollector → List ℕ → ProcStatCollector
set_requested_metrics c metrics = record c { requested_metrics = metrics }

-- `IsSupported`, with whether /proc/stat exists.
unfoldable pub is_supported : Bool → Bool
is_supported exists = exists

unfoldable pub satisfiable : List ℕ
satisfiable = cpu_utilization ∷ []

-- `n` numbers in a row.
unfoldable pub read_numbers : ℕ → Text → Option (List ℕ)
read_numbers zero t = some []
read_numbers (suc n) t = elim (read_uint64 t) [
  | absent ↦ none
  | fails _ ↦ none
  | number x rest ↦ elim (read_numbers n rest) [ none ↦ none | some xs ↦ some (x ∷ xs) ]
]

-- The sums of `ReadCpuStats`, at user, nice, system, idle, iowait, irq, softirq and steal.
unfoldable pub cpu_sums : List ℕ → Option (ℕ × ℕ)
cpu_sums (user ∷ nice ∷ system ∷ cur_idle ∷ iowait ∷ irq ∷ softirq ∷ steal ∷ _) =
    let idle = add64 cur_idle iowait in
    some
      (add64 (add64 (add64 (add64 (add64 (add64 user nice) system) idle) irq) softirq) steal, idle)
cpu_sums _ = none

-- `ReadCpuStats`: total and idle; both stay 0 where no line is read.
unfoldable pub read_cpu_stats : Option Text → Option (ℕ × ℕ)
unfolding read_numbers cpu_sums
read_cpu_stats none = some (0, 0)
read_cpu_stats (some line) = elim (read_word line) [
  | none ↦ none
  | some (_, rest) ↦ elim (read_numbers 8 rest) [ none ↦ none | some xs ↦ cpu_sums xs ]
]

-- `diff_total - diff_idle` and `diff_total`.
unfoldable pub usage : ProcStatCollector → ℕ → ℕ → ℕ × ℕ
usage c total idle =
    let diff_total = sub64 total c.prev_total in
    (sub64 diff_total (sub64 idle c.prev_idle), diff_total)

unfoldable pub usage_percent : Double → ℕ × ℕ → ℕ
usage_percent d (busy, total) =
    if ltb 0 total
    then d.mul (d.div (d.of_uint64 busy) (d.of_uint64 total)) (d.of_uint64 100)
    else 0

unfoldable pub collect :
    Double → ProcStatCollector → Option Text → ℕ → Option (ProcStatCollector × List Metric)
unfolding read_cpu_stats usage usage_percent
collect d c line now =
    if is_empty c.requested_metrics
    then some (c, [])
    else if not (contains c.requested_metrics cpu_utilization)
    then some (c, [])
    else elim (read_cpu_stats line) [
      | none ↦ none
      | some (total, idle) ↦ some (
        record c { prev_total = total; prev_idle = idle },
        record {
          type = cpu_utilization;
          dev_id = none;
          value = usage_percent d (usage c total idle);
          timestamp = now;
        }
            ∷ [],
      )
    ]

-- If the counters did not fall since the last collection, and idle time did not grow by more than
-- all time, then nothing wraps: the busy time is what all time grew by less what idle time grew by,
-- and it is at most what all time grew by. The counters are below 2^64.
usage-exact :
    (c : ProcStatCollector) (total idle : ℕ)
    → c.prev_total ≤ total
    → c.prev_idle ≤ idle
    → idle - c.prev_idle ≤ total - c.prev_total
    → total < 2 ^ 64
    → idle < 2 ^ 64
    → ((usage c total idle).1 ≡ total - c.prev_total)
      × ((usage c total idle).0 + (idle - c.prev_idle) ≡ total - c.prev_total)
      × ((usage c total idle).0 ≤ (usage c total idle).1)
unfolding usage
usage-exact c total idle h k l t i = omega arith

-- If idle time falls and all time does not, both changes together below 2^64, the busy time exceeds
-- what all time grew by. The counters are below 2^64.
pub usage-idle_falls :
    (c : ProcStatCollector) (total idle : ℕ)
    → c.prev_total ≤ total
    → idle < c.prev_idle
    → total - c.prev_total + (c.prev_idle - idle) < 2 ^ 64
    → total < 2 ^ 64
    → c.prev_idle < 2 ^ 64
    → (usage c total idle).1 < (usage c total idle).0
unfolding usage
usage-idle_falls c total idle h k l t i = omega arith
