-- ===== src/Config/Affinity.antt =====
-- Which CPUs the mask of the configuration holds.
use volta.Prelude.{
  ℕ, suc, zero, ◌+◌, ◌-◌, ◌≤◌, ◌<◌, ◌≡◌, ◌&&◌, ◌||◌, some, List, arith, contains, ltb, leb, ◌==◌,
}
use volta.Config.{cpu_set, set_from, add_range}

pub contains-cpu_set :
    (mask : List ℕ) (cpu c : ℕ)
    → contains (cpu_set mask cpu) c ≡ (contains mask c || (cpu == c && ltb c 1024))
unfolding cpu_set
contains-cpu_set mask cpu c = ground arith

pub contains-set_from :
    (n : ℕ) (mask : List ℕ) (from c : ℕ)
    → contains (set_from mask from n) c
      ≡ (contains mask c || (leb from c && (ltb c (from + n) && ltb c 1024)))
unfolding set_from
contains-set_from zero mask from c = ground arith
contains-set_from (suc n) mask from c =
    ground
      (arith, contains-set_from n (cpu_set mask from) (suc from) c, contains-cpu_set mask from c)

-- A range that does not fall and ends below the number of CPUs is accepted, and the mask then holds what
-- it held and the CPUs of the range, as far as they are below 1024.
pub contains-add_range :
    (mask : List ℕ) (from to max_cpu : ℕ)
    → from ≤ to
    → to < max_cpu
    → (mask' : List ℕ) × (add_range mask from to max_cpu ≡ some mask')
      × ((c : ℕ) → contains mask' c ≡ (contains mask c || (leb from c && (leb c to && ltb c 1024))))
unfolding add_range
contains-add_range mask from to max_cpu le lt = (
  set_from mask from (suc to - from),
  ground arith,
  λ c. ground (arith, contains-set_from (suc to - from) mask from c),
)
