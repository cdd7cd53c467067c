-- ===== src/Collectors/Nvml/Readings.antt =====
-- What `NvmlCollector::Collect` reports.
use volta.Prelude.{
  ℕ, ◌≡◌, refl, ap, sym, subst, ◌⊎◌, ◌∙◌, Bool, true, false, ◌&&◌, ◌||◌, Option, none, some, List,
  [], ◌∷◌, ◌++◌, arith, All, All-append, contains, is_empty, if◌then◌else◌, is_some, ◌==◌,
  Bool-cases, inl, inr,
}
use volta.Metric.{
  Metric, MetricType, Double, gpu_power, gpu_utilization, gpu_temperature, gpu_vram_used,
  gpu_shared_memory_utilization,
}
use volta.Collectors.Nvml.{
  Nvml, NvmlCollector, answer, reading, power, temperature_of, utilization, memory_utilization,
  vram, readings, collect, satisfiable,
}

-- The metric was asked for, is of the device that `Init` found, and of the time of the collection.
pub record IsReading (c : NvmlCollector) (now : ℕ) (m : Metric) : Type 0 where
  pub requested : contains c.requested_metrics m.type ≡ true
  pub device : m.dev_id ≡ c.gpu_id
  pub time : m.timestamp ≡ now

-- Whether the function behind the metric answers.
abbrev pub answers : Nvml → ℕ → MetricType → Bool
answers nvml h type =
    if type == gpu_power
    then is_some (nvml.power_usage h)
    else if type == gpu_temperature
    then is_some (nvml.temperature h)
    else if type == gpu_vram_used
    then is_some (nvml.memory_info h)
    else if type == gpu_utilization || type == gpu_shared_memory_utilization
    then is_some (nvml.utilization_rates h)
    else false

abbrev pub types : List Metric → List MetricType
types [] = []
types (m ∷ ms) = m.type ∷ types ms

contains-types_append :
    (xs ys : List Metric) (t : MetricType)
    → contains (types (xs ++ ys)) t ≡ (contains (types xs) t || contains (types ys) t)
contains-types_append [] ys t = refl
contains-types_append (x ∷ xs) ys t = ground (arith, contains-types_append xs ys t)

reading-IsReading :
    (c : NvmlCollector) (now type : ℕ) (value : Option ℕ)
    → All (IsReading c now) (reading c now type value)
unfolding reading
reading-IsReading c now type none = tt
reading-IsReading c now type (some v) = elim (Bool-cases (contains c.requested_metrics type)) [
  | inl e ↦ rw e (record { requested = e; device = refl; time = refl }, tt)
  | inr e ↦ rw e tt
]

contains-reading :
    {A : Type 0} (f : A → ℕ) (c : NvmlCollector) (now type : ℕ) (value : Option A) (t : MetricType)
    → contains (types (reading c now type (answer f value))) t
      ≡ (type == t && (contains c.requested_metrics type && is_some value))
unfolding reading
contains-reading f c now type none t = ground arith
contains-reading f c now type (some v) t = ground arith

contains-empty : (xs : List ℕ) (t : ℕ) → is_empty xs ≡ true → contains xs t ≡ false
contains-empty [] t h = refl
contains-empty (x ∷ xs) t h = absurd cc

contains-empty_and :
    (xs : List ℕ) (t : ℕ) (b : Bool) → is_empty xs ≡ true → (contains xs t && b) ≡ false
contains-empty_and xs t b h = rw (contains-empty xs t h) refl

contains-types_five :
    (a b c d e : List Metric) (t : MetricType)
    → contains (types (a ++ (b ++ (c ++ (d ++ e))))) t ≡ (
        contains (types a) t
        || (contains (types b) t
            || (contains (types c) t || (contains (types d) t || contains (types e) t))))
contains-types_five a b c d e t = ground (
  arith,
  contains-types_append a (b ++ (c ++ (d ++ e))) t,
  contains-types_append b (c ++ (d ++ e)) t,
  contains-types_append c (d ++ e) t,
  contains-types_append d e t,
)

module _ (d : Double) (c : NvmlCollector) (nvml : Nvml) (now : ℕ) where
  contains-power :
      (t : MetricType)
      → contains (types (power d c nvml now)) t ≡ (
          gpu_power == t
          && (contains c.requested_metrics gpu_power && is_some (nvml.power_usage c.device_handle)))
  unfolding power
  contains-power t =
      contains-reading (λ x. d.div (d.of_uint64 x) (d.of_uint64 1000)) c now gpu_power
        (nvml.power_usage c.device_handle) t

  contains-temperature_of :
      (t : MetricType)
      → contains (types (temperature_of d c nvml now)) t ≡ (
          gpu_temperature == t
          && (contains c.requested_metrics gpu_temperature
              && is_some (nvml.temperature c.device_handle)))
  unfolding temperature_of
  contains-temperature_of t =
      contains-reading (d.of_uint64) c now gpu_temperature (nvml.temperature c.device_handle) t

  contains-utilization :
      (t : MetricType)
      → contains (types (utilization d c nvml now)) t ≡ (
          gpu_utilization == t
          && (contains c.requested_metrics gpu_utilization
              && is_some (nvml.utilization_rates c.device_handle)))
  unfolding utilization
  contains-utilization t =
      contains-reading (λ u. d.of_uint64 u.0) c now gpu_utilization
        (nvml.utilization_rates c.device_handle) t

  contains-memory_utilization :
      (t : MetricType)
      → contains (types (memory_utilization d c nvml now)) t ≡ (
          gpu_shared_memory_utilization == t
          && (contains c.requested_metrics gpu_shared_memory_utilization
              && is_some (nvml.utilization_rates c.device_handle)))
  unfolding memory_utilization
  contains-memory_utilization t =
      contains-reading (λ u. d.of_uint64 u.1) c now gpu_shared_memory_utilization
        (nvml.utilization_rates c.device_handle) t

  contains-vram :
      (t : MetricType)
      → contains (types (vram d c nvml now)) t ≡ (
          gpu_vram_used == t
          && (contains c.requested_metrics gpu_vram_used
              && is_some (nvml.memory_info c.device_handle)))
  unfolding vram
  contains-vram t =
      contains-reading (λ m. d.div (d.of_uint64 m.0) (d.of_uint64 m.1)) c now gpu_vram_used
        (nvml.memory_info c.device_handle) t

  contains-readings :
      (t : MetricType)
      → contains (types (readings d c nvml now)) t
        ≡ (contains c.requested_metrics t && answers nvml c.device_handle t)
  unfolding readings
  contains-readings t = ground (
    arith,
    contains-types_five (power d c nvml now) (temperature_of d c nvml now)
        (utilization d c nvml now) (memory_utilization d c nvml now) (vram d c nvml now) t,
    contains-power t,
    contains-temperature_of t,
    contains-utilization t,
    contains-memory_utilization t,
    contains-vram t,
  )

  readings-IsReading : All (IsReading c now) (readings d c nvml now)
  unfolding readings power temperature_of utilization memory_utilization vram
  readings-IsReading =
      let join = All-append (IsReading c now) in
      join (power d c nvml now) _ (reading-IsReading c now gpu_power _) (
        join (temperature_of d c nvml now) _ (reading-IsReading c now gpu_temperature _) (
          join (utilization d c nvml now) _ (reading-IsReading c now gpu_utilization _) (
            join (memory_utilization d c nvml now) _
              (reading-IsReading c now gpu_shared_memory_utilization _)
              (reading-IsReading c now gpu_vram_used _))))

  collect-cases :
      c.initialized ≡ true
      → ((is_empty c.requested_metrics ≡ true) × (collect d c nvml now ≡ []))
        ⊎ (collect d c nvml now ≡ readings d c nvml now)
  unfolding collect
  collect-cases h = ground (arith, h)

-- An initialized collector reports a metric exactly if it was requested and NVML answers the function
-- behind it, which it can only for what `Satisfiable` names; each is of the device that `Init`
-- found and of the time of the collection.
pub collect_lem :
    (d : Double) (c : NvmlCollector) (nvml : Nvml) (now : ℕ)
    → c.initialized ≡ true
    → ((t : MetricType)
        → contains (types (collect d c nvml now)) t
          ≡ (contains c.requested_metrics t && answers nvml c.device_handle t))
      × ((t : MetricType) → answers nvml c.device_handle t ≡ true → contains satisfiable t ≡ true)
      × All (IsReading c now) (collect d c nvml now)
unfolding collect satisfiable
collect_lem d c nvml now h = elim (collect-cases d c nvml now h) [
  | inl (e, r) ↦ (
    λ t. ap (λ ms. contains (types ms) t) r ∙ sym (contains-empty_and c.requested_metrics t _ e),
    λ t k. ground (arith, k),
    subst (All (IsReading c now)) (sym r) tt,
  )
  | inr r ↦ (
    λ t. ap (λ ms. contains (types ms) t) r ∙ contains-readings d c nvml now t,
    λ t k. ground (arith, k),
    subst (All (IsReading c now)) (sym r) (readings-IsReading d c nvml now),
  )
]
