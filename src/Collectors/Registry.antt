-- ===== src/Collectors/Registry.antt =====
-- sources/agent/src/collectors/collector.h: `CollectorRegistry`. A collector is what the registry asks
-- of it; `Resolve` sets the requested metrics of the entries that it returns.
use volta.Prelude.{
  ◌++◌, Bool-cases, inl, inr, ℕ, ◌≡◌, refl, Bool, true, false, not, ◌&&◌, ◌||◌, List, [], ◌∷◌,
  arith, contains, is_empty, if◌then◌else◌,
}

pub record Collector : Type 0 where
  pub supported : Bool
  pub satisfiable : List ℕ
  pub requested : List ℕ

-- `Register`, which each `RegisteredCollector` calls once, when the program is loaded.
unfoldable pub register : List Collector → Collector → List Collector
register entries collector = entries ++ collector ∷ []

-- The inner loop of `Resolve`: what is satisfiable and desired, in the collector's order.
unfoldable pub active_metrics : List ℕ → List ℕ → List ℕ
active_metrics desired [] = []
active_metrics desired (type ∷ types) =
    let rest = active_metrics desired types in if contains desired type then type ∷ rest else rest

-- One round of `Resolve`: the entry as it is left, and whether it is returned.
unfoldable pub resolve_one : List ℕ → Collector → Collector × Bool
unfolding active_metrics
resolve_one desired c =
    let active = active_metrics desired c.satisfiable in
    if not c.supported
    then (c, false)
    else if is_empty active
    then (c, false)
    else (record c { requested = active }, true)

-- `Resolve`: the entries as they are left, and the entries that are returned.
unfoldable pub resolve : List ℕ → List Collector → List Collector × List Collector
unfolding resolve_one
resolve desired [] = ([], [])
resolve desired (c ∷ cs) =
    let (entries, result) = resolve desired cs in
    let (c', taken) = resolve_one desired c in
    (c' ∷ entries, (if taken then c' ∷ result else result))

-- A collector that is registered later comes later, and changes nothing for those before it.
resolve-register :
    (desired : List ℕ) (entries : List Collector) (c : Collector)
    → (resolve desired (register entries c)).1
      ≡ (resolve desired entries).1 ++ (resolve desired (c ∷ [])).1
unfolding resolve register
resolve-register desired [] c = refl
resolve-register desired (e ∷ es) c = elim (Bool-cases (resolve_one desired e).1) [
  | inl taken ↦ ground (arith, resolve-register desired es c)
  | inr passed ↦ ground (arith, resolve-register desired es c)
]

-- Some of the collectors is asked for the metric.
abbrev pub is_requested : ℕ → List Collector → Bool
is_requested type [] = false
is_requested type (c ∷ cs) = contains c.requested type || is_requested type cs

-- Some of the collectors is supported and can deliver the metric.
abbrev pub is_available : ℕ → List Collector → Bool
is_available type [] = false
is_available type (c ∷ cs) = (c.supported && contains c.satisfiable type) || is_available type cs

contains-active_metrics :
    (desired types : List ℕ) (type : ℕ)
    → contains (active_metrics desired types) type ≡ (contains desired type && contains types type)
unfolding active_metrics
contains-active_metrics desired [] type = ground arith
contains-active_metrics desired (x ∷ types) type =
    ground (arith, contains-active_metrics desired types type)

contains_empty : (xs : List ℕ) (a : ℕ) → is_empty xs ≡ true → contains xs a ≡ false
contains_empty [] a h = refl
contains_empty (x ∷ xs) a h = cc

is_requested-resolve_one :
    (desired : List ℕ) (c : Collector) (type : ℕ)
    → ((if (resolve_one desired c).1
          then contains (resolve_one desired c).0.requested type
          else false)
        ≡ (contains desired type && (c.supported && contains c.satisfiable type)))
unfolding resolve_one
is_requested-resolve_one desired c type = ground (
  arith,
  contains-active_metrics desired c.satisfiable type,
  contains_empty (active_metrics desired c.satisfiable) type,
)

-- A metric is requested of a returned collector exactly if it is desired and a supported collector
-- can deliver it.
pub is_requested-resolve :
    (cs : List Collector) (desired : List ℕ) (type : ℕ)
    → is_requested type (resolve desired cs).1 ≡ (contains desired type && is_available type cs)
unfolding resolve
is_requested-resolve [] desired type = ground arith
is_requested-resolve (c ∷ cs) desired type =
    ground (arith, is_requested-resolve_one desired c type, is_requested-resolve cs desired type)
