-- ===== src/Config/Masks.antt =====
-- sources/agent/src/config/config_loader.cc: the CPU masks that a file can give.
use volta.Prelude.{
  ℕ, suc, ◌-◌, ◌^◌, ◌<◌, ◌≡◌, inl, inr, true, none, some, List, [], ◌∷◌, arith, contains, ltb,
  if◌then◌else◌, Option-cases,
}
use volta.Config.Affinity.{contains-cpu_set, contains-set_from}
use volta.Config.{Toml, Platform, default_affinity, max_online_cpus, add_cpu, add_range, scan_range}
use volta.Config.Files.{affinity_entry, affinity_entries}

-- Online CPUs, by the number that `MaxOnlineCpus` gives, which a `cpu_set_t` can hold.
abbrev pub IsMask : Platform → List ℕ → Type 0
IsMask p mask = (c : ℕ) → contains mask c ≡ true → c < max_online_cpus p × (c < 1024)

add_cpu-IsMask :
    (p : Platform) (mask mask' : List ℕ) (cpu : ℕ)
    → IsMask p mask
    → add_cpu mask cpu (max_online_cpus p) ≡ some mask'
    → IsMask p mask'
unfolding add_cpu
add_cpu-IsMask p mask mask' cpu h e c k = ground (arith, e, h c, contains-cpu_set mask cpu c)

add_range-IsMask :
    (p : Platform) (mask mask' : List ℕ) (from to : ℕ)
    → IsMask p mask
    → add_range mask from to (max_online_cpus p) ≡ some mask'
    → IsMask p mask'
unfolding add_range
add_range-IsMask p mask mask' from to h e c k =
    ground (arith, e, h c, contains-set_from (suc to - from) mask from c)

pub default_affinity-IsMask :
    (p : Platform) → ((n : ℕ) → p.online_cpus ≡ some n → n < 2 ^ 32) → IsMask p (default_affinity p)
unfolding default_affinity max_online_cpus
default_affinity-IsMask p h c k = elim (Option-cases p.online_cpus) [
  | inl e ↦ ground (arith, e)
  | inr (n, e) ↦ ground (arith, e, h n, contains-set_from (if ltb n 1024 then n else 1024) [] 0 c)
]

none_not_some : {A B : Type 0} {a : A} → none ≡ some a → B
none_not_some e = absurd cc

module _ {Node : Type 0} (toml : Toml Node) (p : Platform) where
  affinity_entry-IsMask :
      (mask mask' : List ℕ) (item : Node)
      → IsMask p mask
      → affinity_entry toml p mask item ≡ some mask'
      → IsMask p mask'
  unfolding affinity_entry
  affinity_entry-IsMask mask mask' item h e = elim (Option-cases (toml.value_uint32 item)) [
    | inr (cpu, u) ↦ add_cpu-IsMask p mask mask' cpu h (rw (u, affinity_entry) at e)
    | inl u ↦ elim (Option-cases (toml.value_string item)) [
      | inl s ↦ none_not_some (rw (u, s, affinity_entry) at e)
      | inr (str, s) ↦ elim (Option-cases (scan_range str)) [
        | inl r ↦ none_not_some (rw (u, s, r, affinity_entry) at e)
        | inr ((from, to), r) ↦
            add_range-IsMask p mask mask' from to h (rw (u, s, r, affinity_entry) at e)
      ]
    ]
  ]

  pub affinity_entries-IsMask :
      (items : List Node) (mask mask' : List ℕ)
      → IsMask p mask
      → affinity_entries toml p mask items ≡ some mask'
      → IsMask p mask'
  unfolding affinity_entries
  affinity_entries-IsMask [] mask mask' h e = λ c k. h c (ground (arith, e, k))
  affinity_entries-IsMask (item ∷ items) mask mask' h e =
      elim (Option-cases (affinity_entry toml p mask item)) [
        | inl r ↦ none_not_some (rw (r, affinity_entries) at e)
        | inr (m, r) ↦
            affinity_entries-IsMask items m mask' (affinity_entry-IsMask mask m item h r)
              (rw (r, affinity_entries) at e)
      ]
