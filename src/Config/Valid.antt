-- ===== src/Config/Valid.antt =====
-- What a loaded configuration satisfies, whatever the file holds.
use volta.Prelude.{
  ℕ, ◌^◌, ◌<◌, ◌≡◌, refl, ◌⊎◌, inl, inr, true, false, ◌||◌, some, List, [], arith, ltb, ltb→lt,
  is_empty, Text, text, Bool-cases, Option-cases,
}
use volta.Config.{Config, Toml, Platform, default_affinity, load_default_config}
use volta.Config.Files.{
  File, missing, malformed, parsed, lookup, is_all, metrics_of, affinity_entries, affinity_array,
  load_core_affinity, load_interval, load_server_address, load_server_port, load_metrics,
  load_time_window, load_config_file, load_config,
}
use volta.Config.Requests.{IsRequest, ParsesValid, metrics_of-IsRequest}
use volta.Config.Masks.{IsMask, default_affinity-IsMask, affinity_entries-IsMask}

abbrev IsPositiveWord : ℕ → Type 0
IsPositiveWord port = (0 < port) × (port < 2 ^ 16)

-- The metrics are the default ones or such as a file can name, and at least one; the CPUs of the mask are
-- below the number of those online; the port is one; the address is
-- the default one, an IP address or a name that resolves.
pub record IsValid (p : Platform) (c : Config) : Type 0 where
  pub metrics :
      (c.requested_metrics ≡ (load_default_config p).requested_metrics)
      ⊎ (IsRequest p c.requested_metrics × (is_empty c.requested_metrics ≡ false))
  pub mask : IsMask p c.core_affinity
  pub port : IsPositiveWord c.server_port
  pub address :
      (c.server_address ≡ text "localhost")
      ⊎ ((p.is_valid_ip c.server_address || p.is_resolvable c.server_address) ≡ true)

-- toml++ gives a 16-bit number where it is asked for one.
abbrev Gives16 : {Node : Type 0} → Toml Node → Type 0
Gives16 {Node} toml = (val : Node) (n : ℕ) → toml.value_uint16 val ≡ some n → n < 2 ^ 16

with_mask :
    {p : Platform} (c : Config) (cpus : List ℕ)
    → IsValid p c
    → IsMask p cpus
    → IsValid p (record c { core_affinity = cpus })
with_mask c cpus h m = record { metrics = h.metrics; mask = m; port = h.port; address = h.address }

load_default_config-IsValid :
    (p : Platform) → IsMask p (default_affinity p) → IsValid p (load_default_config p)
unfolding load_default_config
load_default_config-IsValid p m = record {
  metrics = inl refl;
  mask = m;
  port = (omega arith, omega arith);
  address = inl refl;
}

module _ {Node : Type 0} (toml : Toml Node) (p : Platform) where
  affinity_array-IsValid :
      (val : Node) (c : Config) → IsValid p c → IsValid p (affinity_array toml p val c)
  unfolding affinity_array
  affinity_array-IsValid val c h = elim (Option-cases (toml.as_array val)) [
    | inl a ↦ rw (a, affinity_array) h
    | inr (items, a) ↦ elim (Option-cases (affinity_entries toml p [] items)) [
      | inl r ↦ rw (a, r, affinity_array) h
      | inr (mask, r) ↦
          rw (a, r, affinity_array)
            (with_mask c mask h (affinity_entries-IsMask toml p items [] mask (λ c k. absurd cc) r))
    ]
  ]

  load_core_affinity-IsValid :
      (tbl : List (Text × Node)) (c : Config)
      → IsMask p (default_affinity p)
      → IsValid p c
      → IsValid p (load_core_affinity toml p tbl c)
  unfolding load_core_affinity
  load_core_affinity-IsValid tbl c d h = elim (Option-cases (lookup (text "core_affinity") tbl)) [
    | inl l ↦ rw (l, load_core_affinity) h
    | inr (val, l) ↦ elim (Bool-cases (is_all toml p val)) [
      | inl a ↦ rw (l, a, load_core_affinity) (with_mask c (default_affinity p) h d)
      | inr a ↦ rw (l, a, load_core_affinity) (affinity_array-IsValid val c h)
    ]
  ]

  load_interval-IsValid :
      (tbl : List (Text × Node)) (c : Config) → IsValid p c → IsValid p (load_interval toml p tbl c)
  unfolding load_interval
  load_interval-IsValid tbl c h = elim (Option-cases (lookup (text "interval") tbl)) [
    | inl l ↦ rw (l, load_interval) h
    | inr (val, l) ↦ elim (Option-cases (toml.value_uint32 val)) [
      | inl a ↦ rw (l, a, load_interval) h
      | inr (ms, a) ↦
          rw (l, a, load_interval)
            (record { metrics = h.metrics; mask = h.mask; port = h.port; address = h.address })
    ]
  ]

  load_time_window-IsValid :
      (tbl : List (Text × Node)) (c : Config)
      → IsValid p c
      → IsValid p (load_time_window toml p tbl c)
  unfolding load_time_window
  load_time_window-IsValid tbl c h = elim (Option-cases (lookup (text "time_window") tbl)) [
    | inl l ↦ rw (l, load_time_window) h
    | inr (val, l) ↦ elim (Option-cases (toml.value_float val)) [
      | inl a ↦ rw (l, a, load_time_window) h
      | inr (w, a) ↦ elim (Bool-cases (p.exceeds (p.times_1000 w) c.collection_interval)) [
        | inl e ↦
            rw (l, a, e, load_time_window)
              (record { metrics = h.metrics; mask = h.mask; port = h.port; address = h.address })
        | inr e ↦ rw (l, a, e, load_time_window) h
      ]
    ]
  ]

  load_server_address-IsValid :
      (tbl : List (Text × Node)) (c : Config)
      → IsValid p c
      → IsValid p (load_server_address toml p tbl c)
  unfolding load_server_address
  load_server_address-IsValid tbl c h = elim (Option-cases (lookup (text "server_address") tbl)) [
    | inl l ↦ rw (l, load_server_address) h
    | inr (val, l) ↦ elim (Option-cases (toml.value_string val)) [
      | inl a ↦ rw (l, a, load_server_address) h
      | inr (s, a) ↦ elim (Bool-cases (p.is_valid_ip s || p.is_resolvable s)) [
        | inl e ↦
            rw (l, a, e, load_server_address)
              (record { metrics = h.metrics; mask = h.mask; port = h.port; address = inr e })
        | inr e ↦ rw (l, a, e, load_server_address) h
      ]
    ]
  ]

  load_server_port-IsValid :
      (tbl : List (Text × Node)) (c : Config)
      → Gives16 toml
      → IsValid p c
      → IsValid p (load_server_port toml p tbl c)
  unfolding load_server_port
  load_server_port-IsValid tbl c g h = elim (Option-cases (lookup (text "server_port") tbl)) [
    | inl l ↦ rw (l, load_server_port) h
    | inr (val, l) ↦ elim (Option-cases (toml.value_uint16 val)) [
      | inl a ↦ rw (l, a, load_server_port) h
      | inr (port, a) ↦ elim (Bool-cases (ltb 0 port)) [
        | inl e ↦
            rw (l, a, e, load_server_port)
              (record {
                metrics = h.metrics;
                mask = h.mask;
                port = (ltb→lt 0 port e, g val port a);
                address = h.address;
              })
        | inr e ↦ rw (l, a, e, load_server_port) h
      ]
    ]
  ]

  load_metrics-IsValid :
      (tbl : List (Text × Node)) (c : Config)
      → ParsesValid p
      → IsValid p c
      → IsValid p (load_metrics toml p tbl c)
  unfolding load_metrics
  load_metrics-IsValid tbl c v h = elim (Option-cases (lookup (text "metrics") tbl)) [
    | inl l ↦ rw (l, load_metrics) h
    | inr (val, l) ↦ elim (Bool-cases (is_empty (metrics_of toml p val))) [
      | inl e ↦ rw (l, e, load_metrics) h
      | inr e ↦
          rw (l, e, load_metrics)
            (record {
              metrics = inr (metrics_of-IsRequest toml p val v, e);
              mask = h.mask;
              port = h.port;
              address = h.address;
            })
    ]
  ]

  -- The configuration that is loaded is valid, whatever the file is or holds: the metrics are the default
  -- ones, or at least one, none twice, each of the enum and none unspecified; each CPU of the mask has a
  -- number below that of how many CPUs are online, and below 1024; the port lies in 1 to 65535; the address
  -- is the default one, an IP address or a name that resolves. It relies on the generated parser returning
  -- values of the enum, on toml++ giving 16-bit numbers as such, and on fewer than 2^32 online CPUs.
  pub load_config-IsValid :
      (file : File Node)
      → ParsesValid p
      → Gives16 toml
      → ((n : ℕ) → p.online_cpus ≡ some n → n < 2 ^ 32)
      → IsValid p (load_config toml p file).0
  unfolding load_config load_config_file
  load_config-IsValid missing v g o = load_default_config-IsValid p (default_affinity-IsMask p o)
  load_config-IsValid malformed v g o = load_default_config-IsValid p (default_affinity-IsMask p o)
  load_config-IsValid (parsed tbl) v g o = load_metrics-IsValid tbl _ v (
      load_server_port-IsValid tbl _ g (
        load_server_address-IsValid tbl _ (
          load_time_window-IsValid tbl _ (
            load_interval-IsValid tbl _ (
              load_core_affinity-IsValid tbl _ (default_affinity-IsMask p o)
                (load_default_config-IsValid p (default_affinity-IsMask p o)))))))
