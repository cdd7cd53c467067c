-- ===== src/Config.antt =====
-- sources/agent/src/config/config.h, config_loader.h and config_loader.cc. The file, parsed by toml++,
-- is a table of keys and nodes; what toml++, the resolver and the generated enum answer are parameters.
-- A set of CPUs is the list of its members. A `float` is the number of its bit pattern, an `int` too.
pub mod Affinity
pub mod Masks
pub mod Requests
pub mod Valid
pub mod Files
pub mod Keys
use volta.Prelude.{
  ℕ, suc, zero, ◌+◌, ◌-◌, ◌*◌, ◌^◌, ◌%◌, Bool, true, false, not, ◌&&◌, ◌||◌, Option, none, some,
  List, [], ◌∷◌, ◌++◌, Text, text, ◌=t=◌, contains, is_empty, if◌then◌else◌, ltb, leb, ◌==◌, u32,
  is_some, skip_space, read_digits,
}
use volta.Metric.{MetricType, unspecified}

pub record Config : Type 0 where
  pub collection_interval : ℕ
  pub core_affinity : List ℕ
  pub server_address : Text
  pub server_port : ℕ
  pub requested_metrics : List MetricType
  pub buffered_time_window : ℕ
  pub dump_dir : Text

-- What toml++ makes of a node: `value<T>()` for the types that are asked for, and `as_array`.
pub record Toml (Node : Type 0) : Type 0 where
  pub value_uint32 : Node → Option ℕ
  pub value_uint16 : Node → Option ℕ
  pub value_int : Node → Option ℕ
  pub value_float : Node → Option ℕ
  pub value_string : Node → Option Text
  pub as_array : Node → Option (List Node)

-- What the rest of the world answers.
pub record Platform : Type 0 where
  -- `sysconf(_SC_NPROCESSORS_ONLN)`, where it is positive
  pub online_cpus : Option ℕ
  -- the generated `MetricType_IsValid` and `MetricType_Parse`
  pub metric_is_valid : ℕ → Bool
  pub metric_parse : Text → Option MetricType
  -- `utils::IsValidIP` and `utils::IsResolvable`, which ask the C library
  pub is_valid_ip : Text → Bool
  pub is_resolvable : Text → Bool
  -- `x * 1000`, `x > (float)n` and `(uint32_t)x`
  pub times_1000 : ℕ → ℕ
  pub exceeds : ℕ → ℕ → Bool
  pub to_uint32 : ℕ → ℕ

-- `CPU_SET`, which does nothing from `CPU_SETSIZE` on.
unfoldable pub cpu_set : List ℕ → ℕ → List ℕ
cpu_set mask cpu = if leb 1024 cpu then mask else if contains mask cpu then mask else cpu ∷ mask

-- `CPU_SET` of `n` CPUs from `from` on.
unfoldable pub set_from : List ℕ → ℕ → ℕ → List ℕ
unfolding cpu_set
set_from mask from zero = mask
set_from mask from (suc n) = set_from (cpu_set mask from) (suc from) n

-- `Config::kDefaultAffinity`
unfoldable pub default_affinity : Platform → List ℕ
unfolding set_from
default_affinity p = elim p.online_cpus [
  | none ↦ []
  | some n ↦ set_from [] 0 (if ltb n 1024 then n else 1024)
]

abbrev default_metrics : List MetricType
default_metrics =
    0 ∷ 100 ∷ 101 ∷ 102 ∷ 103 ∷ 104 ∷ 105 ∷ 106 ∷ 107 ∷ 200 ∷ 201 ∷ 202 ∷ 203 ∷ 204 ∷ 205 ∷ 206
    ∷ 207 ∷ 208 ∷ 300 ∷ 301 ∷ 302 ∷ 303 ∷ 304 ∷ 305 ∷ 306 ∷ 400 ∷ 401 ∷ 402 ∷ 403 ∷ 404 ∷ 405 ∷ 500
    ∷ 501 ∷ 502 ∷ 503 ∷ []

unfoldable pub load_default_config : Platform → Config
unfolding default_affinity
load_default_config p = record {
  collection_interval = 500;
  core_affinity = default_affinity p;
  server_address = text "localhost";
  server_port = 5000;
  requested_metrics = default_metrics;
  buffered_time_window = 2000;
  dump_dir = text "/var/lib/volta/dumps";
}

unfoldable pub max_online_cpus : Platform → ℕ
max_online_cpus p = elim p.online_cpus [ none ↦ 0 | some n ↦ u32 n ]

unfoldable pub add_cpu : List ℕ → ℕ → ℕ → Option (List ℕ)
unfolding cpu_set
add_cpu mask cpu max_cpu = if leb max_cpu cpu then none else some (cpu_set mask cpu)

unfoldable pub add_range : List ℕ → ℕ → ℕ → ℕ → Option (List ℕ)
unfolding set_from
add_range mask from to max_cpu =
    if ltb to from || leb max_cpu to then none else some (set_from mask from (suc to - from))

-- `%u` of `sscanf`: the number modulo 2^32, of the largest 64-bit number where there are too many digits.
abbrev unsigned_of : Bool → ℕ × Bool × Text → Option (ℕ × Text)
unsigned_of negative (n, seen, rest) =
    if not seen
    then none
    else if leb (2 ^ 64) n
    then some (2 ^ 32 - 1, rest)
    else some (u32 (if negative then 2 ^ 64 - n else n), rest)

unfoldable pub scan_unsigned : Text → Option (ℕ × Text)
unfolding skip_space read_digits
scan_unsigned t = elim (skip_space t) [
  | [] ↦ none
  | c ∷ cs ↦
      if c == b'-'
      then unsigned_of true (read_digits 0 false cs)
      else if c == b'+'
      then unsigned_of false (read_digits 0 false cs)
      else unsigned_of false (read_digits 0 false (c ∷ cs))
]

-- `sscanf(text, "%u-%u", &from, &to) == 2`
unfoldable pub scan_range : Text → Option (ℕ × ℕ)
unfolding scan_unsigned
scan_range t = elim (scan_unsigned t) [
  | none ↦ none
  | some (_, []) ↦ none
  | some (from, c ∷ rest) ↦
      if c == b'-'
      then elim (scan_unsigned rest) [ none ↦ none | some (to, _) ↦ some (from, to) ]
      else none
]
