-- ===== src/Tests/Configs.antt =====
-- Configurations, at small files.
use volta.Prelude.{
  ℕ, ◌≡◌, refl, ◌<◌, ◌↔◌, ◌&&◌, ◌||◌, true, false, some, none, Option, List, [], ◌∷◌, ◌++◌, Text,
  text, ◌=t=◌, arith, contains, leb, ltb, if◌then◌else◌, ◌==◌, ◌^◌,
}
use volta.Buffer.Metrics.{create}
use volta.Config.{Toml, Platform, add_range}
use volta.Config.Affinity.{contains-add_range}
use volta.Config.Files.{parsed, load_config, lookup, valid_keys, is_valid_key}
use volta.Config.Keys.{load_config-unknown_key, load_config-interval}
use volta.Config.Valid.{IsValid, load_config-IsValid}

-- The values of a file: a number below 1000, a text, or an array.
mutual
  pub data Node : Type 0 where
    number_node : ℕ → Node
    text_node : Text → Node
    array_node : Nodes → Node

  pub data Nodes : Type 0 where
    stop : Nodes
    more : Node → Nodes → Nodes

abbrev nodes : Nodes → List Node
nodes stop = []
nodes (more n ns) = n ∷ nodes ns

abbrev number_of : Node → Option ℕ
number_of (number_node n) = if ltb n 1000 then some n else none
number_of _ = none

abbrev text_of : Node → Option Text
text_of (text_node t) = some t
text_of _ = none

abbrev array_of : Node → Option (List Node)
array_of (array_node ns) = some (nodes ns)
array_of _ = none

abbrev pub toml : Toml Node
toml = record {
  value_uint32 = number_of;
  value_uint16 = number_of;
  value_int = number_of;
  value_float = number_of;
  value_string = text_of;
  as_array = array_of;
}

abbrev parse_metric : Text → Option ℕ
parse_metric t = if t =t= text "RAM_USED" then some 303 else none

abbrev pub platform : Platform
platform = record {
  online_cpus = some 4;
  metric_is_valid = λ m. m == 303 || m == 200;
  metric_parse = parse_metric;
  is_valid_ip = λ t. false;
  is_resolvable = λ t. t =t= text "host";
  times_1000 = λ n. n;
  exceeds = λ a b. ltb b a;
  to_uint32 = λ n. n;
}

abbrev file : List (Text × Node)
file =
    (text "interval", number_node 0)
    ∷ (text "core_affinity", array_node (more (number_node 1) (more (text_node (text "2-3")) stop)))
    ∷ (
      text "metrics",
      array_node (more (text_node (text "RAM_USED")) (more (number_node 303) stop)),
    )
    ∷ []

parse_metric_lem :
    (name : Text) (m : ℕ) → parse_metric name ≡ some m → (m == 303 || m == 200) ≡ true
parse_metric_lem name m e = ground (arith, e)

number_of_lem : (val : Node) (n : ℕ) → number_of val ≡ some n → n < 2 ^ 16
number_of_lem (number_node k) n e = ground (arith, e)
number_of_lem (text_node t) n e = absurd cc
number_of_lem (array_node ns) n e = absurd cc

online_lem : (n : ℕ) → some 4 ≡ some n → n < 2 ^ 32
online_lem n e = ground (arith, e)

load_config-IsValid_example : IsValid platform (load_config toml platform (parsed file)).0
load_config-IsValid_example =
    load_config-IsValid toml platform (parsed file) parse_metric_lem number_of_lem online_lem

abbrev more_settings : List (Text × Node)
more_settings = (text "zzz", number_node 2) ∷ []

load_config-unknown_key_example :
    ((load_config toml platform (parsed (file ++ (text "port", number_node 1) ∷ more_settings))).0
      ≡ (load_config toml platform (parsed (file ++ more_settings))).0)
    × ((load_config toml platform (parsed (file ++ (text "port", number_node 1) ∷ more_settings))).1
        ≡ (load_config toml platform (parsed file)).1
          ++ text "port" ∷ (load_config toml platform (parsed more_settings)).1)
unfolding is_valid_key valid_keys
load_config-unknown_key_example =
    load_config-unknown_key toml platform (text "port") (number_node 1) file more_settings refl

abbrev no_interval : ℕ
no_interval = 0

load_config-interval_example :
    ((load_config toml platform (parsed file)).0.collection_interval ≡ no_interval)
    × ((window : ℕ)
        → (create window (load_config toml platform (parsed file)).0.collection_interval ≡ none)
          ↔ (no_interval ≡ 0))
unfolding lookup
load_config-interval_example =
    load_config-interval toml platform file (number_node 0) no_interval refl refl

contains-add_range_example :
    (mask' : List ℕ) × (add_range (0 ∷ []) 2 3 4 ≡ some mask')
    × ((c : ℕ) → contains mask' c ≡ (contains (0 ∷ []) c || (leb 2 c && (leb c 3 && ltb c 1024))))
contains-add_range_example = contains-add_range (0 ∷ []) 2 3 4 (omega arith) (omega arith)
