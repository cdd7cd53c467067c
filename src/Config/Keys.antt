-- ===== src/Config/Keys.antt =====
-- sources/agent/src/config/config_loader.cc: which keys of the file decide what, and what the buffer
-- makes of the interval.
use volta.Prelude.{
  ℕ, ◌≡◌, refl, ◌↔◌, ap, sym, subst, ◌∙◌, Bool, true, false, ◌||◌, none, some, List, [], ◌∷◌, ◌++◌,
  Bool-cases, inl, inr, Text, text, ◌=t=◌, arith,
}
use volta.Config.{Config, Toml, Platform, load_default_config}
use volta.Config.Files.{
  parsed, lookup, valid_keys, is_valid_key, load_core_affinity, load_interval, load_server_address,
  load_server_port, load_metrics, load_time_window, load_config_file, load_config, check_keys,
}
use volta.Buffer.Metrics.{create}

or_false : {a b : Bool} → (a || b) ≡ false → (a ≡ false) × (b ≡ false)
or_false {a = true} {b = b} h = absurd cc
or_false {a = false} {b = b} h = (refl, h)

create-none : (window ms : ℕ) → (create window ms ≡ none) ↔ (ms ≡ 0)
unfolding create
create-none window ms = ground arith

module _ {Node : Type 0} (toml : Toml Node) (p : Platform) where
  lookup_other :
      (key k : Text) (v : Node) (front back : List (Text × Node))
      → (key =t= k) ≡ false
      → lookup k (front ++ (key, v) ∷ back) ≡ lookup k (front ++ back)
  unfolding lookup
  lookup_other key k v [] back h = rw h refl
  lookup_other key k v ((j, w) ∷ front) back h = rw (lookup_other key k v front back h) refl

  load_core_affinity-lookup :
      (tbl tbl' : List (Text × Node)) (c : Config)
      → lookup (text "core_affinity") tbl ≡ lookup (text "core_affinity") tbl'
      → load_core_affinity toml p tbl c ≡ load_core_affinity toml p tbl' c
  unfolding load_core_affinity
  load_core_affinity-lookup tbl tbl' c e = rw (e, load_core_affinity) refl

  load_interval-lookup :
      (tbl tbl' : List (Text × Node)) (c : Config)
      → lookup (text "interval") tbl ≡ lookup (text "interval") tbl'
      → load_interval toml p tbl c ≡ load_interval toml p tbl' c
  unfolding load_interval
  load_interval-lookup tbl tbl' c e = rw (e, load_interval) refl

  load_time_window-lookup :
      (tbl tbl' : List (Text × Node)) (c : Config)
      → lookup (text "time_window") tbl ≡ lookup (text "time_window") tbl'
      → load_time_window toml p tbl c ≡ load_time_window toml p tbl' c
  unfolding load_time_window
  load_time_window-lookup tbl tbl' c e = rw (e, load_time_window) refl

  load_server_address-lookup :
      (tbl tbl' : List (Text × Node)) (c : Config)
      → lookup (text "server_address") tbl ≡ lookup (text "server_address") tbl'
      → load_server_address toml p tbl c ≡ load_server_address toml p tbl' c
  unfolding load_server_address
  load_server_address-lookup tbl tbl' c e = rw (e, load_server_address) refl

  load_server_port-lookup :
      (tbl tbl' : List (Text × Node)) (c : Config)
      → lookup (text "server_port") tbl ≡ lookup (text "server_port") tbl'
      → load_server_port toml p tbl c ≡ load_server_port toml p tbl' c
  unfolding load_server_port
  load_server_port-lookup tbl tbl' c e = rw (e, load_server_port) refl

  load_metrics-lookup :
      (tbl tbl' : List (Text × Node)) (c : Config)
      → lookup (text "metrics") tbl ≡ lookup (text "metrics") tbl'
      → load_metrics toml p tbl c ≡ load_metrics toml p tbl' c
  unfolding load_metrics
  load_metrics-lookup tbl tbl' c e = rw (e, load_metrics) refl

  -- Two tables that agree on the valid keys load the same configuration.
  load_config-lookup :
      (tbl tbl' : List (Text × Node))
      → lookup (text "core_affinity") tbl ≡ lookup (text "core_affinity") tbl'
      → lookup (text "interval") tbl ≡ lookup (text "interval") tbl'
      → lookup (text "time_window") tbl ≡ lookup (text "time_window") tbl'
      → lookup (text "server_address") tbl ≡ lookup (text "server_address") tbl'
      → lookup (text "server_port") tbl ≡ lookup (text "server_port") tbl'
      → lookup (text "metrics") tbl ≡ lookup (text "metrics") tbl'
      → (load_config toml p (parsed tbl)).0 ≡ (load_config toml p (parsed tbl')).0
  unfolding load_config load_config_file
  load_config-lookup tbl tbl' a i t s o m =
      let c0 = load_default_config p in
      load_metrics-lookup tbl tbl' _ m
      ∙ ap (load_metrics toml p tbl') (
          load_server_port-lookup tbl tbl' _ o
          ∙ ap (load_server_port toml p tbl') (
              load_server_address-lookup tbl tbl' _ s
              ∙ ap (load_server_address toml p tbl') (
                  load_time_window-lookup tbl tbl' _ t
                  ∙ ap (load_time_window toml p tbl') (
                      load_interval-lookup tbl tbl' _ i
                      ∙ ap (load_interval toml p tbl') (load_core_affinity-lookup tbl tbl' c0 a)))))

  is_valid_key_lem :
      (key : Text)
      → is_valid_key valid_keys key ≡ false
      → ((key =t= text "core_affinity") ≡ false)
        × ((key =t= text "interval") ≡ false)
        × ((key =t= text "time_window") ≡ false)
        × ((key =t= text "server_address") ≡ false)
        × ((key =t= text "server_port") ≡ false)
        × ((key =t= text "metrics") ≡ false)
  unfolding is_valid_key valid_keys
  is_valid_key_lem key h =
      let (a, h1) = or_false h in
      let (i, h2) = or_false h1 in
      let (s, h3) = or_false h2 in
      let (o, h4) = or_false h3 in let (m, h5) = or_false h4 in (a, i, (or_false h5).0, s, o, m)

  check_keys-append :
      (front back : List (Text × Node))
      → check_keys toml p (front ++ back) ≡ check_keys toml p front ++ check_keys toml p back
  unfolding check_keys
  check_keys-append [] back = refl
  check_keys-append ((j, w) ∷ front) back = elim (Bool-cases (is_valid_key valid_keys j)) [
    | inl e ↦ ground (arith, e, check_keys-append front back)
    | inr e ↦ ground (arith, e, check_keys-append front back)
  ]

  check_keys-unknown :
      (key : Text) (v : Node) (tbl : List (Text × Node))
      → is_valid_key valid_keys key ≡ false
      → check_keys toml p ((key, v) ∷ tbl) ≡ key ∷ check_keys toml p tbl
  unfolding check_keys
  check_keys-unknown key v tbl h = rw (h, check_keys) refl

  -- A key that is not valid, wherever it stands in the table, changes nothing of the configuration, and
  -- `CheckKeys` names it, between those that it names of the keys before and after.
  pub load_config-unknown_key :
      (key : Text) (v : Node) (front back : List (Text × Node))
      → is_valid_key valid_keys key ≡ false
      → ((load_config toml p (parsed (front ++ (key, v) ∷ back))).0
          ≡ (load_config toml p (parsed (front ++ back))).0)
        × ((load_config toml p (parsed (front ++ (key, v) ∷ back))).1
            ≡ (load_config toml p (parsed front)).1 ++ key ∷ (load_config toml p (parsed back)).1)
  unfolding load_config load_config_file
  load_config-unknown_key key v front back h =
      let (a, i, t, s, o, m) = is_valid_key_lem key h in
      (
        load_config-lookup (front ++ (key, v) ∷ back) (front ++ back)
            (lookup_other key (text "core_affinity") v front back a)
            (lookup_other key (text "interval") v front back i)
            (lookup_other key (text "time_window") v front back t)
            (lookup_other key (text "server_address") v front back s)
            (lookup_other key (text "server_port") v front back o)
            (lookup_other key (text "metrics") v front back m),
        check_keys-append front ((key, v) ∷ back)
            ∙ ap (λ ks. check_keys toml p front ++ ks) (check_keys-unknown key v back h),
      )

  load_time_window-interval :
      (tbl : List (Text × Node)) (c : Config)
      → (load_time_window toml p tbl c).collection_interval ≡ c.collection_interval
  unfolding load_time_window
  load_time_window-interval tbl c = ground arith

  load_server_address-interval :
      (tbl : List (Text × Node)) (c : Config)
      → (load_server_address toml p tbl c).collection_interval ≡ c.collection_interval
  unfolding load_server_address
  load_server_address-interval tbl c = ground arith

  load_server_port-interval :
      (tbl : List (Text × Node)) (c : Config)
      → (load_server_port toml p tbl c).collection_interval ≡ c.collection_interval
  unfolding load_server_port
  load_server_port-interval tbl c = ground arith

  load_metrics-interval :
      (tbl : List (Text × Node)) (c : Config)
      → (load_metrics toml p tbl c).collection_interval ≡ c.collection_interval
  unfolding load_metrics
  load_metrics-interval tbl c = ground arith

  load_interval_lem :
      (tbl : List (Text × Node)) (val : Node) (ms : ℕ) (c : Config)
      → lookup (text "interval") tbl ≡ some val
      → toml.value_uint32 val ≡ some ms
      → (load_interval toml p tbl c).collection_interval ≡ ms
  unfolding load_interval
  load_interval_lem tbl val ms c l v = rw (l, v, load_interval) refl

  -- An interval that the file gives, as a 32-bit number, is the configuration's interval, and making
  -- the metrics buffer for it is undefined, for whatever time window, exactly if the interval is 0.
  pub load_config-interval :
      (tbl : List (Text × Node)) (val : Node) (ms : ℕ)
      → lookup (text "interval") tbl ≡ some val
      → toml.value_uint32 val ≡ some ms
      → ((load_config toml p (parsed tbl)).0.collection_interval ≡ ms)
        × ((window : ℕ)
            → (create window (load_config toml p (parsed tbl)).0.collection_interval ≡ none)
              ↔ (ms ≡ 0))
  unfolding load_config load_config_file create
  load_config-interval tbl val ms l v =
      let e : (load_config toml p (parsed tbl)).0.collection_interval ≡ ms =
        load_metrics-interval tbl _
        ∙ load_server_port-interval tbl _
        ∙ load_server_address-interval tbl _
        ∙ load_time_window-interval tbl _
        ∙ load_interval_lem tbl val ms _ l v in
      (
        e,
        λ window. subst (λ n. (create window n ≡ none) ↔ (ms ≡ 0)) (sym e) (create-none window ms),
      )
