-- ===== src/Platform/Loader/Balance.antt =====
-- The loader over any number of calls: what it returns, the error that it leaves, and the libraries
-- that stay open.
use volta.Prelude.{
  ℕ, suc, ◌+◌, ◌≡◌, refl, sym, Bool, true, false, ◌&&◌, ◌||◌, ◌⊎◌, not, List, [], ◌∷◌, ◌++◌, arith,
  Text, text, is_some, is_empty, if◌then◌else◌, Bool-cases, Option-cases, inl, inr,
}
use volta.Platform.Loader.{
  NvmlApi, Loader, Linker, Action, opens, closes, resolve_symbol, resolve_symbols, symbols,
  resolve_all_symbols, library_candidates, keep_error, open_library, no_library, use_library,
  try_load_nvml,
}

-- Every function is there.
abbrev is_complete : NvmlApi → Bool
is_complete a =
    is_some a.init
    && (is_some a.shutdown
        && (is_some a.error_string
            && (is_some a.device_get_count
                && (is_some a.device_get_handle_by_index
                    && (is_some a.device_get_pci_info
                        && (is_some a.device_get_power_usage
                            && (is_some a.device_get_temperature
                                && (is_some a.device_get_utilization_rates
                                    && (is_some a.device_get_memory_info
                                        && is_some a.device_get_name)))))))))

-- A library is loaded only with all its functions and without an error.
abbrev pub IsSettled : Loader → Type 0
IsSettled l = (not (is_some l.nvml_handle) || (is_empty l.load_error && is_complete l.nvml)) ≡ true

-- What holds of an API into which the addresses are stored, whatever they are.
abbrev Stored : (NvmlApi → Type 0) → List (Text × (ℕ → NvmlApi → NvmlApi)) → NvmlApi → Type 0
Stored P [] a = P a
Stored P ((_, out) ∷ rest) a = (fn : ℕ) → Stored P rest (out fn a)

module _ (linker : Linker) (handle : ℕ) where
  resolve_symbol-cases :
      (l : Loader) (symbol : Text) (out : ℕ → NvmlApi → NvmlApi)
      → ((fn : ℕ) × (resolve_symbol linker handle l symbol out
            ≡ (record l { nvml = out fn l.nvml }, true)))
        ⊎ ((e : Text) × (is_empty e ≡ false)
            × (resolve_symbol linker handle l symbol out ≡ (record l { load_error = e }, false)))
  unfolding resolve_symbol
  resolve_symbol-cases l symbol out = elim (Option-cases (linker.dlsym_error handle symbol)) [
    | inr (e, h) ↦ inr (text "dlsym(" ++ (symbol ++ (text "): " ++ e)), refl, ground (arith, h))
    | inl h ↦ elim (Option-cases (linker.dlsym handle symbol)) [
      | inr (fn, g) ↦ inl (fn, ground (arith, h, g))
      | inl g ↦ inr (
        text "dlsym(" ++ (symbol ++ (text "): " ++ text "null symbol")),
        refl,
        ground (arith, h, g),
      )
    ]
  ]

  -- The chain stores every address, or leaves an error.
  resolve_symbols-cases :
      (P : NvmlApi → Type 0) (l : Loader) (list : List (Text × (ℕ → NvmlApi → NvmlApi)))
      → Stored P list l.nvml
      → ((a : NvmlApi) × P a
          × (resolve_symbols linker handle l list ≡ (record l { nvml = a }, true)))
        ⊎ ((a : NvmlApi) × (e : Text) × (is_empty e ≡ false)
            × (resolve_symbols linker handle l list
                ≡ (record l { nvml = a; load_error = e }, false)))
  unfolding resolve_symbols
  resolve_symbols-cases P l [] h = inl (l.nvml, h, refl)
  resolve_symbols-cases P l ((symbol, out) ∷ list) h = elim (resolve_symbol-cases l symbol out) [
    | inl (fn, g) ↦ elim (resolve_symbols-cases P (record l { nvml = out fn l.nvml }) list (h fn)) [
      | inl (a, p, k) ↦ inl (a, p, ground (arith, g, k))
      | inr (a, e, n, k) ↦ inr (a, e, n, ground (arith, g, k))
    ]
    | inr (e, n, g) ↦ inr (l.nvml, e, n, ground (arith, g))
  ]

handle-open_library :
    (linker : Linker) (cs : List Text) (l : Loader)
    → (open_library linker cs l).0.nvml_handle ≡ l.nvml_handle
unfolding open_library keep_error
handle-open_library linker [] l = refl
handle-open_library linker (c ∷ cs) l =
    ground (arith, handle-open_library linker cs (keep_error (linker.dlopen_error c) l))

-- The numbers of handles opened and closed.
abbrev pub opened : List Action → ℕ
opened [] = 0
opened (opens h ∷ acts) = suc (opened acts)
opened (closes h ∷ acts) = opened acts

abbrev pub closed : List Action → ℕ
closed [] = 0
closed (opens h ∷ acts) = closed acts
closed (closes h ∷ acts) = suc (closed acts)

-- 1 where a library is loaded.
abbrev held : Loader → ℕ
held l = if is_some l.nvml_handle then 1 else 0

-- What a call does, by whether it returns the API.
record Outcome (l : Loader) (r : Loader × Bool × List Action) : Type 0 where
  loaded : is_some r.0.nvml_handle ≡ r.1
  told : is_empty r.0.load_error ≡ r.1
  settled : IsSettled r.0
  balanced : opened r.2 + held l ≡ closed r.2 + held r.0

use_library-Outcome :
    (linker : Linker) (handle : ℕ) (l : Loader)
    → is_some l.nvml_handle ≡ false
    → Outcome l (use_library linker handle l)
unfolding use_library resolve_all_symbols
use_library-Outcome linker handle l h =
    elim (resolve_symbols-cases linker handle (λ a. is_complete a ≡ true) l symbols
      (λ _ _ _ _ _ _ _ _ _ _ _. refl)) [
        | inl (a, p, e) ↦
            rw e (record { loaded = refl; told = refl; settled = p; balanced = ground arith })
        | inr (a, m, n, e) ↦
            rw e (record { loaded = h; told = n; settled = ground arith; balanced = ground arith })
      ]

no_library-Outcome :
    (l : Loader) → is_some l.nvml_handle ≡ false → Outcome l (no_library l, false, [])
unfolding no_library
no_library-Outcome l h = record {
  loaded = ground arith;
  told = ground arith;
  settled = ground arith;
  balanced = ground arith;
}

Outcome-congr :
    {l k : Loader} {r : Loader × Bool × List Action}
    → l.nvml_handle ≡ k.nvml_handle
    → Outcome l r
    → Outcome k r
Outcome-congr {l} {k} e o = record {
  loaded = o.loaded;
  told = o.told;
  settled = o.settled;
  balanced = ground (arith, e, o.balanced);
}

try_load_nvml-Outcome :
    (linker : Linker) (l : Loader) → IsSettled l → Outcome l (try_load_nvml linker l)
unfolding try_load_nvml
try_load_nvml-Outcome linker l s = elim (Bool-cases (is_some l.nvml_handle)) [
  | inl e ↦ rw e (record { loaded = e; told = ground arith; settled = s; balanced = refl })
  | inr e ↦ elim (Option-cases (open_library linker library_candidates l).1) [
    | inl f ↦
        rw (e, f)
          (Outcome-congr same (
            no_library-Outcome (open_library linker library_candidates l).0 (ground (arith, same))))
    | inr (handle, f) ↦
        rw (e, f)
          (Outcome-congr same (
            use_library-Outcome linker handle (open_library linker library_candidates l).0
              (ground (arith, same))))
  ]
]
  where
    same : (open_library linker library_candidates l).0.nvml_handle ≡ l.nvml_handle
    same = handle-open_library linker library_candidates l

-- Calls in order, each with what the linker answers then.
abbrev load_all : List Linker → Loader → Loader × List Action
load_all [] l = (l, [])
load_all (linker ∷ linkers) l =
    let (l', _, acts) = try_load_nvml linker l in
    let (l'', more) = load_all linkers l' in (l'', acts ++ more)

opened-append : (xs ys : List Action) → opened (xs ++ ys) ≡ opened xs + opened ys
opened-append [] ys = omega arith
opened-append (opens h ∷ xs) ys = omega (arith, opened-append xs ys)
opened-append (closes h ∷ xs) ys = opened-append xs ys

closed-append : (xs ys : List Action) → closed (xs ++ ys) ≡ closed xs + closed ys
closed-append [] ys = omega arith
closed-append (opens h ∷ xs) ys = closed-append xs ys
closed-append (closes h ∷ xs) ys = omega (arith, closed-append xs ys)

-- A call returns the API exactly if a library is loaded after it, and exactly if it leaves no error,
-- whatever the linker answers; and it leaves the loader settled: where a library is loaded, there is no
-- error and every function has an address. The loader was settled before.
pub try_load_nvml_lem :
    (linker : Linker) (l : Loader)
    → IsSettled l
    → ((try_load_nvml linker l).1 ≡ is_some (try_load_nvml linker l).0.nvml_handle)
      × ((try_load_nvml linker l).1 ≡ is_empty (try_load_nvml linker l).0.load_error)
      × IsSettled (try_load_nvml linker l).0
try_load_nvml_lem linker l s =
    let o = try_load_nvml-Outcome linker l s in (sym o.loaded, sym o.told, o.settled)

-- Over any calls of a settled loader, whatever the linker answers to each, every library that is opened
-- is closed again but the one that stays loaded.
load_all-balanced :
    (linkers : List Linker) (l : Loader)
    → IsSettled l
    → opened (load_all linkers l).1 + held l
      ≡ closed (load_all linkers l).1 + held (load_all linkers l).0
load_all-balanced [] l s = refl
load_all-balanced (linker ∷ linkers) l s =
    let o = try_load_nvml-Outcome linker l s in
    let r = try_load_nvml linker l in
    omega (
      arith,
      opened-append r.2 (load_all linkers r.0).1,
      closed-append r.2 (load_all linkers r.0).1,
      o.balanced,
      load_all-balanced linkers r.0 o.settled,
    )
