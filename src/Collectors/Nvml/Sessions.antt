-- ===== src/Collectors/Nvml/Sessions.antt =====
-- NVML counts its sessions: every `Init` that succeeds wants a `Shutdown`.
use volta.Prelude.{
  ℕ, zero, suc, ◌≡◌, false, Option, none, some, List, [], ◌∷◌, arith, if◌then◌else◌,
}
use volta.Collectors.Nvml.{Nvml, Effect, opened, closed, NvmlCollector, init, is_supported, destroy}

-- The number of open sessions after some calls; `none` is a `Shutdown` with no session open.
abbrev pub sessions : ℕ → List Effect → Option ℕ
sessions n [] = some n
sessions n (opened ∷ es) = sessions (suc n) es
sessions zero (closed ∷ es) = none
sessions (suc n) (closed ∷ es) = sessions n es

-- `IsSupported` leaves the number of sessions as it was. `Init`, of a collector that is not initialized,
-- opens one exactly if it returns true, which is when the collector is initialized then, and what
-- the collector's end does brings the number back.
pub sessions-balanced :
    (library : Option Nvml) (c : NvmlCollector) (n : ℕ)
    → c.initialized ≡ false
    → (sessions n (is_supported library).1 ≡ some n)
      × ((init c library).0.initialized ≡ (init c library).1)
      × (sessions n (init c library).2 ≡ some (if (init c library).1 then suc n else n))
      × (sessions (if (init c library).1 then suc n else n) (destroy (init c library).0) ≡ some n)
unfolding is_supported init destroy
sessions-balanced none c n h = ground (arith, h)
sessions-balanced (some nvml) c n h = ground (arith, h)
