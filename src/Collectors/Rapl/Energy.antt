-- ===== src/Collectors/Rapl/Energy.antt =====
-- What a run of collections reports: the differences of successive energies.
use volta.Prelude.{
  ℕ, ◌≡◌, refl, ap, sym, ◌∙◌, true, false, Option, List, [], ◌∷◌, ◌++◌, arith, contains, is_empty,
  inl, inr, ◌⊎◌,
}
use volta.Metric.{Metric, Double, cpu_power_package}
use volta.Collectors.Rapl.{
  RaplCollector, Result, ok, throws, read_msr, energy_status, energy_of, report, collect, Thrown,
}

-- Collections one after the other, each with what `pread` answers and the time.
unfoldable pub collect_all : Double → RaplCollector → List ((ℕ → ℕ → Option ℕ) × ℕ) → List Metric
collect_all d c [] = []
collect_all d c ((pread, now) ∷ rounds) =
    let (c', metrics) = collect d pread now c in metrics ++ collect_all d c' rounds

abbrev pub values : List Metric → List ℕ
values [] = []
values (m ∷ ms) = m.value ∷ values ms

-- The readings of the register that succeed.
abbrev reading : Result ℕ → List ℕ
reading (ok readout) = readout ∷ []
reading (throws _) = []

unfoldable pub readings : List ℕ → List ((ℕ → ℕ → Option ℕ) × ℕ) → List ℕ
readings files [] = []
readings files ((pread, now) ∷ rounds) =
    reading (read_msr pread files energy_status) ++ readings files rounds

-- Each energy less the one before it.
abbrev pub differences : Double → ℕ → ℕ → List ℕ → List ℕ
differences d units last [] = []
differences d units last (r ∷ rs) =
    let energy = d.mul units (d.of_uint64 r) in d.sub energy last ∷ differences d units energy rs

Result-cases : (r : Result ℕ) → ((n : ℕ) × (r ≡ ok n)) ⊎ ((e : Thrown) × (r ≡ throws e))
Result-cases (ok n) = inl (n, refl)
Result-cases (throws e) = inr (e, refl)

is_empty-contains : (xs : List ℕ) (a : ℕ) → contains xs a ≡ true → is_empty xs ≡ false
is_empty-contains [] a h = absurd cc
is_empty-contains (x ∷ xs) a h = refl

module _ (d : Double) (pread : ℕ → ℕ → Option ℕ) (now : ℕ) (c : RaplCollector) where
  collect_ok :
      (n : ℕ)
      → c.initialized ≡ true
      → contains c.requested_metrics cpu_power_package ≡ true
      → read_msr pread c.msr_files energy_status ≡ ok n
      → collect d pread now c ≡ report d c now n
  unfolding collect
  collect_ok n i r e =
      ground (arith, i, r, e, is_empty-contains c.requested_metrics cpu_power_package)

  collect_throws :
      (t : Thrown)
      → read_msr pread c.msr_files energy_status ≡ throws t
      → collect d pread now c ≡ (c, [])
  unfolding collect
  collect_throws t e = ground (arith, e)

-- A collector that is initialized and asked for the power of the package reports, over any
-- collections, the differences of the energies of the successive readings, the first against
-- `last_value`; a reading that fails is passed over.
pub values-collect_all :
    (d : Double) (rounds : List ((ℕ → ℕ → Option ℕ) × ℕ)) (c : RaplCollector)
    → c.initialized ≡ true
    → contains c.requested_metrics cpu_power_package ≡ true
    → values (collect_all d c rounds)
      ≡ differences d c.energy_units c.last_value (readings c.msr_files rounds)
unfolding collect_all readings
values-collect_all d [] c i r = refl
values-collect_all d ((pread, now) ∷ rounds) c i r =
    elim (Result-cases (read_msr pread c.msr_files energy_status)) [
      | inl (n, e) ↦
          ap (λ o. values (o.1 ++ collect_all d o.0 rounds)) (collect_ok d pread now c n i r e)
          ∙ ap (λ vs. d.sub (energy_of d c n) c.last_value ∷ vs)
              (values-collect_all d rounds (report d c now n).0 i r)
          ∙ ap
              (λ x.
                differences d c.energy_units c.last_value
                  (reading x ++ readings c.msr_files rounds))
              (sym e)
      | inr (t, e) ↦
          ap (λ o. values (o.1 ++ collect_all d o.0 rounds)) (collect_throws d pread now c t e)
          ∙ values-collect_all d rounds c i r
          ∙ ap
              (λ x.
                differences d c.energy_units c.last_value
                  (reading x ++ readings c.msr_files rounds))
              (sym e)
    ]
