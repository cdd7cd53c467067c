-- ===== src/Client/Stream/Pending.antt =====
-- The map of pending snapshots, by what a lookup finds after each change.
use volta.Prelude.{
  ℕ, ◌<◌, ◌≡◌, refl, false, none, some, [], ◌∷◌, ◌++◌, arith, is_some, All, if◌then◌else◌, ◌==◌,
  Bool-cases, inl, inr, subst,
}
use volta.Buffer.Series.{Snapshot}
use volta.Buffer.Keys.{BufferKey}
use volta.Client.Stream.{Pending, find_pending, erase_pending, emplace_pending}

abbrev pub DistinctIds : Pending → Type 0
DistinctIds [] = Unit
DistinctIds ((i, k, t) ∷ rest) = (is_some (find_pending i rest) ≡ false) × DistinctIds rest

pub find_pending-above :
    (n : ℕ) (ps : Pending)
    → All (λ (p : ℕ × BufferKey × Snapshot). p.0 < n) ps
    → find_pending n ps ≡ none
unfolding find_pending
find_pending-above n [] h = refl
find_pending-above n ((i, k, t) ∷ ps) h = ground (arith, find_pending-above n ps h.1)

pub emplace_pending-new :
    (n : ℕ) (k : BufferKey) (t : Snapshot) (ps : Pending)
    → find_pending n ps ≡ none
    → emplace_pending n k t ps ≡ ps ++ (n, k, t) ∷ []
unfolding find_pending emplace_pending
emplace_pending-new n k t [] h = refl
emplace_pending-new n k t ((i, j, u) ∷ ps) h = ground (arith, emplace_pending-new n k t ps)

find_pending-append_one :
    (n i : ℕ) (k : BufferKey) (t : Snapshot) (ps : Pending)
    → find_pending i (ps ++ (n, k, t) ∷ []) ≡ (
        if is_some (find_pending i ps)
        then find_pending i ps
        else if n == i
        then some (k, t)
        else none)
unfolding find_pending
find_pending-append_one n i k t [] = refl
find_pending-append_one n i k t ((j, l, u) ∷ ps) =
    ground (arith, find_pending-append_one n i k t ps)

pub DistinctIds-append_one :
    (n : ℕ) (k : BufferKey) (t : Snapshot) (ps : Pending)
    → All (λ (p : ℕ × BufferKey × Snapshot). p.0 < n) ps
    → DistinctIds ps
    → DistinctIds (ps ++ (n, k, t) ∷ [])
unfolding find_pending
DistinctIds-append_one n k t [] f d = (refl, tt)
DistinctIds-append_one n k t ((i, j, u) ∷ ps) f d =
    (ground (arith, find_pending-append_one n i k t ps), DistinctIds-append_one n k t ps f.1 d.1)

pub find_pending-erase_pending :
    (i j : ℕ) (ps : Pending)
    → DistinctIds ps
    → find_pending j (erase_pending i ps) ≡ (if i == j then none else find_pending j ps)
unfolding find_pending erase_pending
find_pending-erase_pending i j [] d = ground arith
find_pending-erase_pending i j ((n, k, t) ∷ ps) d =
    ground (arith, find_pending-erase_pending i j ps d.1)

pub DistinctIds-erase_pending :
    (i : ℕ) (ps : Pending) → DistinctIds ps → DistinctIds (erase_pending i ps)
unfolding erase_pending
DistinctIds-erase_pending i [] d = tt
DistinctIds-erase_pending i ((n, k, t) ∷ ps) d =
    ground (arith, DistinctIds-erase_pending i ps d.1, find_pending-erase_pending i n ps d.1)

pub All-erase_pending {κ} :
    (P : ℕ × BufferKey × Snapshot → Type κ) (i : ℕ) (ps : Pending)
    → All P ps
    → All P (erase_pending i ps)
unfolding erase_pending
All-erase_pending P i [] h = tt
All-erase_pending P i ((n, k, t) ∷ ps) h = elim (Bool-cases (n == i)) [
  | inl hit ↦ rw hit h.1
  | inr miss ↦ rw miss (h.0, All-erase_pending P i ps h.1)
]

-- What holds of every pending snapshot holds of one that a lookup finds.
pub find_pending-All {κ} :
    (P : BufferKey → Snapshot → Type κ) (id : ℕ) (ps : Pending) {k : BufferKey} {t : Snapshot}
    → All (λ (p : ℕ × BufferKey × Snapshot). P p.1 p.2) ps
    → find_pending id ps ≡ some (k, t)
    → P k t
unfolding find_pending
find_pending-All P id [] h e = absurd (ground arith)
find_pending-All P id ((i, j, u) ∷ ps) {k} {t} h e = elim (Bool-cases (i == id)) [
  | inl hit ↦
      subst (λ (p : BufferKey × Snapshot). P p.0 p.1)
        (let same : ◌≡◌ {A = BufferKey × Snapshot} (j, u) (k, t) = ground arith in same) h.0
  | inr miss ↦ find_pending-All P id ps h.1 (ground arith)
]
