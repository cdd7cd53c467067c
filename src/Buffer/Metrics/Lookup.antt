-- ===== src/Buffer/Metrics/Lookup.antt =====
-- The map from keys to rings, by what a lookup finds after each change.
use mathlib.Core.Option
use volta.Prelude.{
  ◌≡◌, refl, true, none, some, [], ◌∷◌, ◌++◌, map, arith, if◌then◌else◌, is_some, All, All-mono, ap,
  Bool-cases, inl, inr, subst,
}
use volta.Buffer.Keys.{BufferKey, key_eq, eq_of_key_eq, key_eq_self}
use volta.Buffer.Series.{Sample, SeriesBuffer, new, push}
use volta.Buffer.Metrics.{SeriesMap, MetricsBuffer, find, update, get_buffer, add_sample}

pub find-update :
    (k j : BufferKey) (f : SeriesBuffer → SeriesBuffer) (s : SeriesMap)
    → find j (update k f s) ≡ (if key_eq k j then Option.map f (find j s) else find j s)
unfolding find update
find-update k j f [] = ground arith
find-update k j f ((i, b) ∷ s) = ground (
  arith,
  eq_of_key_eq i k,
  eq_of_key_eq i j,
  eq_of_key_eq k j,
  key_eq_self i,
  find-update k j f s,
)

pub find-append_one :
    (k j : BufferKey) (b : SeriesBuffer) (s : SeriesMap)
    → find j (s ++ (k, b) ∷ [])
      ≡ (if is_some (find j s) then find j s else if key_eq k j then some b else none)
unfolding find
find-append_one k j b [] = refl
find-append_one k j b ((i, a) ∷ s) = ground (arith, find-append_one k j b s)

find_congr : (k j : BufferKey) (s : SeriesMap) → key_eq k j ≡ true → find k s ≡ find j s
find_congr k j s e = ap (λ i. find i s) (eq_of_key_eq k j e)

-- The ring under a key; one that is not there yet would be made empty.
abbrev pub ring : MetricsBuffer → BufferKey → SeriesBuffer
ring m key = elim (get_buffer m key) [ none ↦ new m.capacity_per_series | some b ↦ b ]

-- `AddSample` pushes to the ring of its key, made if need be, and touches no other ring.
pub get_buffer-add_sample :
    (m : MetricsBuffer) (k j : BufferKey) (x : Sample)
    → get_buffer (add_sample m k x) j
      ≡ (if key_eq k j then some (push (ring m k) x) else get_buffer m j)
unfolding get_buffer add_sample
get_buffer-add_sample m k j x = ground (
  arith,
  find-update k j (λ b. push b x) m.series,
  find-append_one k j (push (new m.capacity_per_series) x) m.series,
  find_congr k j m.series,
)

pub capacity-add_sample :
    (m : MetricsBuffer) (k : BufferKey) (x : Sample)
    → (add_sample m k x).capacity_per_series ≡ m.capacity_per_series
unfolding add_sample
capacity-add_sample m k x = ground arith

-- What holds of every ring holds of one that a lookup finds.
pub find-All {κ} :
    (P : SeriesBuffer → Type κ) (k : BufferKey) (s : SeriesMap) {b : SeriesBuffer}
    → All (λ (p : BufferKey × SeriesBuffer). P p.1) s
    → find k s ≡ some b
    → P b
unfolding find
find-All P k [] h e = absurd (ground arith)
find-All P k ((i, a) ∷ s) {b} h e = elim (Bool-cases (key_eq i k)) [
  | inl hit ↦ subst P (let same : a ≡ b = ground arith in same) h.0
  | inr miss ↦ find-All P k s h.1 (ground arith)
]

pub All-update {κ μ} :
    (P : SeriesBuffer → Type κ) (Q : SeriesBuffer → Type μ) (k : BufferKey)
    (f : SeriesBuffer → SeriesBuffer) (s : SeriesMap)
    → ((b : SeriesBuffer) → find k s ≡ some b → P b → Q (f b))
    → ((b : SeriesBuffer) → P b → Q b)
    → All (λ (p : BufferKey × SeriesBuffer). P p.1) s
    → All (λ (p : BufferKey × SeriesBuffer). Q p.1) (update k f s)
unfolding find update
All-update P Q k f [] g w h = tt
All-update P Q k f ((i, a) ∷ s) g w h = elim (Bool-cases (key_eq i k)) [
  | inl hit ↦ rw hit (
    g a (rw hit) h.0,
    All-mono (λ (p : BufferKey × SeriesBuffer). P p.1) (λ (p : BufferKey × SeriesBuffer). Q p.1)
        (λ p. w p.1) s h.1,
  )
  | inr miss ↦ rw miss (w a h.0, All-update P Q k f s (λ b e. g b (rw miss e)) w h.1)
]

pub keys-update :
    (k : BufferKey) (f : SeriesBuffer → SeriesBuffer) (s : SeriesMap)
    → map (λ (p : BufferKey × SeriesBuffer). p.0) (update k f s)
      ≡ map (λ (p : BufferKey × SeriesBuffer). p.0) s
unfolding update
keys-update k f [] = refl
keys-update k f ((i, a) ∷ s) = ground (arith, keys-update k f s)
