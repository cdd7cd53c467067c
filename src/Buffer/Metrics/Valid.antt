-- ===== src/Buffer/Metrics/Valid.antt =====
-- The invariant of `MetricsBuffer`: the key list is that of the map, no key stands twice, and every
-- ring is valid, has the map's capacity, and can still take `room` samples without wrapping.

use volta.Prelude.{
  ℕ, suc, ◌+◌, ◌-◌, ◌/◌, ◌<◌, ◌^◌, ◌≡◌, refl, ap, sym, ◌∙◌, Bool, false, ◌||◌, some, List, [], ◌∷◌,
  ◌++◌, map, arith, is_some, All, All-append, All-mono, length, subst, Bool-cases, inl, inr, ◌==◌,
}
use volta.Metric.{Metric, unspecified}
use volta.Buffer.Keys.{BufferKey, key_eq, make_buffer_key, key_eq_sym}
use volta.Buffer.Series.{Sample, SeriesBuffer, new, push}
use volta.Buffer.Series.Bounds.{IsValid, new-IsValid, push-IsValid, capacity-push, head-push-le_suc}
use volta.Buffer.Metrics.{
  SeriesMap, MetricsBuffer, find, update, get_buffer, add_sample, add_metric, add_metrics,
  sample_of, create, get_all_keys,
}
use volta.Buffer.Metrics.Lookup.{find-update, find-append_one, All-update, find-All, keys-update}

abbrev pub keys_of : SeriesMap → List BufferKey
keys_of = map λ (p : BufferKey × SeriesBuffer). p.0

abbrev pub has_key : List BufferKey → BufferKey → Bool
has_key [] key = false
has_key (k ∷ ks) key = key_eq k key || has_key ks key

abbrev pub Distinct : SeriesMap → Type 0
Distinct [] = Unit
Distinct ((k, b) ∷ s) = (is_some (find k s) ≡ false) × Distinct s

-- A ring of capacity `c` that can take `room` more samples.
pub record Fits (c room : ℕ) (b : SeriesBuffer) : Type 0 where
  pub valid : IsValid b
  pub sized : b.capacity ≡ c
  pub headroom : b.head + room < 2 ^ 64

pub record IsConsistent (room : ℕ) (m : MetricsBuffer) : Type 0 where
  pub listed : m.keys ≡ keys_of m.series
  pub distinct : Distinct m.series
  pub rings : All (λ (p : BufferKey × SeriesBuffer). Fits m.capacity_per_series room p.1) m.series
  pub small : room < 2 ^ 64

pub new-Fits : (c room : ℕ) → room < 2 ^ 64 → Fits c room (new c)
unfolding new
new-Fits c room h = record { valid = new-IsValid c; sized = refl; headroom = omega arith }

push-Fits :
    {c room : ℕ} {b : SeriesBuffer} (x : Sample) → Fits c (suc room) b → Fits c room (push b x)
push-Fits {c} {room} {b} x f = record {
  valid = push-IsValid x f.valid (omega arith);
  sized = capacity-push b x ∙ f.sized;
  headroom = omega (arith, head-push-le_suc b x (omega arith));
}

found-update :
    (k j : BufferKey) (f : SeriesBuffer → SeriesBuffer) (s : SeriesMap)
    → is_some (find j (update k f s)) ≡ is_some (find j s)
found-update k j f s = ground (arith, find-update k j f s)

pub Distinct-update :
    (k : BufferKey) (f : SeriesBuffer → SeriesBuffer) (s : SeriesMap)
    → Distinct s
    → Distinct (update k f s)
unfolding update
Distinct-update k f [] h = tt
Distinct-update k f ((i, a) ∷ s) h = ground (arith, Distinct-update k f s h.1, found-update k i f s)

Distinct-append_one :
    (k : BufferKey) (b : SeriesBuffer) (s : SeriesMap)
    → is_some (find k s) ≡ false
    → Distinct s
    → Distinct (s ++ (k, b) ∷ [])
unfolding find
Distinct-append_one k b [] e h = (refl, tt)
Distinct-append_one k b ((i, a) ∷ s) e h = (
  ground (arith, find-append_one k i b s, key_eq_sym i k),
  Distinct-append_one k b s (ground arith) h.1,
)

keys_of-append_one :
    (k : BufferKey) (b : SeriesBuffer) (s : SeriesMap)
    → keys_of (s ++ (k, b) ∷ []) ≡ keys_of s ++ k ∷ []
keys_of-append_one k b [] = refl
keys_of-append_one k b ((i, a) ∷ s) =
    ap (λ (ks : List BufferKey). i ∷ ks) (keys_of-append_one k b s)

weaken : {c room : ℕ} (b : SeriesBuffer) → Fits c (suc room) b → Fits c room b
weaken b f = record { valid = f.valid; sized = f.sized; headroom = omega arith }

weaken_all :
    (c room : ℕ) (s : SeriesMap)
    → All (λ (p : BufferKey × SeriesBuffer). Fits c (suc room) p.1) s
    → All (λ (p : BufferKey × SeriesBuffer). Fits c room p.1) s
weaken_all c room s =
    All-mono (λ (p : BufferKey × SeriesBuffer). Fits c (suc room) p.1)
      (λ (p : BufferKey × SeriesBuffer). Fits c room p.1) (λ p f. weaken p.1 f) s

add_sample-IsConsistent :
    {room : ℕ} {m : MetricsBuffer} (k : BufferKey) (x : Sample)
    → IsConsistent (suc room) m
    → IsConsistent room (add_sample m k x)
unfolding add_sample
add_sample-IsConsistent {room} {m} k x v = elim (Bool-cases (is_some (find k m.series))) [
  | inl old ↦ rw old (record {
    listed = v.listed ∙ sym (keys-update k (λ b. push b x) m.series);
    distinct = Distinct-update k (λ b. push b x) m.series v.distinct;
    rings =
        All-update (Fits m.capacity_per_series (suc room)) (Fits m.capacity_per_series room) k
          (λ b. push b x) m.series (λ b _ f. push-Fits x f) weaken v.rings;
    small = omega arith;
  })
  | inr fresh ↦ rw fresh (record {
    listed =
        ap (λ ks. ks ++ k ∷ []) v.listed
        ∙ sym (keys_of-append_one k (push (new m.capacity_per_series) x) m.series);
    distinct = Distinct-append_one k (push (new m.capacity_per_series) x) m.series fresh v.distinct;
    rings =
        All-append (λ (p : BufferKey × SeriesBuffer). Fits m.capacity_per_series room p.1) m.series
          ((k, push (new m.capacity_per_series) x) ∷ [])
          (weaken_all m.capacity_per_series room m.series v.rings)
          (push-Fits x (new-Fits m.capacity_per_series (suc room) (omega arith)), tt);
    small = omega arith;
  })
]

add_metric-IsConsistent :
    {room : ℕ} {m : MetricsBuffer} (metric : Metric)
    → IsConsistent (suc room) m
    → IsConsistent room (add_metric m metric)
unfolding add_metric
add_metric-IsConsistent {room} {m} metric v = elim (Bool-cases (metric.type == unspecified)) [
  | inl skipped ↦ rw skipped (record {
    listed = v.listed;
    distinct = v.distinct;
    rings = weaken_all m.capacity_per_series room m.series v.rings;
    small = omega arith;
  })
  | inr taken ↦ rw taken (add_sample-IsConsistent (make_buffer_key metric) (sample_of metric) v)
]

-- `AddMetrics` keeps the map consistent; each metric uses up at most one sample's room.
pub add_metrics-IsConsistent :
    (ms : List Metric) {room : ℕ} {m : MetricsBuffer}
    → IsConsistent (length ms + room) m
    → IsConsistent room (add_metrics m ms)
unfolding add_metrics
add_metrics-IsConsistent [] {room} {m} v =
    subst (λ n. IsConsistent n m) (let e : 0 + room ≡ room = omega arith in e) v
add_metrics-IsConsistent (x ∷ ms) {room} {m} v = add_metrics-IsConsistent ms (
    add_metric-IsConsistent x (
      subst (λ n. IsConsistent n m)
        (let e : suc (length ms) + room ≡ suc (length ms + room) = omega arith in e) v))

-- A buffer built from a configuration is consistent, with room for 2^64 - 1 samples.
pub create-IsConsistent :
    (window interval : ℕ) {m : MetricsBuffer}
    → create window interval ≡ some m
    → IsConsistent (2 ^ 64 - 1) m
unfolding create
create-IsConsistent window interval {m} e = elim (Bool-cases (interval == 0)) [
  | inl zero_interval ↦ ground arith
  | inr positive ↦
      subst (IsConsistent (2 ^ 64 - 1))
        (let q : record { capacity_per_series = window / interval; series = []; keys = [] } ≡ m =
            ground arith in
          q)
        (record { listed = refl; distinct = tt; rings = tt; small = omega arith })
]

pub found-keys_of : (k : BufferKey) (s : SeriesMap) → is_some (find k s) ≡ has_key (keys_of s) k
unfolding find
found-keys_of k [] = refl
found-keys_of k ((i, a) ∷ s) = ground (arith, found-keys_of k s)

-- `GetAllKeys` of a consistent map lists exactly the keys for which `GetBuffer` is not null.
pub get_buffer-get_all_keys :
    {room : ℕ} {m : MetricsBuffer} (key : BufferKey)
    → IsConsistent room m
    → is_some (get_buffer m key) ≡ has_key (get_all_keys m) key
unfolding get_buffer get_all_keys
get_buffer-get_all_keys {m = m} key v =
    found-keys_of key m.series ∙ ap (λ ks. has_key ks key) (sym v.listed)

-- A ring that is found is valid.
pub get_buffer-Fits :
    {room : ℕ} {m : MetricsBuffer} (key : BufferKey) {b : SeriesBuffer}
    → IsConsistent room m
    → get_buffer m key ≡ some b
    → Fits m.capacity_per_series room b
unfolding get_buffer
get_buffer-Fits {room} {m} key v e =
    find-All (Fits m.capacity_per_series room) key m.series v.rings e
