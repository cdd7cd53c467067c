-- ===== src/Buffer/Series/Bounds.antt =====
-- The representation invariant of `SeriesBuffer`: no index out of range, no counter that wraps.
use volta.Prelude.{
  refl, ℕ, ◌+◌, ◌-◌, ◌%◌, ◌≤◌, ◌<◌, ◌^◌, ◌≡◌, some, List, [], ◌∷◌, arith, length, length-set,
  length-replicate,
}
use volta.Buffer.Series.{
  Sample, SeriesBuffer, Snapshot, zero_sample, new, push, push_all, ack_snapshot, get_snapshot,
  snapshot_of, get_next_snapshot_size,
}

pub record IsValid (s : SeriesBuffer) : Type 0 where
  pub storage : length s.samples ≡ s.capacity
  pub ordered : s.tail ≤ s.head
  pub bounded : s.head - s.tail ≤ s.capacity
  pub small : s.head < 2 ^ 64

-- A new series buffer is valid.
pub new-IsValid : (capacity : ℕ) → IsValid (new capacity)
unfolding new
new-IsValid capacity = omega (arith, length-replicate capacity zero_sample)

-- `Push` keeps the invariant while `head_` has not come to its last value.
pub push-IsValid :
    {s : SeriesBuffer} (x : Sample) → IsValid s → s.head + 1 < 2 ^ 64 → IsValid (push s x)
unfolding push
push-IsValid {s} x v h = ground (arith, length-set s.samples (s.head % s.capacity) x)

-- The index that `Push` writes lies in the storage.
pub in_bounds :
    {s : SeriesBuffer} → IsValid s → 0 < s.capacity → s.head % s.capacity < length s.samples
in_bounds v h = omega arith

-- `AckSnapshot` keeps the invariant, for a snapshot that ends no later than the pushes.
pub ack_snapshot-IsValid :
    {s : SeriesBuffer} (t : Snapshot) → IsValid s → t.end ≤ s.head → IsValid (ack_snapshot s t)
unfolding ack_snapshot
ack_snapshot-IsValid t v h = ground arith

pub capacity-push : (s : SeriesBuffer) (x : Sample) → (push s x).capacity ≡ s.capacity
unfolding push
capacity-push s x = ground arith

pub head-push :
    (s : SeriesBuffer) (x : Sample)
    → 0 < s.capacity
    → s.head + 1 < 2 ^ 64
    → (push s x).head ≡ s.head + 1
unfolding push
head-push s x h k = ground arith

head-push-le : (s : SeriesBuffer) (x : Sample) → s.head + 1 < 2 ^ 64 → s.head ≤ (push s x).head
unfolding push
head-push-le s x k = ground arith

pub head-push-le_suc :
    (s : SeriesBuffer) (x : Sample) → s.head + 1 < 2 ^ 64 → (push s x).head ≤ s.head + 1
unfolding push
head-push-le_suc s x k = ground arith

-- `GetNextSnapshotSize` is the number of samples that `GetSnapshot` would copy.
get_next_snapshot_size-eq :
    {s : SeriesBuffer} → IsValid s → get_next_snapshot_size s ≡ s.head - s.tail
unfolding get_next_snapshot_size
get_next_snapshot_size-eq v = omega arith

pub push_all-IsValid :
    (xs : List Sample) {s : SeriesBuffer}
    → IsValid s
    → s.head + length xs < 2 ^ 64
    → IsValid (push_all s xs)
unfolding push_all
push_all-IsValid [] v h = v
push_all-IsValid (x ∷ xs) {s} v h =
    push_all-IsValid xs (push-IsValid x v (omega arith))
      (omega (arith, head-push-le_suc s x (omega arith)))

pub capacity-ack_snapshot :
    (s : SeriesBuffer) (t : Snapshot) → (ack_snapshot s t).capacity ≡ s.capacity
unfolding ack_snapshot
capacity-ack_snapshot s t = ground arith

pub head-ack_snapshot : (s : SeriesBuffer) (t : Snapshot) → (ack_snapshot s t).head ≡ s.head
unfolding ack_snapshot
head-ack_snapshot s t = ground arith

pub head-push_all-le :
    (xs : List Sample) (s : SeriesBuffer)
    → s.head + length xs < 2 ^ 64
    → s.head ≤ (push_all s xs).head
unfolding push_all
head-push_all-le [] s h = omega arith
head-push_all-le (x ∷ xs) s h = omega (
  arith,
  head-push-le s x (omega arith),
  head-push_all-le xs (push s x) (omega (arith, head-push-le_suc s x (omega arith))),
)

-- No exception comes of a valid ring.
pub get_snapshot-IsValid : {s : SeriesBuffer} → IsValid s → get_snapshot s ≡ some (snapshot_of s)
unfolding get_snapshot
get_snapshot-IsValid v = ground arith

pub end-snapshot_of : (s : SeriesBuffer) → (snapshot_of s).end ≡ s.head
unfolding snapshot_of
end-snapshot_of s = refl
