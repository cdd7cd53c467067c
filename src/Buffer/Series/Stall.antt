-- ===== src/Buffer/Series/Stall.antt =====
-- What `SetCapacity` does to a series whose samples were acknowledged: `tail_` is not reset.
use volta.Prelude.{ℕ, ◌+◌, ◌≤◌, ◌<◌, ◌^◌, ◌≡◌, none, List, [], ◌∷◌, arith, length}
use volta.Buffer.Series.{SeriesBuffer, Sample, set_capacity, push, push_all, get_snapshot}

-- `tail_` runs ahead of `head_` by the same distance for ever.
record IsStalled (distance : ℕ) (s : SeriesBuffer) : Type 0 where
  ahead : s.tail ≡ s.head + distance
  room : s.capacity ≤ 2 ^ 63
  positive : 0 < s.capacity
  apart : 0 < distance
  near : distance ≤ 2 ^ 63

push-IsStalled :
    {d : ℕ} {s : SeriesBuffer} (x : Sample)
    → IsStalled d s
    → s.tail + 1 < 2 ^ 64
    → IsStalled d (push s x) × ((push s x).tail ≡ s.tail + 1)
unfolding push
push-IsStalled x v h = ground arith

push_all-IsStalled :
    (xs : List Sample) {d : ℕ} {s : SeriesBuffer}
    → IsStalled d s
    → s.tail + length xs < 2 ^ 64
    → IsStalled d (push_all s xs) × ((push_all s xs).tail ≡ s.tail + length xs)
unfolding push_all
push_all-IsStalled [] v h = (v, omega arith)
push_all-IsStalled (x ∷ xs) v h =
    let (v', e) = push-IsStalled x v (omega arith) in
    let (w, f) = push_all-IsStalled xs v' (omega arith) in (w, omega arith)

get_snapshot-IsStalled :
    {d : ℕ} {s : SeriesBuffer} → IsStalled d s → s.tail < 2 ^ 64 → get_snapshot s ≡ none
unfolding get_snapshot
get_snapshot-IsStalled v h = ground arith

-- After `SetCapacity` on a series buffer with `tail_` above 0, every `GetSnapshot` throws, however many
-- samples are pushed, as long as the counters do not wrap. `tail_` and the new capacity are at most
-- 2^63, and the capacity is not 0.
pub set_capacity_stalls :
    (s : SeriesBuffer) (capacity : ℕ) (xs : List Sample)
    → 0 < s.tail
    → s.tail ≤ 2 ^ 63
    → 0 < capacity
    → capacity ≤ 2 ^ 63
    → s.tail + length xs < 2 ^ 64
    → get_snapshot (push_all (set_capacity s capacity) xs) ≡ none
unfolding set_capacity
set_capacity_stalls s capacity xs h n p r w =
    let (v, tail) =
      push_all-IsStalled xs {d = s.tail} {s = set_capacity s capacity}
        (record { ahead = omega arith; room = r; positive = p; apart = h; near = n }) w in
    get_snapshot-IsStalled v (omega (arith, tail))
