-- ===== src/Buffer/Series/Unsent.antt =====
-- What a series buffer promises its reader: a bounded queue of the samples not yet acknowledged.
use native.Mathlib.Decide.{dec_lt}
use volta.Prelude.{
  ℕ, suc, ◌+◌, ◌-◌, ◌%◌, ◌≤◌, ◌<◌, ◌^◌, ◌≡◌, sym, ap, ◌∙◌, some, List, [], ◌∷◌, ◌++◌, arith,
  append-nil, append_assoc, length, set, drop, keep_last, length-append, length-drop,
  get_or-set_self, drop-append, drop-drop, keep_last-append, keep_last_all,
}
use volta.Buffer.Series.{
  Sample, SeriesBuffer, Snapshot, zero_sample, copy_from, push, push_all, latest, snapshot_of,
  ack_snapshot,
}
use volta.Buffer.Series.Window.{length-copy_from, copy_from-set, drop-copy_from}
use volta.Buffer.Series.Bounds.{
  IsValid, end-snapshot_of, push-IsValid, push_all-IsValid, capacity-push, head-push, in_bounds,
}

-- The unsent samples, oldest first.
abbrev pub unsent : SeriesBuffer → List Sample
unsent s = (snapshot_of s).samples

pub length-unsent : (s : SeriesBuffer) → length (unsent s) ≡ s.head - s.tail
unfolding snapshot_of
length-unsent s = length-copy_from s.samples s.capacity s.tail (s.head - s.tail)

-- A push into a window with room left, and one into a full window.
module _ (samples : List Sample) (c t : ℕ) (x : Sample) (fits : length samples ≡ c) where
  push_with_room :
      (n j : ℕ)
      → n < c
      → j ≡ (t + n) % c
      → copy_from (set samples j x) c t (suc n) ≡ keep_last c (copy_from samples c t n ++ x ∷ [])
  push_with_room n j h e =
      copy_from-set samples c t n j x fits h e
      ∙ sym (
          keep_last_all c (copy_from samples c t n ++ x ∷ []) (
            omega (
              arith,
              length-append (copy_from samples c t n) (x ∷ []),
              length-copy_from samples c t n,
            )))

  push_when_full :
      (m j : ℕ)
      → suc m ≡ c
      → j ≡ (t + suc m) % c
      → copy_from (set samples j x) c (t + 1) (suc m)
        ≡ keep_last c (copy_from samples c t (suc m) ++ x ∷ [])
  push_when_full m j h e =
      copy_from-set samples c (t + 1) m j x fits (omega arith) (e ∙ ap (λ k. k % c) shift)
      ∙ sym (ap (λ k. drop k (copy_from samples c t (suc m) ++ x ∷ [])) one_over)
    where
      shift : t + suc m ≡ t + 1 + m
      shift = omega arith

      one_over : length (copy_from samples c t (suc m) ++ x ∷ []) - c ≡ 1
      one_over = omega (
        arith,
        length-append (copy_from samples c t (suc m)) (x ∷ []),
        length-copy_from samples c t (suc m),
      )

-- `Push` appends the sample and keeps the newest `capacity` unsent samples.
push_refines :
    {s : SeriesBuffer} (x : Sample)
    → IsValid s
    → 0 < s.capacity
    → s.head + 1 < 2 ^ 64
    → unsent (push s x) ≡ keep_last s.capacity (unsent s ++ x ∷ [])
unfolding push snapshot_of
push_refines {s} x v h k = elim (dec_lt (s.head - s.tail) s.capacity) [
  | yes room ↦ ground (
    arith,
    push_with_room s.samples s.capacity s.tail x v.storage (s.head - s.tail) (s.head % s.capacity)
        room,
  )
  | no full ↦ ground (
    arith,
    push_when_full s.samples s.capacity s.tail x v.storage (s.capacity - 1) (s.head % s.capacity),
  )
]

-- Any number of pushes leaves the newest `capacity` of the samples that were unsent or pushed. The
-- ring is valid, its capacity is not 0, and its counters do not wrap.
pub push_all_refines :
    (xs : List Sample) {s : SeriesBuffer}
    → IsValid s
    → 0 < s.capacity
    → s.head + length xs < 2 ^ 64
    → unsent (push_all s xs) ≡ keep_last s.capacity (unsent s ++ xs)
unfolding push_all
push_all_refines [] {s} v h w = sym (
    ap (keep_last s.capacity) (append-nil (unsent s))
    ∙ keep_last_all s.capacity (unsent s) (omega (arith, length-unsent s)))
push_all_refines (x ∷ xs) {s} v h w =
    push_all_refines xs (push-IsValid x v (omega arith)) (omega (arith, capacity-push s x))
      (omega (arith, head-push s x h (omega arith)))
    ∙ ap (λ c. keep_last c (unsent (push s x) ++ xs)) (capacity-push s x)
    ∙ ap (λ u. keep_last s.capacity (u ++ xs)) (push_refines x v h (omega arith))
    ∙ keep_last-append s.capacity (unsent s ++ x ∷ []) xs
    ∙ ap (keep_last s.capacity) (append_assoc (unsent s) (x ∷ []) xs)

pub head-push_all :
    (xs : List Sample) (s : SeriesBuffer)
    → 0 < s.capacity
    → s.head + length xs < 2 ^ 64
    → (push_all s xs).head ≡ s.head + length xs
unfolding push_all
head-push_all [] s h w = omega arith
head-push_all (x ∷ xs) s h w = omega (
  arith,
  head-push s x h (omega arith),
  head-push_all xs (push s x) (omega (arith, capacity-push s x))
      (omega (arith, head-push s x h (omega arith))),
)

-- An acknowledgement drops from the unsent samples those that the snapshot reaches.
pub unsent-ack_snapshot :
    {s : SeriesBuffer} (t : Snapshot)
    → IsValid s
    → t.end ≤ s.head
    → unsent (ack_snapshot s t) ≡ drop (t.end - s.tail) (unsent s)
unfolding ack_snapshot snapshot_of
unsent-ack_snapshot {s} t v h =
    ground (arith, drop-copy_from s.samples s.capacity s.tail (s.head - s.tail) (t.end - s.tail))

-- A snapshot is taken, the producer pushes `xs`, and the snapshot is acknowledged: what is then
-- unsent are the newest `capacity` samples of `xs`, so no sample of the snapshot is unsent, and no
-- sample of `xs` is lost but to the ring's own bound. The ring is valid, its capacity is not 0, and
-- its counters do not wrap.
pub ack_delivers :
    (xs : List Sample) {s : SeriesBuffer}
    → IsValid s
    → 0 < s.capacity
    → s.head + length xs < 2 ^ 64
    → unsent (ack_snapshot (push_all s xs) (snapshot_of s)) ≡ keep_last s.capacity xs
ack_delivers xs {s} v h w =
    unsent-ack_snapshot (snapshot_of s) (push_all-IsValid xs v w)
      (omega (arith, head-push_all xs s h w, end-snapshot_of s))
    ∙ ap (λ k. drop (k - tail') (unsent (push_all s xs))) (end-snapshot_of s)
    ∙ ap (drop (s.head - tail')) kept
    ∙ drop-drop (s.head - tail') (length both - s.capacity) both
    ∙ drop-append (s.head - tail' + (length both - s.capacity)) (unsent s) xs
        (omega (arith, total, left, ordered, length-unsent s))
    ∙ ap (λ k. drop k xs) (omega (arith, total, left, ordered, length-unsent s))
  where
    both : List Sample
    both = unsent s ++ xs

    tail' : ℕ
    tail' = (push_all s xs).tail

    kept : unsent (push_all s xs) ≡ keep_last s.capacity both
    kept = push_all_refines xs v h w

    total : length both ≡ s.head - s.tail + length xs
    total = length-append (unsent s) xs ∙ ap (λ k. k + length xs) (length-unsent s)

    ordered : tail' ≤ s.head + length xs
    ordered = omega (arith, (push_all-IsValid xs v w).ordered, head-push_all xs s h w)

    left : s.head + length xs - tail' ≡ length both - (length both - s.capacity)
    left =
        ap (λ k. k - tail') (sym (head-push_all xs s h w))
        ∙ sym (length-unsent (push_all s xs))
        ∙ ap length kept
        ∙ length-drop (length both - s.capacity) both

-- `Latest` is the sample that was pushed last.
latest-push :
    {s : SeriesBuffer} (x : Sample)
    → IsValid s
    → 0 < s.capacity
    → s.head + 1 < 2 ^ 64
    → latest (push s x) ≡ some x
unfolding latest push
latest-push {s} x v h w =
    ground (arith, get_or-set_self s.samples (s.head % s.capacity) x zero_sample, in_bounds v h)
