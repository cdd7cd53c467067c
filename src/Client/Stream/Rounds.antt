-- ===== src/Client/Stream/Rounds.antt =====
-- A round of the poll thread keeps the stream sound, and so does the end of a write.
use volta.Prelude.{
  ℕ, ◌+◌, ◌<◌, ◌^◌, ◌≡◌, refl, ◌∙◌, Bool-cases, Bool, true, Option, none, some, List, [], ◌∷◌,
  arith, is_some, is_empty, All, All-mono, length, inl, inr, Option-cases,
}
use volta.Buffer.Series.{SeriesBuffer, snapshot_of}
use volta.Buffer.Series.Bounds.{get_snapshot-IsValid}
use volta.Buffer.Keys.{BufferKey, key_eq_self}
use volta.Buffer.Metrics.{MetricsBuffer, get_buffer, get_all_keys}
use volta.Buffer.Metrics.Valid.{IsConsistent, has_key, get_buffer-get_all_keys, get_buffer-Fits}
use volta.Client.Stream.{
  MetricBatch, Reactor, enqueue_snapshot, enqueue_keys, enqueue_metrics, write, after_enqueue, poll,
  on_write_done,
}
use volta.Client.Stream.Valid.{
  IsSound, enqueue_snapshot-IsSound, buffer-enqueue_snapshot, counter-enqueue_snapshot,
}

abbrev Enqueued : ℕ → Reactor → Option Reactor → Type 0
Enqueued room r o = (r' : Reactor) × (o ≡ some r') × IsSound room r' × (r'.buffer ≡ r.buffer)

pub enqueue_keys-cons :
    {room : ℕ} {r : Reactor} (key : BufferKey) (keys : List BufferKey) {b : SeriesBuffer}
    → IsSound room r
    → get_buffer r.buffer key ≡ some b
    → enqueue_keys r (key ∷ keys) ≡ enqueue_keys (enqueue_snapshot r key (snapshot_of b)) keys
unfolding enqueue_keys
enqueue_keys-cons {r = r} key keys v e =
    ground (arith, e, get_snapshot-IsValid (get_buffer-Fits key v.buffer e).valid)

enqueue_keys-IsSound :
    (room : ℕ) (keys : List BufferKey) (r : Reactor)
    → IsSound room r
    → All (λ k. is_some (get_buffer r.buffer k) ≡ true) keys
    → r.batch_id_counter + length keys < 2 ^ 64
    → Enqueued room r (enqueue_keys r keys)
unfolding enqueue_keys
enqueue_keys-IsSound room [] r v known h = (r, refl, v, refl)
enqueue_keys-IsSound room (key ∷ keys) r v known h = elim (Option-cases (get_buffer r.buffer key)) [
  | inl e ↦ absurd (ground arith)
  | inr (b, e) ↦
      let r1 : Reactor = enqueue_snapshot r key (snapshot_of b) in
      let same : r1.buffer ≡ r.buffer = buffer-enqueue_snapshot r key (snapshot_of b) in
      let (r', done, v', kept) =
        enqueue_keys-IsSound room keys r1 (enqueue_snapshot-IsSound key v e (omega arith))
          (rw same known.1)
          (omega (arith, counter-enqueue_snapshot r key (snapshot_of b) (omega arith))) in
      (r', enqueue_keys-cons key keys v e ∙ done, v', kept ∙ same)
]

has_key_all : (keys : List BufferKey) → All (λ k. has_key keys k ≡ true) keys
has_key_all [] = tt
has_key_all (k ∷ keys) = (
  ground (arith, key_eq_self k),
  All-mono (λ j. has_key keys j ≡ true) (λ j. has_key (k ∷ keys) j ≡ true) (λ j h. ground arith)
      keys (has_key_all keys),
)

pub known_keys :
    {room : ℕ} {m : MetricsBuffer}
    → IsConsistent room m
    → All (λ k. is_some (get_buffer m k) ≡ true) (get_all_keys m)
known_keys {room} {m} v =
    All-mono (λ k. has_key (get_all_keys m) k ≡ true) (λ k. is_some (get_buffer m k) ≡ true)
      (λ k e. get_buffer-get_all_keys k v ∙ e) (get_all_keys m) (has_key_all (get_all_keys m))

-- `EnqueueMetrics()` finds a ring for each of its keys, keeps the invariant, and leaves the rings.
pub enqueue_metrics-IsSound :
    {room : ℕ} {r : Reactor}
    → IsSound room r
    → r.batch_id_counter + length (get_all_keys r.buffer) < 2 ^ 64
    → Enqueued room r (enqueue_metrics r)
unfolding enqueue_metrics
enqueue_metrics-IsSound {room} {r} v h =
    enqueue_keys-IsSound room (get_all_keys r.buffer) r v (known_keys v.buffer) h

write-IsSound : {room : ℕ} {r : Reactor} → IsSound room r → IsSound room (write r).0
unfolding write
write-IsSound v = record {
  buffer = v.buffer;
  snapped = v.snapped;
  fresh = v.fresh;
  distinct = v.distinct;
  counted = v.counted;
}

-- `OnWriteDone` keeps the invariant.
pub on_write_done-IsSound :
    {room : ℕ} {r : Reactor} (ok : Bool) → IsSound room r → IsSound room (on_write_done r ok).0
unfolding on_write_done
on_write_done-IsSound ok v = record {
  buffer = v.buffer;
  snapped = v.snapped;
  fresh = v.fresh;
  distinct = v.distinct;
  counted = v.counted;
}

after_enqueue-IsSound : {room : ℕ} {r : Reactor} → IsSound room r → IsSound room (after_enqueue r).0
unfolding after_enqueue
after_enqueue-IsSound {r = r} v = elim (Bool-cases (is_empty r.pending_snapshots)) [
  | inl e ↦ rw e v
  | inr e ↦ rw e (write-IsSound v)
]

-- A round of the poll thread of a sound stream never calls through a null ring, and keeps the stream
-- sound, if the batch ids do not wrap.
pub poll-IsSound :
    {room : ℕ} {r : Reactor}
    → IsSound room r
    → r.batch_id_counter + length (get_all_keys r.buffer) < 2 ^ 64
    → (r' : Reactor) × (started : Option MetricBatch) × (poll r ≡ some (r', started))
      × IsSound room r'
unfolding poll
poll-IsSound {room} {r} v h = elim (Bool-cases (is_empty r.pending_snapshots)) [
  | inl none_pending ↦
      let (r1, done, v1, _) = enqueue_metrics-IsSound v h in
      ((after_enqueue r1).0, (after_enqueue r1).1, ground (arith, done), after_enqueue-IsSound v1)
  | inr waiting ↦ (r, none, rw waiting, v)
]
