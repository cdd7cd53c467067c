-- ===== src/Client/Stream/Valid.antt =====
-- The invariant of the metric stream under all interleavings with the scheduler and the server.
use volta.Prelude.{
  ℕ, ◌+◌, ◌≤◌, ◌<◌, ◌^◌, ◌≡◌, sym, subst, Bool-cases, add64, some, List, [], ◌∷◌, ◌++◌, arith,
  is_empty, All, All-append, All-mono, length, inl, inr, List-cases,
}
use volta.Metric.{Metric}
use volta.Buffer.Series.{SeriesBuffer, Snapshot, push_all, snapshot_of}
use volta.Buffer.Series.Bounds.{head-push_all-le, end-snapshot_of}
use volta.Buffer.Keys.{BufferKey}
use volta.Buffer.Metrics.{MetricsBuffer, get_buffer, add_metrics}
use volta.Buffer.Metrics.Series.{samples_for, samples_for-le, get_buffer-add_metrics}
use volta.Buffer.Metrics.Valid.{IsConsistent, add_metrics-IsConsistent, get_buffer-Fits}
use volta.Client.Writer
use volta.Client.Stream.Pending.{
  DistinctIds, find_pending-above, emplace_pending-new, DistinctIds-append_one,
}
use volta.Client.Stream.{Pending, Reactor, emplace_pending, enqueue_snapshot, make_batch}

-- A pending snapshot is of a ring that exists, and ends no later than that ring's pushes.
abbrev pub Snapped : MetricsBuffer → ℕ × BufferKey × Snapshot → Type 0
Snapped m p = (b : SeriesBuffer) × (get_buffer m p.1 ≡ some b) × (p.2.end ≤ b.head)

pub record IsSound (room : ℕ) (r : Reactor) : Type 0 where
  pub buffer : IsConsistent room r.buffer
  pub snapped : All (Snapped r.buffer) r.pending_snapshots
  pub fresh : All (λ (p : ℕ × BufferKey × Snapshot). p.0 < r.batch_id_counter) r.pending_snapshots
  pub distinct : DistinctIds r.pending_snapshots
  pub counted : r.batch_id_counter < 2 ^ 64

-- New samples leave every ring in place, and its pushes only grow.
Snapped-add_metrics :
    (room : ℕ) (ms : List Metric) {m : MetricsBuffer} (p : ℕ × BufferKey × Snapshot)
    → IsConsistent (length ms + room) m
    → Snapped m p
    → Snapped (add_metrics m ms) p
Snapped-add_metrics room ms {m} p v (b, found, h) = elim (List-cases (samples_for p.1 ms)) [
  | inl e ↦ (b, ground (arith, get_buffer-add_metrics ms m p.1), h)
  | inr (x, xs, e) ↦ (
    push_all b (samples_for p.1 ms),
    ground (arith, get_buffer-add_metrics ms m p.1),
    omega (
      arith,
      head-push_all-le (samples_for p.1 ms) b
          (omega (arith, (get_buffer-Fits p.1 v found).headroom, samples_for-le p.1 ms)),
    ),
  )
]

-- The scheduler's `AddMetrics` keeps the invariant; each metric uses up one sample's room.
pub add_metrics-IsSound :
    (ms : List Metric) {room : ℕ} {r : Reactor}
    → IsSound (length ms + room) r
    → IsSound room (record r { buffer = add_metrics r.buffer ms })
add_metrics-IsSound ms {room} {r} v = record {
  buffer = add_metrics-IsConsistent ms v.buffer;
  snapped =
      All-mono (Snapped r.buffer) (Snapped (add_metrics r.buffer ms))
        (λ p h. Snapped-add_metrics room ms p v.buffer h) r.pending_snapshots v.snapped;
  fresh = v.fresh;
  distinct = v.distinct;
  counted = v.counted;
}

-- Noting a snapshot of a ring as pending, and queueing its batch, keeps the invariant.
pub enqueue_snapshot-IsSound :
    {room : ℕ} {r : Reactor} (key : BufferKey) {b : SeriesBuffer}
    → IsSound room r
    → get_buffer r.buffer key ≡ some b
    → r.batch_id_counter + 1 < 2 ^ 64
    → IsSound room (enqueue_snapshot r key (snapshot_of b))
unfolding enqueue_snapshot
enqueue_snapshot-IsSound {room} {r} key {b} v found h =
    elim (Bool-cases (is_empty (snapshot_of b).samples)) [
      | inl nothing ↦ rw nothing v
      | inr unsent ↦ rw unsent (
          subst grown appended (record {
            buffer = v.buffer;
            snapped =
                All-append (Snapped r.buffer) r.pending_snapshots (entry ∷ []) v.snapped
                  ((b, found, omega (arith, end-snapshot_of b)), tt);
            fresh =
                All-append below r.pending_snapshots (entry ∷ [])
                  (All-mono (λ (p : ℕ × BufferKey × Snapshot). p.0 < id) below (λ p q. omega arith)
                    r.pending_snapshots v.fresh)
                  (omega arith, tt);
            distinct =
                DistinctIds-append_one id key (snapshot_of b) r.pending_snapshots v.fresh
                  v.distinct;
            counted = omega arith;
          }))
    ]
  where
    id : ℕ
    id = r.batch_id_counter

    entry : ℕ × BufferKey × Snapshot
    entry = (id, key, snapshot_of b)

    below : ℕ × BufferKey × Snapshot → Type 0
    below p = p.0 < add64 id 1

    grown : Pending → Type 0
    grown ps = IsSound room (record r {
      pending_snapshots = ps;
      writer = Writer.push r.writer (make_batch id key (snapshot_of b));
      batch_id_counter = add64 id 1;
    })

    appended :
        r.pending_snapshots ++ entry ∷ []
        ≡ emplace_pending id key (snapshot_of b) r.pending_snapshots
    appended = sym (
        emplace_pending-new id key (snapshot_of b) r.pending_snapshots
          (find_pending-above id r.pending_snapshots v.fresh))

pub buffer-enqueue_snapshot :
    (r : Reactor) (key : BufferKey) (t : Snapshot) → (enqueue_snapshot r key t).buffer ≡ r.buffer
unfolding enqueue_snapshot
buffer-enqueue_snapshot r key t = ground arith

pub counter-enqueue_snapshot :
    (r : Reactor) (key : BufferKey) (t : Snapshot)
    → r.batch_id_counter + 1 < 2 ^ 64
    → (enqueue_snapshot r key t).batch_id_counter ≤ r.batch_id_counter + 1
unfolding enqueue_snapshot
counter-enqueue_snapshot r key t h = ground arith
