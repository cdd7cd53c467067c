-- ===== src/Client/Delivery/Drain/Moving.antt =====
-- As long as no write and no read fails, the writer of a stream rests only where no batch waits.
use volta.Prelude.{
  ℕ, ◌≡◌, refl, ◌∙◌, sym, subst, Bool, true, false, Option, some, List, [], ◌∷◌, arith, is_empty,
  Option-cases, Bool-cases, List-cases, inl, inr,
}
use volta.Buffer.Series.{Snapshot, get_snapshot}
use volta.Buffer.Keys.{BufferKey}
use volta.Buffer.Metrics.{MetricsBuffer, get_buffer, get_all_keys}
use volta.Client.Writer
use volta.Client.Writer.Waiting.{IsBusy}
use volta.Client.Writer.Moving.{IsMoving, write-IsMoving, on_write_done-IsMoving}
use volta.Client.Stream.{
  opened, MetricBatch, Reactor, Pending, emplace_pending, enqueue_snapshot, enqueue_keys,
  enqueue_metrics, after_enqueue, write, poll, acknowledge, on_read_done, on_write_done,
}
use volta.Client.Stream.Reach.{Reach, here, next, collects, polls, writes_done, reads_done}
use volta.Client.Delivery.Wire.Batches.{enqueue_snapshot-IsBusy}

emplace_pending-some :
    (id : ℕ) (key : BufferKey) (t : Snapshot) (ps : Pending)
    → is_empty (emplace_pending id key t ps) ≡ false
unfolding emplace_pending
emplace_pending-some id key t ps = ground (arith, List-cases ps)

IsMoving-IsBusy : (w : Writer.Writer MetricBatch) → IsMoving w → IsBusy w
IsMoving-IsBusy w h e = ground arith

-- Nothing is pending after it only if nothing was, and then it has queued nothing.
abbrev Adds : Reactor → Reactor → Type 0
Adds r r' =
    is_empty r'.pending_snapshots ≡ true
    → (is_empty r.pending_snapshots ≡ true) × (r'.writer ≡ r.writer)

enqueue_snapshot-Adds :
    (r : Reactor) (key : BufferKey) (t : Snapshot) → Adds r (enqueue_snapshot r key t)
unfolding enqueue_snapshot
enqueue_snapshot-Adds r key t e =
    ground (arith, emplace_pending-some r.batch_id_counter key t r.pending_snapshots)

enqueue_keys-Adds :
    (keys : List BufferKey) (r : Reactor) {r' : Reactor}
    → IsBusy r.writer
    → enqueue_keys r keys ≡ some r'
    → Adds r r' × IsBusy r'.writer
unfolding enqueue_keys
enqueue_keys-Adds [] r {r'} busy e =
    subst (λ s. Adds r s × IsBusy s.writer) (let same : r ≡ r' = ground arith in same)
      (λ h. (h, refl), busy)
enqueue_keys-Adds (key ∷ keys) r {r'} busy e = elim (Option-cases (get_buffer r.buffer key)) [
  | inl null ↦ absurd (ground arith)
  | inr (b, found) ↦ elim (Option-cases (get_snapshot b)) [
    | inl thrown ↦ absurd (ground arith)
    | inr (t, taken) ↦
        let (adds, busy') =
          enqueue_keys-Adds keys (enqueue_snapshot r key t) (enqueue_snapshot-IsBusy r key t busy) (
            let rest : enqueue_keys (enqueue_snapshot r key t) keys ≡ some r' =
              ground (arith, found, taken) in
            rest) in
        (
          λ h.
              let (h1, same1) = adds h in
              let (h0, same0) = enqueue_snapshot-Adds r key t h1 in (h0, same1 ∙ same0),
          busy',
        )
  ]
]

after_enqueue-IsMoving :
    (r r1 : Reactor)
    → IsMoving r.writer
    → Adds r r1
    → IsBusy r1.writer
    → IsMoving (after_enqueue r1).0.writer
unfolding after_enqueue write
after_enqueue-IsMoving r r1 h adds busy = elim (Bool-cases (is_empty r1.pending_snapshots)) [
  | inl e ↦ rw e (subst IsMoving (sym (adds e).1) h)
  | inr e ↦ rw e (write-IsMoving r1.writer busy)
]

pub poll-IsMoving :
    (r : Reactor) {r' : Reactor} {started : Option MetricBatch}
    → IsMoving r.writer
    → poll r ≡ some (r', started)
    → IsMoving r'.writer
unfolding poll enqueue_metrics
poll-IsMoving r {r'} h e = elim (Bool-cases (is_empty r.pending_snapshots)) [
  | inr p ↦ subst (λ (x : Reactor). IsMoving x.writer) (let same : r ≡ r' = ground arith in same) h
  | inl p ↦ elim (Option-cases (enqueue_keys r (get_all_keys r.buffer))) [
    | inl null ↦ absurd (ground arith)
    | inr (r1, done) ↦
        let (adds, busy) =
          enqueue_keys-Adds (get_all_keys r.buffer) r (IsMoving-IsBusy r.writer h) done in
        subst (λ (x : Reactor). IsMoving x.writer)
          (let same : (after_enqueue r1).0 ≡ r' = ground (arith, done) in same)
          (after_enqueue-IsMoving r r1 h adds busy)
  ]
]

pub writer-on_read_done :
    (r : Reactor) {r' : Reactor} (ok : Bool) (id : ℕ) {again : Bool}
    → on_read_done r ok id ≡ some (r', again)
    → r'.writer ≡ r.writer
unfolding on_read_done acknowledge
writer-on_read_done r ok id e = ground arith

-- Along a run no write and no read fails, so that gRPC goes on with both.
abbrev pub Succeeds : {n : ℕ} {r : Reactor} {l : ℕ} {t : Reactor} → Reach n r l t → Type 0
Succeeds here = Unit {0}
Succeeds (next q (collects ms room s total e)) = Succeeds q
Succeeds (next q (polls room s t started h e)) = Succeeds q
Succeeds (next q (writes_done room s ok)) = (ok ≡ true) × Succeeds q
Succeeds (next q (reads_done room s t ok id again e)) = (ok ≡ true) × Succeeds q

pub Reach-IsMoving :
    {m : MetricsBuffer} {n l : ℕ} {t : Reactor} (q : Reach n (opened m) l t)
    → Succeeds q
    → IsMoving t.writer
unfolding on_write_done
Reach-IsMoving here h = refl
Reach-IsMoving (next q (collects ms room s total e)) h = Reach-IsMoving q h
Reach-IsMoving (next q (polls room s t started small e)) h = poll-IsMoving s (Reach-IsMoving q h) e
Reach-IsMoving (next q (writes_done room s ok)) h = rw h.0 (on_write_done-IsMoving s.writer)
Reach-IsMoving (next q (reads_done room s t ok id again e)) h =
    subst IsMoving (sym (writer-on_read_done s ok id e)) (Reach-IsMoving q h.1)
