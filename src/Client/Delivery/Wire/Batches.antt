-- ===== src/Client/Delivery/Wire/Batches.antt =====
-- The batches of a round carry just the samples that become pending.
use volta.Prelude.{
  ℕ, ◌≡◌, refl, sym, ap, ◌∙◌, subst, true, false, List, [], ◌∷◌, ◌++◌, map, arith, is_empty,
  if◌then◌else◌, Bool-cases, List-cases, inl, inr, append-nil, append_assoc,
}
use volta.Buffer.Series.{Sample, Snapshot}
use volta.Buffer.Keys.{BufferKey, key_eq}
use volta.Client.Writer
use volta.Client.Writer.{Writer}
use volta.Client.Writer.Waiting.{waiting, IsBusy, waiting-push, push-IsBusy}
use volta.Client.Stream.{MetricBatch, Reactor, make_batch, enqueue_snapshot}
use volta.Client.Stream.Valid.{IsSound}
use volta.Client.Delivery.{pending_for}
use volta.Client.Delivery.Batches.{pending_for-enqueue_snapshot}
use volta.Client.Delivery.Wire.{key_of_header, read_samples, received, all_samples}
use volta.Client.Delivery.Wire.Headers.{IsPlain}

read_samples-map :
    (xs : List Sample) → read_samples (map (λ s. s.timestamp_ns) xs) (map (λ s. s.value) xs) ≡ xs
read_samples-map [] = refl
read_samples-map (x ∷ xs) = ap (λ ys. x ∷ ys) (read_samples-map xs)

all_samples-append :
    (ts us : List Snapshot) → all_samples (ts ++ us) ≡ all_samples ts ++ all_samples us
all_samples-append [] us = refl
all_samples-append (t ∷ ts) us =
    ap (λ xs. t.samples ++ xs) (all_samples-append ts us)
    ∙ sym (append_assoc t.samples (all_samples ts) (all_samples us))

-- An empty snapshot queues nothing, any other its batch.
writer-enqueue_nothing :
    (r : Reactor) (k : BufferKey) (t : Snapshot)
    → is_empty t.samples ≡ true
    → (enqueue_snapshot r k t).writer ≡ r.writer
unfolding enqueue_snapshot
writer-enqueue_nothing r k t h = ground arith

writer-enqueue_some :
    (r : Reactor) (k : BufferKey) (t : Snapshot)
    → is_empty t.samples ≡ false
    → (enqueue_snapshot r k t).writer ≡ Writer.push r.writer (make_batch r.batch_id_counter k t)
unfolding enqueue_snapshot
writer-enqueue_some r k t h = ground arith

pub enqueue_snapshot-IsBusy :
    (r : Reactor) (k : BufferKey) (t : Snapshot)
    → IsBusy r.writer
    → IsBusy (enqueue_snapshot r k t).writer
enqueue_snapshot-IsBusy r k t busy = elim (Bool-cases (is_empty t.samples)) [
  | inl nothing ↦ subst IsBusy (sym (writer-enqueue_nothing r k t nothing)) busy
  | inr more ↦
      subst IsBusy (sym (writer-enqueue_some r k t more))
        (push-IsBusy r.writer (make_batch r.batch_id_counter k t) busy)
]

module _ (key : BufferKey) where
  pub received-append :
      (bs cs : List MetricBatch) → received key (bs ++ cs) ≡ received key bs ++ received key cs
  received-append [] cs = refl
  received-append (b ∷ bs) cs =
      elim (Bool-cases (key_eq (key_of_header b.metric_type b.device_id) key)) [
        | inl hit ↦ rw hit (
            ap (λ xs. read_samples b.timestamps_ns b.values ++ xs) (received-append bs cs)
            ∙ sym (
                append_assoc (read_samples b.timestamps_ns b.values) (received key bs)
                  (received key cs)))
        | inr miss ↦ rw miss (received-append bs cs)
      ]

  -- A batch is read as the snapshot that it was made of.
  received-make_batch :
      (id : ℕ) (k : BufferKey) (t : Snapshot)
      → IsPlain k
      → received key (make_batch id k t ∷ []) ≡ (if key_eq k key then t.samples else [])
  unfolding make_batch
  received-make_batch id k t plain = elim (Bool-cases (key_eq k key)) [
    | inl hit ↦
        rw (plain, hit)
          (append-nil
              (read_samples (map (λ s. s.timestamp_ns) t.samples) (map (λ s. s.value) t.samples))
            ∙ read_samples-map t.samples)
    | inr miss ↦ rw (plain, miss) refl
  ]

  -- What was given to gRPC and what waits carry what is acknowledged and what is pending.
  abbrev pub Accounted : Reactor → List MetricBatch → List Sample → Type 0
  Accounted r bs xs =
      received key (bs ++ waiting r.writer)
      ≡ xs ++ all_samples (pending_for key r.pending_snapshots)

  pending_samples :
      {room : ℕ} {r : Reactor} (k : BufferKey) (t : Snapshot)
      → IsSound room r
      → all_samples (pending_for key (enqueue_snapshot r k t).pending_snapshots)
        ≡ all_samples (pending_for key r.pending_snapshots)
          ++ (if key_eq k key then t.samples else [])
  pending_samples {r = r} k t v =
      ap all_samples (pending_for-enqueue_snapshot key k t v)
      ∙ ground (
        arith,
        List-cases t.samples,
        append-nil (all_samples (pending_for key r.pending_snapshots)),
        append-nil t.samples,
        all_samples-append (pending_for key r.pending_snapshots) (t ∷ []),
        append-nil (pending_for key r.pending_snapshots),
      )

  received-queue :
      (r : Reactor) (k : BufferKey) (t : Snapshot)
      → IsPlain k
      → IsBusy r.writer
      → received key (waiting (enqueue_snapshot r k t).writer)
        ≡ received key (waiting r.writer) ++ (if key_eq k key then t.samples else [])
  received-queue r k t plain busy = elim (Bool-cases (is_empty t.samples)) [
    | inl nothing ↦
        ap (λ w. received key (waiting w)) (writer-enqueue_nothing r k t nothing)
        ∙ ground (arith, List-cases t.samples, append-nil (received key (waiting r.writer)))
    | inr more ↦
        ap (λ w. received key (waiting w)) (writer-enqueue_some r k t more)
        ∙ ap (received key) (waiting-push r.writer (make_batch r.batch_id_counter k t) busy)
        ∙ received-append (waiting r.writer) (make_batch r.batch_id_counter k t ∷ [])
        ∙ ap (λ xs. received key (waiting r.writer) ++ xs)
            (received-make_batch r.batch_id_counter k t plain)
  ]

  pub enqueue_snapshot-Accounted :
      {room : ℕ} {r : Reactor} (bs : List MetricBatch) (xs : List Sample) (k : BufferKey)
      (t : Snapshot)
      → IsSound room r
      → IsPlain k
      → IsBusy r.writer
      → Accounted r bs xs
      → Accounted (enqueue_snapshot r k t) bs xs
  enqueue_snapshot-Accounted {r = r} bs xs k t v plain busy e =
      received-append bs (waiting (enqueue_snapshot r k t).writer)
      ∙ ap (λ ys. received key bs ++ ys) (received-queue r k t plain busy)
      ∙ sym (append_assoc (received key bs) (received key (waiting r.writer)) more)
      ∙ ap (λ ys. ys ++ more) (sym (received-append bs (waiting r.writer)) ∙ e)
      ∙ append_assoc xs (all_samples (pending_for key r.pending_snapshots)) more
      ∙ ap (λ ys. xs ++ ys) (sym (pending_samples k t v))
    where
      more : List Sample
      more = if key_eq k key then t.samples else []
