-- ===== src/Client/Delivery/Wire/Rounds.antt =====
-- A round of the poll thread, from the batches of its series.
use volta.Prelude.{
  ℕ, ◌+◌, ◌<◌, ◌^◌, ◌≡◌, sym, ap, ◌∙◌, subst, true, Option, none, some, List, [], ◌∷◌, ◌++◌, arith,
  length, All, is_some, is_empty, Bool-cases, Option-cases, List-cases, inl, inr, append-nil,
  append_assoc,
}
use volta.Buffer.Series.{Sample, snapshot_of}
use volta.Buffer.Keys.{BufferKey}
use volta.Buffer.Metrics.{get_buffer, get_all_keys}
use volta.Client.Writer
use volta.Client.Writer.{Writer}
use volta.Client.Writer.Fifo.{to_list}
use volta.Client.Writer.Waiting.{waiting, IsBusy, waiting-write, write-IsBusy}
use volta.Client.Stream.{
  MetricBatch, Reactor, enqueue_snapshot, enqueue_keys, enqueue_metrics, write, after_enqueue, poll,
}
use volta.Client.Stream.Valid.{
  IsSound, enqueue_snapshot-IsSound, buffer-enqueue_snapshot, counter-enqueue_snapshot,
}
use volta.Client.Stream.Rounds.{enqueue_keys-cons, known_keys, enqueue_metrics-IsSound}
use volta.Client.Delivery.Wire.{received}
use volta.Client.Delivery.Wire.Headers.{IsPlain}
use volta.Client.Delivery.Wire.Batches.{
  enqueue_snapshot-IsBusy, Accounted, enqueue_snapshot-Accounted,
}

module _ (key : BufferKey) where
  enqueue_keys-Accounted :
      {room : ℕ} (keys : List BufferKey) {r r' : Reactor} (bs : List MetricBatch) (xs : List Sample)
      → IsSound room r
      → All (λ k. is_some (get_buffer r.buffer k) ≡ true) keys
      → All IsPlain keys
      → IsBusy r.writer
      → r.batch_id_counter + length keys < 2 ^ 64
      → enqueue_keys r keys ≡ some r'
      → Accounted key r bs xs
      → Accounted key r' bs xs × IsBusy r'.writer
  unfolding enqueue_keys
  enqueue_keys-Accounted [] {r} {r'} bs xs v known plain busy h e a =
      subst (λ (s : Reactor). Accounted key s bs xs × IsBusy s.writer)
        (let q : r ≡ r' = ground arith in q) (a, busy)
  enqueue_keys-Accounted (k ∷ keys) {r} {r'} bs xs v known plain busy h e a =
      elim (Option-cases (get_buffer r.buffer k)) [
        | inl null ↦ absurd (ground arith)
        | inr (b, found) ↦
            let same : (enqueue_snapshot r k (snapshot_of b)).buffer ≡ r.buffer =
              buffer-enqueue_snapshot r k (snapshot_of b) in
            enqueue_keys-Accounted keys bs xs (enqueue_snapshot-IsSound k v found (omega arith))
              (rw same known.1) plain.1 (enqueue_snapshot-IsBusy r k (snapshot_of b) busy)
              (omega (arith, counter-enqueue_snapshot r k (snapshot_of b) (omega arith)))
              (sym (enqueue_keys-cons k keys v found) ∙ e)
              (enqueue_snapshot-Accounted key bs xs k (snapshot_of b) v plain.0 busy a)
      ]

  after_enqueue-Accounted :
      (r : Reactor) (bs : List MetricBatch) (xs : List Sample)
      → IsBusy r.writer
      → Accounted key r bs xs
      → Accounted key (after_enqueue r).0 (bs ++ to_list (after_enqueue r).1) xs
        × IsBusy (after_enqueue r).0.writer
  unfolding after_enqueue write
  after_enqueue-Accounted r bs xs busy a = elim (Bool-cases (is_empty r.pending_snapshots)) [
    | inl e ↦ rw e (rw (append-nil bs) a, busy)
    | inr e ↦ rw e (
      ap (received key) (
            append_assoc bs (to_list (Writer.write r.writer).1) (waiting (Writer.write r.writer).0)
            ∙ ap (λ cs. bs ++ cs) (waiting-write r.writer))
          ∙ a,
      write-IsBusy r.writer busy,
    )
  ]

  -- A round of the poll thread.
  pub poll-Accounted :
      {room : ℕ} {r r' : Reactor} {started : Option MetricBatch} (bs : List MetricBatch)
      (xs : List Sample)
      → IsSound room r
      → All IsPlain (get_all_keys r.buffer)
      → IsBusy r.writer
      → r.batch_id_counter + length (get_all_keys r.buffer) < 2 ^ 64
      → poll r ≡ some (r', started)
      → Accounted key r bs xs
      → Accounted key r' (bs ++ to_list started) xs × IsBusy r'.writer
  unfolding poll enqueue_metrics
  poll-Accounted {r = r} {r'} {started} bs xs v plain busy h e a =
      elim (List-cases r.pending_snapshots) [
        | inl none_pending ↦
            let (r1, done, _, _) = enqueue_metrics-IsSound v h in
            let (a', busy') =
              enqueue_keys-Accounted (get_all_keys r.buffer) bs xs v (known_keys v.buffer) plain
                busy h done a in
            subst
              (λ (p : Reactor × Option MetricBatch).
                Accounted key p.0 (bs ++ to_list p.1) xs × IsBusy p.0.writer)
              (let q : after_enqueue r1 ≡ (r', started) = ground (arith, done) in q)
              (after_enqueue-Accounted r1 bs xs busy' a')
        | inr (p, ps, more) ↦
            subst
              (λ (p : Reactor × Option MetricBatch).
                Accounted key p.0 (bs ++ to_list p.1) xs × IsBusy p.0.writer)
              (let q : ◌≡◌ {A = Reactor × Option MetricBatch} (r, none) (r', started) =
                  ground arith in
                q)
              (rw (append-nil bs) a, busy)
      ]
