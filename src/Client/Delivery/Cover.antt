-- ===== src/Client/Delivery/Cover.antt =====
-- A round of the poll thread with nothing pending takes up every unsent sample.
use volta.Prelude.{
  ℕ, ◌+◌, ◌<◌, ◌^◌, ◌≡◌, ◌⊎◌, refl, sym, ap, ◌∙◌, subst, true, false, Option, some, List, [], ◌∷◌,
  arith, length, All, is_some, is_empty, Bool-cases, Option-cases, List-cases, inl, inr,
}
use volta.Buffer.Series.{SeriesBuffer, Snapshot, new, snapshot_of}
use volta.Buffer.Series.Bounds.{end-snapshot_of}
use volta.Buffer.Series.Unsent.{unsent}
use volta.Buffer.Keys.{BufferKey, key_eq, eq_of_key_eq}
use volta.Buffer.Metrics.{MetricsBuffer, get_buffer, get_all_keys}
use volta.Buffer.Metrics.Lookup.{ring}
use volta.Buffer.Metrics.Valid.{has_key, get_buffer-get_all_keys}
use volta.Client.Stream.{
  MetricBatch, Reactor, enqueue_snapshot, enqueue_keys, enqueue_metrics, after_enqueue, poll,
}
use volta.Client.Stream.Valid.{
  IsSound, enqueue_snapshot-IsSound, buffer-enqueue_snapshot, counter-enqueue_snapshot,
}
use volta.Client.Stream.Rounds.{enqueue_keys-cons, known_keys, enqueue_metrics-IsSound}
use volta.Client.Delivery.Rounds.{
  get_all_keys-DistinctKeys, buffer-after_enqueue, pending-after_enqueue,
}
use volta.Client.Delivery.{pending_for}
use volta.Client.Delivery.Batches.{
  DistinctKeys, ring_found, pending_for-enqueue_snapshot, pending_for-enqueue_other,
}

-- Every unsent sample of the ring is in the pending snapshot, if there is one; else there is none.
abbrev pub Covered : SeriesBuffer → List Snapshot → Type 0
Covered b ts = ((ts ≡ []) × (unsent b ≡ [])) ⊎ ((t : Snapshot) × (ts ≡ t ∷ []) × (t.end ≡ b.head))

nothing_left : (b : SeriesBuffer) → is_empty (unsent b) ≡ true → unsent b ≡ []
nothing_left b e = elim (List-cases (unsent b)) [
  | inl f ↦ f
  | inr (x, xs, f) ↦ absurd (ground arith)
]

unsent-new : (c : ℕ) → unsent (new c) ≡ []
unfolding new snapshot_of
unsent-new c = refl

module _ (key : BufferKey) where
  -- Of a series with nothing pending, its snapshot covers the ring.
  enqueue_snapshot-Covered :
      {room : ℕ} {r : Reactor} (k : BufferKey) (b : SeriesBuffer)
      → IsSound room r
      → key_eq k key ≡ true
      → pending_for key r.pending_snapshots ≡ []
      → Covered b (pending_for key (enqueue_snapshot r k (snapshot_of b)).pending_snapshots)
  enqueue_snapshot-Covered {r = r} k b v hit none_pending =
      let added = pending_for-enqueue_snapshot key k (snapshot_of b) v in
      elim (Bool-cases (is_empty (snapshot_of b).samples)) [
        | inl e ↦ inl (ground (arith, added), nothing_left b e)
        | inr e ↦ inr (snapshot_of b, ground (arith, added), end-snapshot_of b)
      ]

  -- Enqueueing other series leaves this one as it is.
  enqueue_keys_other :
      {room : ℕ} (keys : List BufferKey) {r r' : Reactor}
      → IsSound room r
      → All (λ k. is_some (get_buffer r.buffer k) ≡ true) keys
      → r.batch_id_counter + length keys < 2 ^ 64
      → has_key keys key ≡ false
      → enqueue_keys r keys ≡ some r'
      → pending_for key r'.pending_snapshots ≡ pending_for key r.pending_snapshots
  unfolding enqueue_keys
  enqueue_keys_other [] {r} {r'} v known h other e =
      ap (λ (s : Reactor). pending_for key s.pending_snapshots) (let q : r' ≡ r = ground arith in q)
  enqueue_keys_other (k ∷ keys) {r} {r'} v known h other e =
      elim (Option-cases (get_buffer r.buffer k)) [
        | inl null ↦ absurd (ground arith)
        | inr (b, found) ↦
            let r1 : Reactor = enqueue_snapshot r k (snapshot_of b) in
            let same : r1.buffer ≡ r.buffer = buffer-enqueue_snapshot r k (snapshot_of b) in
            enqueue_keys_other keys (enqueue_snapshot-IsSound k v found (omega arith))
              (rw same known.1)
              (omega (arith, counter-enqueue_snapshot r k (snapshot_of b) (omega arith)))
              (ground arith) (sym (enqueue_keys-cons k keys v found) ∙ e)
            ∙ pending_for-enqueue_other key k (snapshot_of b) v (ground arith)
      ]

  enqueue_keys-Covered :
      {room : ℕ} (keys : List BufferKey) {r r' : Reactor}
      → IsSound room r
      → All (λ k. is_some (get_buffer r.buffer k) ≡ true) keys
      → DistinctKeys keys
      → r.batch_id_counter + length keys < 2 ^ 64
      → has_key keys key ≡ true
      → pending_for key r.pending_snapshots ≡ []
      → enqueue_keys r keys ≡ some r'
      → Covered (ring r.buffer key) (pending_for key r'.pending_snapshots)
  unfolding enqueue_keys
  enqueue_keys-Covered [] v known d h among none_pending e = absurd (ground arith)
  enqueue_keys-Covered {room} (k ∷ keys) {r} {r'} v known d h among none_pending e =
      elim (Option-cases (get_buffer r.buffer k)) [
        | inl null ↦ absurd (ground arith)
        | inr (b, found) ↦
            let r1 : Reactor = enqueue_snapshot r k (snapshot_of b) in
            let same : r1.buffer ≡ r.buffer = buffer-enqueue_snapshot r k (snapshot_of b) in
            let sound : IsSound room r1 = enqueue_snapshot-IsSound k v found (omega arith) in
            let rest : enqueue_keys r1 keys ≡ some r' =
              sym (enqueue_keys-cons k keys v found) ∙ e in
            let small : r1.batch_id_counter + length keys < 2 ^ 64 =
              omega (arith, counter-enqueue_snapshot r k (snapshot_of b) (omega arith)) in
            elim (Bool-cases (key_eq k key)) [
              | inl hit ↦
                  let here : ring r.buffer key ≡ b =
                    ring_found key r.buffer
                      (ap (get_buffer r.buffer) (sym (eq_of_key_eq k key hit)) ∙ found) in
                  let alone : has_key keys key ≡ false =
                    ap (has_key keys) (sym (eq_of_key_eq k key hit)) ∙ d.0 in
                  subst (λ ts. Covered (ring r.buffer key) ts)
                    (sym (enqueue_keys_other keys sound (rw same known.1) small alone rest))
                    (subst (λ c. Covered c (pending_for key r1.pending_snapshots)) (sym here)
                      (enqueue_snapshot-Covered k b v hit none_pending))
              | inr miss ↦
                  subst (λ m. Covered (ring m key) (pending_for key r'.pending_snapshots)) same
                    (enqueue_keys-Covered keys sound (rw same known.1) d.1 small (ground arith)
                      (pending_for-enqueue_other key k (snapshot_of b) v miss ∙ none_pending) rest)
            ]
      ]

  missing : (m : MetricsBuffer) → is_some (get_buffer m key) ≡ false → unsent (ring m key) ≡ []
  missing m h =
      ap unsent (let q : ring m key ≡ new m.capacity_per_series = ground arith in q)
      ∙ unsent-new m.capacity_per_series

  -- After a round that began with nothing pending, what is pending covers the ring of every key.
  pub poll-Covered :
      {room : ℕ} {r r' : Reactor} {started : Option MetricBatch}
      → IsSound room r
      → r.pending_snapshots ≡ []
      → r.batch_id_counter + length (get_all_keys r.buffer) < 2 ^ 64
      → poll r ≡ some (r', started)
      → Covered (ring r'.buffer key) (pending_for key r'.pending_snapshots)
  unfolding poll enqueue_metrics
  poll-Covered {room} {r} {r'} v none_pending h e =
      let (r1, done, v1, same) = enqueue_metrics-IsSound v h in
      let result : (after_enqueue r1).0 ≡ r' = ground (arith, done) in
      subst (λ (s : Reactor). Covered (ring s.buffer key) (pending_for key s.pending_snapshots))
        result
        (rw (buffer-after_enqueue r1, pending-after_enqueue r1)
          (rw same (elim (Bool-cases (has_key (get_all_keys r.buffer) key)) [
            | inl among ↦
                enqueue_keys-Covered (get_all_keys r.buffer) v (known_keys v.buffer)
                  (get_all_keys-DistinctKeys v.buffer) h among (ap (pending_for key) none_pending)
                  done
            | inr other ↦ inl (
              enqueue_keys_other (get_all_keys r.buffer) v (known_keys v.buffer) h other done
                  ∙ ap (pending_for key) none_pending,
              missing r.buffer (get_buffer-get_all_keys key v.buffer ∙ other),
            )
          ])))
