-- ===== src/Client/Delivery/Rounds.antt =====
-- A round of the poll thread and an acknowledgement, beside the ledger of a series.

use volta.Prelude.{
  ℕ, ◌+◌, ◌≤◌, ◌<◌, ◌^◌, ◌≡◌, refl, sym, ap, ◌∙◌, subst, true, false, Option, none, some, [], ◌∷◌,
  arith, length, is_some, is_empty, if◌then◌else◌, Bool-cases, Option-cases, List-cases, inl, inr,
}
use volta.Buffer.Series.{SeriesBuffer, Snapshot, ack_snapshot}
use volta.Buffer.Series.Bounds.{IsValid}
use volta.Buffer.Keys.{BufferKey, key_eq, eq_of_key_eq}
use volta.Buffer.Metrics.{SeriesMap, MetricsBuffer, get_buffer, get_all_keys, ack}
use volta.Buffer.Metrics.Lookup.{ring}
use volta.Buffer.Metrics.Valid.{IsConsistent, Distinct, keys_of, found-keys_of, get_buffer-Fits}
use volta.Buffer.Metrics.Acks.{get_buffer-ack, ack_found, capacity-ack}
use volta.Client.Stream.{
  Reactor, MetricBatch, find_pending, erase_pending, enqueue_metrics, after_enqueue, poll,
  acknowledge, write,
}
use volta.Client.Stream.Pending.{find_pending-All}
use volta.Client.Stream.Valid.{IsSound}
use volta.Client.Stream.Rounds.{known_keys, enqueue_metrics-IsSound}
use volta.Client.Stream.Acks.{acknowledge_result, acknowledge_unknown}
use volta.Client.Delivery.{Ledger, acked_batch, ack_entries, pending_for}
use volta.Client.Delivery.Track.{ack-Tracked}
use volta.Client.Delivery.Batches.{
  DistinctKeys, Kept, Tracked-congr, ring_found, enqueue_keys-Kept, pending_for-erase_pending,
  pending_for-erase_other,
}

keys_of-DistinctKeys : (s : SeriesMap) → Distinct s → DistinctKeys (keys_of s)
keys_of-DistinctKeys [] d = tt
keys_of-DistinctKeys ((k, b) ∷ s) d = (sym (found-keys_of k s) ∙ d.0, keys_of-DistinctKeys s d.1)

pub get_all_keys-DistinctKeys :
    {room : ℕ} {m : MetricsBuffer} → IsConsistent room m → DistinctKeys (get_all_keys m)
unfolding get_all_keys
get_all_keys-DistinctKeys {m = m} v =
    subst DistinctKeys (sym v.listed) (keys_of-DistinctKeys m.series v.distinct)

pub buffer-after_enqueue : (r : Reactor) → (after_enqueue r).0.buffer ≡ r.buffer
unfolding after_enqueue write
buffer-after_enqueue r = ground arith

pub pending-after_enqueue :
    (r : Reactor) → (after_enqueue r).0.pending_snapshots ≡ r.pending_snapshots
unfolding after_enqueue write
pending-after_enqueue r = ground arith

module _ (key : BufferKey) where
  after_enqueue-Kept : (r : Reactor) {g : Ledger} → Kept key r g → Kept key (after_enqueue r).0 g
  unfolding after_enqueue write
  after_enqueue-Kept r k = elim (Bool-cases (is_empty r.pending_snapshots)) [
    | inl e ↦ rw e k
    | inr e ↦ rw e k
  ]

  -- A round of the poll thread sends nothing of a series of which something is pending.
  pub poll-Kept :
      {room : ℕ} {r r' : Reactor} {started : Option MetricBatch} {g : Ledger}
      → IsSound room r
      → r.batch_id_counter + length (get_all_keys r.buffer) < 2 ^ 64
      → poll r ≡ some (r', started)
      → Kept key r g
      → Kept key r' g × (r'.buffer ≡ r.buffer)
  unfolding poll enqueue_metrics
  poll-Kept {r = r} {r'} {g = g} v h e k = elim (List-cases r.pending_snapshots) [
    | inl none_pending ↦
        let (r1, done, _, same) = enqueue_metrics-IsSound v h in
        let result : (after_enqueue r1).0 ≡ r' = ground (arith, done) in
        (
          subst (λ s. Kept key s g) result
              (after_enqueue-Kept r1 (
                enqueue_keys-Kept key (get_all_keys r.buffer) v (known_keys v.buffer)
                  (get_all_keys-DistinctKeys v.buffer) h (λ _. ap (pending_for key) none_pending)
                  done k)),
          ap (λ (s : Reactor). s.buffer) (sym result) ∙ buffer-after_enqueue r1 ∙ same,
        )
    | inr (p, ps, waiting) ↦
        let result : r ≡ r' = ground arith in
        (subst (λ s. Kept key s g) result k, ap (λ (s : Reactor). s.buffer) (sym result))
  ]

  pub ring-ack :
      (m : MetricsBuffer) {m' : MetricsBuffer} (k : BufferKey) (t : Snapshot)
      → ack m k t ≡ some m'
      → is_some (get_buffer m k) ≡ true
      → ring m' key ≡ (if key_eq k key then ack_snapshot (ring m key) t else ring m key)
  ring-ack m k t e found =
      ground (arith, get_buffer-ack m k key t e, capacity-ack m k t e, eq_of_key_eq k key)

  pub ledger_unknown :
      (r : Reactor) (id : ℕ) (g : Ledger)
      → find_pending id r.pending_snapshots ≡ none
      → acked_batch key r id g ≡ g
  ledger_unknown r id g e = ground arith

  pub ledger_own :
      (r : Reactor) (id : ℕ) (g : Ledger) {k : BufferKey} {t : Snapshot}
      → find_pending id r.pending_snapshots ≡ some (k, t)
      → key_eq k key ≡ true
      → acked_batch key r id g ≡ ack_entries t g
  ledger_own r id g e h = ground arith

  pub ledger_other :
      (r : Reactor) (id : ℕ) (g : Ledger) {k : BufferKey} {t : Snapshot}
      → find_pending id r.pending_snapshots ≡ some (k, t)
      → key_eq k key ≡ false
      → acked_batch key r id g ≡ g
  ledger_other r id g e h = ground arith

  -- An acknowledgement is entered where its batch is of this series.
  pub acknowledge-Kept :
      {room : ℕ} {r r' : Reactor} {g : Ledger} (id : ℕ)
      → IsSound room r
      → acknowledge r id ≡ some r'
      → Kept key r g
      → Kept key r' (acked_batch key r id g)
        × (r'.buffer.capacity_per_series ≡ r.buffer.capacity_per_series)
  acknowledge-Kept {r = r} {r'} {g} id v e kept =
      elim (Option-cases (find_pending id r.pending_snapshots)) [
        | inl unknown ↦
            let result : r ≡ r' = ground (arith, acknowledge_unknown r id unknown) in
            (
              subst (λ h. Kept key r' h) (sym (ledger_unknown r id g unknown))
                  (subst (λ s. Kept key s g) result kept),
              ap (λ (s : Reactor). s.buffer.capacity_per_series) (sym result),
            )
        | inr ((k, t), known) ↦
            let (b, found, _) =
              find_pending-All
                (λ j u. (b : SeriesBuffer) × (get_buffer r.buffer j ≡ some b) × (u.end ≤ b.head)) id
                r.pending_snapshots v.snapped known in
            let (m', acked) = ack_found r.buffer k t found in
            let result : record r {
              buffer = m';
              pending_snapshots = erase_pending id r.pending_snapshots;
            }
                ≡ r' =
              acknowledge_result r id k t known acked e in
            let there : is_some (get_buffer r.buffer k) ≡ true = ground arith in
            let now = ring-ack r.buffer k t acked there in
            (
              subst (λ s. Kept key s (acked_batch key r id g)) result
                  (elim (Bool-cases (key_eq k key)) [
                    | inl hit ↦
                        let (only, gone) =
                          pending_for-erase_pending key id k t r.pending_snapshots known hit
                            kept.single in
                        subst
                          (Kept key (record r {
                            buffer = m';
                            pending_snapshots = erase_pending id r.pending_snapshots;
                          }))
                          (sym (ledger_own r id g known hit))
                          (Tracked-congr
                            (let q : ack_snapshot (ring r.buffer key) t ≡ ring m' key =
                                ground (arith, now) in
                              q)
                            (sym gone)
                            (ack-Tracked (valid_ring k found hit) t (Tracked-congr refl only kept)))
                    | inr miss ↦
                        subst
                          (Kept key (record r {
                            buffer = m';
                            pending_snapshots = erase_pending id r.pending_snapshots;
                          }))
                          (sym (ledger_other r id g known miss))
                          (Tracked-congr
                            (let q : ring r.buffer key ≡ ring m' key = ground (arith, now) in q)
                            (sym
                              (pending_for-erase_other key id k t r.pending_snapshots known miss))
                            kept)
                  ]),
              ap (λ (s : Reactor). s.buffer.capacity_per_series) (sym result)
                  ∙ capacity-ack r.buffer k t acked,
            )
      ]
    where
      valid_ring :
          (k : BufferKey) {b : SeriesBuffer}
          → get_buffer r.buffer k ≡ some b
          → key_eq k key ≡ true
          → IsValid (ring r.buffer key)
      valid_ring k found hit =
          let here : get_buffer r.buffer key ≡ some _ =
            ap (get_buffer r.buffer) (sym (eq_of_key_eq k key hit)) ∙ found in
          subst IsValid (sym (ring_found key r.buffer here))
            (get_buffer-Fits key v.buffer here).valid
