-- ===== src/Client/Delivery/Batches.antt =====
-- The pending snapshots of one series: a poll adds at most one, an acknowledgement takes it away.
use volta.Prelude.{
  ℕ, ◌+◌, ◌≤◌, ◌<◌, ◌^◌, ◌≡◌, refl, sym, ap, ◌∙◌, subst, true, false, some, List, [], ◌∷◌, ◌++◌,
  arith, length, All, is_some, is_empty, if◌then◌else◌, Bool-cases, Option-cases, List-cases, inl,
  inr, ◌==◌, append-nil,
}
use volta.Buffer.Series.{SeriesBuffer, Snapshot, snapshot_of}
use volta.Buffer.Keys.{BufferKey, key_eq, eq_of_key_eq}
use volta.Buffer.Metrics.{MetricsBuffer, get_buffer}
use volta.Buffer.Metrics.Lookup.{ring}
use volta.Buffer.Metrics.Valid.{has_key, get_buffer-Fits}
use volta.Client.Stream.{
  Pending, Reactor, find_pending, erase_pending, enqueue_snapshot, enqueue_keys,
}
use volta.Client.Stream.Pending.{find_pending-above, emplace_pending-new}
use volta.Client.Stream.Valid.{
  IsSound, enqueue_snapshot-IsSound, buffer-enqueue_snapshot, counter-enqueue_snapshot,
}
use volta.Client.Stream.Rounds.{enqueue_keys-cons}
use volta.Client.Delivery.{Ledger, pending_for}
use volta.Client.Delivery.Track.{Tracked, snapshot-Tracked}

-- No key stands twice.
abbrev pub DistinctKeys : List BufferKey → Type 0
DistinctKeys [] = Unit
DistinctKeys (k ∷ ks) = (has_key ks k ≡ false) × DistinctKeys ks

-- A reactor beside the ledger of a series.
abbrev pub Kept : BufferKey → Reactor → Ledger → Type 0
Kept key r g = Tracked (ring r.buffer key) (pending_for key r.pending_snapshots) g

pub Tracked-congr :
    {b c : SeriesBuffer} {ts us : List Snapshot} {g : Ledger}
    → b ≡ c
    → ts ≡ us
    → Tracked b ts g
    → Tracked c us g
Tracked-congr {c = c} {ts} {g = g} p q k =
    subst (λ xs. Tracked c xs g) q (subst (λ x. Tracked x ts g) p k)

module _ (key : BufferKey) where
  pending_for-append_one :
      (i : ℕ) (k : BufferKey) (t : Snapshot) (ps : Pending)
      → pending_for key (ps ++ (i, k, t) ∷ [])
        ≡ pending_for key ps ++ (if key_eq k key then t ∷ [] else [])
  pending_for-append_one i k t [] = ground arith
  pending_for-append_one i k t ((j, l, u) ∷ ps) = ground (arith, pending_for-append_one i k t ps)

  pub pending_for-enqueue_snapshot :
      {room : ℕ} {r : Reactor} (k : BufferKey) (t : Snapshot)
      → IsSound room r
      → pending_for key (enqueue_snapshot r k t).pending_snapshots ≡ (
          if is_empty t.samples
          then pending_for key r.pending_snapshots
          else pending_for key r.pending_snapshots ++ (if key_eq k key then t ∷ [] else []))
  unfolding enqueue_snapshot
  pending_for-enqueue_snapshot {r = r} k t v = elim (Bool-cases (is_empty t.samples)) [
    | inl e ↦ rw e refl
    | inr e ↦ rw e (
        ap (pending_for key) (
          emplace_pending-new r.batch_id_counter k t r.pending_snapshots
            (find_pending-above r.batch_id_counter r.pending_snapshots v.fresh))
        ∙ pending_for-append_one r.batch_id_counter k t r.pending_snapshots)
  ]

  -- Enqueueing another series.
  pub pending_for-enqueue_other :
      {room : ℕ} {r : Reactor} (k : BufferKey) (t : Snapshot)
      → IsSound room r
      → key_eq k key ≡ false
      → pending_for key (enqueue_snapshot r k t).pending_snapshots
        ≡ pending_for key r.pending_snapshots
  pending_for-enqueue_other {r = r} k t v h =
      ground (
        arith,
        pending_for-enqueue_snapshot k t v,
        append-nil (pending_for key r.pending_snapshots),
      )

  pub apart :
      (k : BufferKey) (keys : List BufferKey)
      → has_key keys k ≡ false
      → has_key keys key ≡ true
      → key_eq k key ≡ false
  apart k keys h e = elim (Bool-cases (key_eq k key)) [
    | inl hit ↦ absurd (ground (arith, ap (has_key keys) (eq_of_key_eq k key hit)))
    | inr miss ↦ miss
  ]

  pub ring_found :
      (m : MetricsBuffer) {b : SeriesBuffer} → get_buffer m key ≡ some b → ring m key ≡ b
  ring_found m e = ground arith

  -- Enqueueing one series: of another key, or of this one with none pending.
  enqueue_snapshot-Kept :
      {room : ℕ} {r : Reactor} {g : Ledger} (k : BufferKey) {b : SeriesBuffer}
      → IsSound room r
      → get_buffer r.buffer k ≡ some b
      → (key_eq k key ≡ true → pending_for key r.pending_snapshots ≡ [])
      → Kept key r g
      → Kept key (enqueue_snapshot r k (snapshot_of b)) g
  enqueue_snapshot-Kept {r = r} {g} k {b} v found none_pending kept =
      elim (Bool-cases (is_empty (snapshot_of b).samples)) [
        | inl e ↦ Tracked-congr same (let q : before ≡ after = ground (arith, added) in q) kept
        | inr e ↦ elim (Bool-cases (key_eq k key)) [
          | inl hit ↦
              let here : ring r.buffer key ≡ b =
                ring_found r.buffer
                  (ap (get_buffer r.buffer) (sym (eq_of_key_eq k key hit)) ∙ found) in
              Tracked-congr (sym here ∙ same)
                (let q : snapshot_of b ∷ [] ≡ after = ground (arith, added, none_pending hit) in q)
                (snapshot-Tracked (get_buffer-Fits k v.buffer found).valid
                  (Tracked-congr here (none_pending hit) kept))
          | inr miss ↦
              Tracked-congr same
                (let q : before ≡ after = ground (arith, added, append-nil before) in q) kept
        ]
      ]
    where
      before : List Snapshot
      before = pending_for key r.pending_snapshots

      after : List Snapshot
      after = pending_for key (enqueue_snapshot r k (snapshot_of b)).pending_snapshots

      added : after ≡ (
          if is_empty (snapshot_of b).samples
          then before
          else before ++ (if key_eq k key then snapshot_of b ∷ [] else []))
      added = pending_for-enqueue_snapshot k (snapshot_of b) v

      same : ring r.buffer key ≡ ring (enqueue_snapshot r k (snapshot_of b)).buffer key
      same = ap (λ m. ring m key) (sym (buffer-enqueue_snapshot r k (snapshot_of b)))

  pub enqueue_keys-Kept :
      {room : ℕ} (keys : List BufferKey) {r r' : Reactor} {g : Ledger}
      → IsSound room r
      → All (λ k. is_some (get_buffer r.buffer k) ≡ true) keys
      → DistinctKeys keys
      → r.batch_id_counter + length keys < 2 ^ 64
      → (has_key keys key ≡ true → pending_for key r.pending_snapshots ≡ [])
      → enqueue_keys r keys ≡ some r'
      → Kept key r g
      → Kept key r' g
  unfolding enqueue_keys
  enqueue_keys-Kept [] {r} {r'} {g} v known d h none_pending e kept =
      subst (λ s. Kept key s g) (let q : r ≡ r' = ground arith in q) kept
  enqueue_keys-Kept (k ∷ keys) {r} {r'} v known d h none_pending e kept =
      elim (Option-cases (get_buffer r.buffer k)) [
        | inl null ↦ absurd (ground arith)
        | inr (b, found) ↦
            let r1 : Reactor = enqueue_snapshot r k (snapshot_of b) in
            let same : r1.buffer ≡ r.buffer = buffer-enqueue_snapshot r k (snapshot_of b) in
            enqueue_keys-Kept keys (enqueue_snapshot-IsSound k v found (omega arith))
              (rw same known.1) d.1
              (omega (arith, counter-enqueue_snapshot r k (snapshot_of b) (omega arith)))
              (λ later.
                pending_for-enqueue_other k (snapshot_of b) v (apart k keys d.0 later)
                ∙ none_pending (ground arith))
              (sym (enqueue_keys-cons k keys v found) ∙ e)
              (enqueue_snapshot-Kept k v found (λ hit. none_pending (ground arith)) kept)
      ]

  -- The acknowledged snapshot is the only one of its series.
  pub pending_for-erase_pending :
      (id : ℕ) (k : BufferKey) (t : Snapshot) (ps : Pending)
      → find_pending id ps ≡ some (k, t)
      → key_eq k key ≡ true
      → length (pending_for key ps) ≤ 1
      → (pending_for key ps ≡ t ∷ []) × (pending_for key (erase_pending id ps) ≡ [])
  unfolding find_pending erase_pending
  pending_for-erase_pending id k t [] e h l = absurd (ground arith)
  pending_for-erase_pending id k t ((i, j, u) ∷ ps) e h l = elim (Bool-cases (i == id)) [
    | inl hit ↦ elim (List-cases (pending_for key ps)) [
      | inl f ↦ ground arith
      | inr (x, xs, f) ↦ absurd (ground arith)
    ]
    | inr miss ↦
        let fewer : length (pending_for key ps) ≤ 1 = ground arith in
        let (f, g) = pending_for-erase_pending id k t ps (ground arith) h fewer in
        ground (arith, f, g)
  ]

  pub pending_for-erase_other :
      (id : ℕ) (k : BufferKey) (t : Snapshot) (ps : Pending)
      → find_pending id ps ≡ some (k, t)
      → key_eq k key ≡ false
      → pending_for key (erase_pending id ps) ≡ pending_for key ps
  unfolding find_pending erase_pending
  pending_for-erase_other id k t [] e h = refl
  pending_for-erase_other id k t ((i, j, u) ∷ ps) e h = elim (Bool-cases (i == id)) [
    | inl hit ↦ ground arith
    | inr miss ↦ ground (arith, pending_for-erase_other id k t ps)
  ]
