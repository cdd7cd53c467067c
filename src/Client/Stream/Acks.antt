-- ===== src/Client/Stream/Acks.antt =====
-- `OnReadDone`: what an acknowledgement does to the pending snapshots and the rings.
use volta.Prelude.{
  ℕ, ◌+◌, ◌≤◌, ◌<◌, ◌^◌, ◌≡◌, refl, sym, ap, ◌∙◌, Bool-cases, Bool, true, false, none, some, List,
  arith, All-mono, length, keep_last, inl, inr, Option-cases, if◌then◌else◌,
}
use volta.Buffer.Series.{Sample, SeriesBuffer, Snapshot, push_all, snapshot_of, ack_snapshot}
use volta.Buffer.Series.Bounds.{head-ack_snapshot}
use volta.Buffer.Keys.{BufferKey, key_eq, eq_of_key_eq}
use volta.Buffer.Metrics.{MetricsBuffer, get_buffer, ack}
use volta.Buffer.Metrics.Acks.{ack-IsConsistent, get_buffer-ack, ack_found}
use volta.Client.Stream.Pending.{
  find_pending-erase_pending, DistinctIds-erase_pending, All-erase_pending, find_pending-All,
}
use volta.Client.Stream.{Reactor, find_pending, erase_pending, acknowledge, on_read_done}
use volta.Buffer.Series.Bounds.{IsValid}
use volta.Buffer.Series.Unsent.{unsent, ack_delivers}
use volta.Client.Stream.Valid.{Snapped, IsSound}

Snapped-ack :
    (m : MetricsBuffer) {m' : MetricsBuffer} (key : BufferKey) (t : Snapshot)
    (p : ℕ × BufferKey × Snapshot)
    → ack m key t ≡ some m'
    → Snapped m p
    → Snapped m' p
Snapped-ack m key t p e (b, found, h) = elim (Bool-cases (key_eq key p.1)) [
  | inl hit ↦ (
    ack_snapshot b t,
    ground (arith, get_buffer-ack m key p.1 t e),
    omega (arith, head-ack_snapshot b t),
  )
  | inr miss ↦ (b, ground (arith, get_buffer-ack m key p.1 t e), h)
]

pub acknowledge-IsSound :
    {room : ℕ} {r : Reactor} (id : ℕ)
    → IsSound room r
    → (r' : Reactor) × (acknowledge r id ≡ some r') × IsSound room r'
unfolding acknowledge
acknowledge-IsSound {room} {r} id v = elim (Option-cases (find_pending id r.pending_snapshots)) [
  | inl unknown ↦ (r, ground arith, v)
  | inr ((key, t), known) ↦
      let (b, found, h) =
        find_pending-All
          (λ k u. (b : SeriesBuffer) × (get_buffer r.buffer k ≡ some b) × (u.end ≤ b.head)) id
          r.pending_snapshots v.snapped known in
      let (m', acked) = ack_found r.buffer key t found in
      (
        record r { buffer = m'; pending_snapshots = erase_pending id r.pending_snapshots },
        ground (arith, known, acked),
        record {
          buffer = ack-IsConsistent key t v.buffer (λ c e. ground (arith, found, h)) acked;
          snapped = All-erase_pending (Snapped m') id r.pending_snapshots (
              All-mono (Snapped r.buffer) (Snapped m') (λ p q. Snapped-ack r.buffer key t p acked q)
                r.pending_snapshots v.snapped);
          fresh =
              All-erase_pending (λ (p : ℕ × BufferKey × Snapshot). p.0 < r.batch_id_counter) id
                r.pending_snapshots v.fresh;
          distinct = DistinctIds-erase_pending id r.pending_snapshots v.distinct;
          counted = v.counted;
        },
      )
]

-- In `OnReadDone` of a sound stream the ring of a pending snapshot is never null, and the stream
-- stays sound, whatever id the server acknowledges.
pub on_read_done-IsSound :
    {room : ℕ} {r : Reactor} (ok : Bool) (id : ℕ)
    → IsSound room r
    → (r' : Reactor) × (again : Bool) × (on_read_done r ok id ≡ some (r', again)) × IsSound room r'
unfolding on_read_done
on_read_done-IsSound {room} {r} false id v = (r, false, refl, v)
on_read_done-IsSound {room} {r} true id v =
    let (r', done, v') = acknowledge-IsSound id v in (r', true, ground (arith, done), v')

-- What an acknowledgement does, field by field.
pub acknowledge_result :
    (r : Reactor) (id : ℕ) (key : BufferKey) (t : Snapshot) {m' : MetricsBuffer} {r' : Reactor}
    → find_pending id r.pending_snapshots ≡ some (key, t)
    → ack r.buffer key t ≡ some m'
    → acknowledge r id ≡ some r'
    → record r { buffer = m'; pending_snapshots = erase_pending id r.pending_snapshots } ≡ r'
unfolding acknowledge
acknowledge_result r id key t known acked e = ground arith

pub acknowledge_unknown :
    (r : Reactor) (id : ℕ) → find_pending id r.pending_snapshots ≡ none → acknowledge r id ≡ some r
unfolding acknowledge
acknowledge_unknown r id h = ground arith

-- The stream is sound, and the ring of an acknowledged batch, valid, of a capacity that is not 0 and
-- with counters that do not wrap, had `xs` pushed since its snapshot was taken: afterwards its
-- unsent samples are the newest of `xs` that fit, a ring of another key is as it was, and another
-- acknowledgement of the same id changes nothing.
acknowledge_delivers :
    {room : ℕ} {r r' : Reactor} (id : ℕ) (key : BufferKey) (b : SeriesBuffer) (xs : List Sample)
    (j : BufferKey)
    → IsSound room r
    → IsValid b
    → 0 < b.capacity
    → b.head + length xs < 2 ^ 64
    → find_pending id r.pending_snapshots ≡ some (key, snapshot_of b)
    → get_buffer r.buffer key ≡ some (push_all b xs)
    → acknowledge r id ≡ some r'
    → (c : SeriesBuffer) × (get_buffer r'.buffer j
        ≡ (if key_eq key j then some c else get_buffer r.buffer j))
      × (unsent c ≡ keep_last b.capacity xs)
      × (acknowledge r' id ≡ some r')
acknowledge_delivers {room} {r} {r'} id key b xs j v valid p w known found e =
    let (m', acked) = ack_found r.buffer key (snapshot_of b) found in
    let same : record r { buffer = m'; pending_snapshots = erase_pending id r.pending_snapshots }
        ≡ r' =
      acknowledge_result r id key (snapshot_of b) known acked e in
    (
      ack_snapshot (push_all b xs) (snapshot_of b),
      ap (λ (s : Reactor). get_buffer s.buffer j) (sym same)
          ∙ ground (
            arith,
            get_buffer-ack r.buffer key j (snapshot_of b) acked,
            eq_of_key_eq key j,
            found,
          ),
      ack_delivers xs valid p w,
      acknowledge_unknown r' id (
          ap (λ (s : Reactor). find_pending id s.pending_snapshots) (sym same)
          ∙ ground (arith, find_pending-erase_pending id id r.pending_snapshots v.distinct)),
    )
