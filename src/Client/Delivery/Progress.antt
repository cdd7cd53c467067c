-- ===== src/Client/Delivery/Progress.antt =====
-- Progress of the stream: the acknowledgements of a round leave nothing to send.
use volta.Prelude.{
  ℕ, zero, suc, ◌+◌, ◌-◌, ◌<◌, ◌^◌, ◌≡◌, refl, sym, ap, ◌∙◌, subst, true, Option, none, some, List,
  [], ◌∷◌, map, arith, length, All, is_some, if◌then◌else◌, Bool-cases, inl, inr, drop_all,
}
use volta.Buffer.Series.{SeriesBuffer, Snapshot, ack_snapshot}
use volta.Buffer.Series.Bounds.{IsValid}
use volta.Buffer.Series.Unsent.{unsent, length-unsent, unsent-ack_snapshot}
use volta.Buffer.Keys.{BufferKey, key_eq, eq_of_key_eq}
use volta.Buffer.Metrics.{get_buffer, get_all_keys}
use volta.Buffer.Metrics.Lookup.{ring}
use volta.Buffer.Metrics.Valid.{get_buffer-Fits}
use volta.Buffer.Metrics.Acks.{ack_found}
use volta.Client.Stream.{
  MetricBatch, Pending, Reactor, find_pending, erase_pending, poll, on_read_done, on_write_done,
}
use volta.Client.Stream.Valid.{IsSound, Snapped}
use volta.Client.Stream.Rounds.{poll-IsSound, on_write_done-IsSound}
use volta.Client.Stream.Acks.{acknowledge-IsSound, acknowledge_result}
use volta.Client.Delivery.Rounds.{ring-ack}
use volta.Client.Delivery.{pending_for}
use volta.Client.Delivery.Batches.{ring_found}
use volta.Client.Delivery.Cover.{Covered, poll-Covered}

-- Where nothing is pending, covered means that nothing is unsent.
nothing_to_send : (b : SeriesBuffer) → Covered b [] → unsent b ≡ []
nothing_to_send b (inl (_, e)) = e
nothing_to_send b (inr (t, e, _)) = absurd (ground arith)

-- The server's acknowledgements of batches, in order.
abbrev pub read_all : List ℕ → Reactor → Option Reactor
read_all [] r = some r
read_all (id ∷ more) r = elim (on_read_done r true id) [
  | none ↦ none
  | some (r', _) ↦ read_all more r'
]

-- A number of writes that succeed, one after the other.
abbrev pub flush : ℕ → Reactor → Reactor
flush zero r = r
flush (suc n) r = flush n (on_write_done r true).0

-- As many as there are batches in the queue.
abbrev pub flush_all : Reactor → Reactor
flush_all r = flush (length r.writer.queue) r

pub flush-IsSound : {room : ℕ} (n : ℕ) {r : Reactor} → IsSound room r → IsSound room (flush n r)
flush-IsSound zero v = v
flush-IsSound (suc n) {r} v = flush-IsSound n (on_write_done-IsSound {r = r} true v)

-- They change only the writer.
pub flush_only : (n : ℕ) (r : Reactor) → flush n r ≡ record r { writer = (flush n r).writer }
unfolding on_write_done
flush_only zero r = refl
flush_only (suc n) r = flush_only n (on_write_done r true).0

abbrev pub ids : Pending → List ℕ
ids = map λ (p : ℕ × BufferKey × Snapshot). p.0

-- Acknowledging a snapshot that ends with the pushes leaves nothing unsent.
ack_everything :
    {b : SeriesBuffer} (t : Snapshot) → IsValid b → t.end ≡ b.head → unsent (ack_snapshot b t) ≡ []
ack_everything {b} t v e =
    unsent-ack_snapshot t v (omega arith)
    ∙ drop_all (t.end - b.tail) (unsent b) (omega (arith, length-unsent b))

pub find_first :
    (id : ℕ) (k : BufferKey) (t : Snapshot) (ps : Pending)
    → find_pending id ((id, k, t) ∷ ps) ≡ some (k, t)
unfolding find_pending
find_first id k t ps = ground arith

pub erase_first :
    (id : ℕ) (k : BufferKey) (t : Snapshot) (ps : Pending) → erase_pending id ((id, k, t) ∷ ps) ≡ ps
unfolding erase_pending
erase_first id k t ps = ground arith

module _ (key : BufferKey) where
  ring-IsValid :
      {room : ℕ} {r : Reactor} (k : BufferKey) {b : SeriesBuffer}
      → IsSound room r
      → get_buffer r.buffer k ≡ some b
      → key_eq k key ≡ true
      → IsValid (ring r.buffer key)
  ring-IsValid {r = r} k v found hit =
      let here : get_buffer r.buffer key ≡ some _ =
        ap (get_buffer r.buffer) (sym (eq_of_key_eq k key hit)) ∙ found in
      subst IsValid (sym (ring_found key r.buffer here)) (get_buffer-Fits key v.buffer here).valid

  ack-Covered :
      {b : SeriesBuffer} (id : ℕ) (k : BufferKey) (t : Snapshot) (ps : Pending)
      → (key_eq k key ≡ true → IsValid b)
      → Covered b (pending_for key ((id, k, t) ∷ ps))
      → Covered (if key_eq k key then ack_snapshot b t else b) (pending_for key ps)
  ack-Covered {b} id k t ps valid c = elim (Bool-cases (key_eq k key)) [
    | inl hit ↦ rw hit (elim c [
      | inl (e, _) ↦ absurd (ground arith)
      | inr (u, e, reaches) ↦
          inl (
            ground arith,
            ack_everything t (valid hit) (let q : t.end ≡ b.head = ground arith in q),
          )
    ])
    | inr miss ↦ rw miss (
        subst (Covered b)
          (let q : pending_for key ((id, k, t) ∷ ps) ≡ pending_for key ps = ground arith in q) c)
  ]

  -- The first of the pending batches is acknowledged.
  acknowledge_first :
      {room : ℕ} {r : Reactor} (id : ℕ) (k : BufferKey) (t : Snapshot) (ps : Pending)
      → IsSound room r
      → r.pending_snapshots ≡ (id, k, t) ∷ ps
      → Covered (ring r.buffer key) (pending_for key ((id, k, t) ∷ ps))
      → (r' : Reactor) × (on_read_done r true id ≡ some (r', true))
        × IsSound room r'
        × (r'.pending_snapshots ≡ ps)
        × Covered (ring r'.buffer key) (pending_for key ps)
  unfolding on_read_done
  acknowledge_first {r = r} id k t ps v e c =
      let known : find_pending id r.pending_snapshots ≡ some (k, t) =
        ap (find_pending id) e ∙ find_first id k t ps in
      let (b, found, bound) = (subst (All (Snapped r.buffer)) e v.snapped).0 in
      let (m', acked) = ack_found r.buffer k t found in
      let (r', done, v') = acknowledge-IsSound id v in
      let result = acknowledge_result r id k t known acked done in
      (
        r',
        ground (arith, done),
        v',
        ap (λ (s : Reactor). s.pending_snapshots) (sym result)
            ∙ ap (erase_pending id) e
            ∙ erase_first id k t ps,
        subst (λ (s : Reactor). Covered (ring s.buffer key) (pending_for key ps)) result
            (subst (λ x. Covered x (pending_for key ps))
              (sym (
                ring-ack key r.buffer k t acked
                  (let there : is_some (get_buffer r.buffer k) ≡ true = ground arith in there)))
              (ack-Covered id k t ps (λ hit. (ring-IsValid k v found hit)) c)),
      )

  read_all-Covered :
      (ps : Pending) {room : ℕ} {r : Reactor}
      → IsSound room r
      → r.pending_snapshots ≡ ps
      → Covered (ring r.buffer key) (pending_for key ps)
      → (s : Reactor) × (read_all (ids ps) r ≡ some s)
        × IsSound room s
        × (s.pending_snapshots ≡ [])
        × Covered (ring s.buffer key) []
  read_all-Covered [] {r = r} v e c = (r, refl, v, e, c)
  read_all-Covered ((id, k, t) ∷ ps) v e c =
      let (r', done, v', e', c') = acknowledge_first id k t ps v e c in
      let (s, rest, v'', e'', c'') = read_all-Covered ps v' e' c' in
      (s, ground (arith, done, rest), v'', e'', c'')

  -- In a sound stream with nothing pending, whose batch ids do not wrap: a round of the poll thread
  -- ends, and when gRPC writes every batch that is then queued, and the server acknowledges every batch that
  -- is pending, in the order in which they became so, each acknowledgement ends, the stream is sound, nothing
  -- is pending, and the series of any key has no sample left to send.
  pub poll-drains :
      {room : ℕ} {r : Reactor}
      → IsSound room r
      → r.pending_snapshots ≡ []
      → r.batch_id_counter + length (get_all_keys r.buffer) < 2 ^ 64
      → (r' : Reactor) × (started : Option MetricBatch) × (poll r ≡ some (r', started))
        × ((s : Reactor) × (read_all (ids r'.pending_snapshots) (flush_all r') ≡ some s)
            × IsSound room s
            × (s.pending_snapshots ≡ [])
            × (unsent (ring s.buffer key) ≡ []))
  poll-drains v none_pending h =
      let (r', started, done, v') = poll-IsSound v h in
      let only = flush_only (length r'.writer.queue) r' in
      let (s, read, v'', e, c) =
        read_all-Covered r'.pending_snapshots (flush-IsSound (length r'.writer.queue) v')
          (ap (λ (x : Reactor). x.pending_snapshots) only)
          (subst (λ m. Covered (ring m key) (pending_for key r'.pending_snapshots))
            (sym (ap (λ (x : Reactor). x.buffer) only)) (poll-Covered key v none_pending h done)) in
      (r', started, done, (s, read, v'', e, nothing_to_send (ring s.buffer key) c))
