-- ===== src/Client/Delivery/Drain.antt =====
-- From any state of a run: the writes that are queued, acknowledgements and one round of the poll thread
-- leave nothing unsent.
pub mod Moving
pub mod Runs
use volta.Prelude.{
  ℕ, ◌+◌, ◌-◌, ◌≤◌, ◌<◌, ◌^◌, ◌≡◌, refl, sym, ap, ◌∙◌, subst, true, false, Option, none, some, List,
  [], ◌∷◌, ◌++◌, arith, length, All, Option-cases, inl, inr, append-nil,
}
use volta.Buffer.Series.{Snapshot}
use volta.Buffer.Series.Unsent.{unsent}
use volta.Buffer.Keys.{BufferKey}
use volta.Buffer.Metrics.{MetricsBuffer, get_all_keys, create}
use volta.Buffer.Metrics.Lookup.{ring}
use volta.Buffer.Metrics.Acks.{ack_found}
use volta.Client.Stream.{
  opened, MetricBatch, Pending, Reactor, find_pending, erase_pending, poll, on_read_done,
}
use volta.Client.Stream.Valid.{IsSound, Snapped}
use volta.Client.Stream.Acks.{acknowledge-IsSound, acknowledge_result}
use volta.Client.Stream.Reach.{Reach, next, polls, reads_done}
use volta.Client.Delivery.{Ledger, ledger, acked_batch}
use volta.Client.Delivery.Progress.{
  flush_all, flush_only, flush-IsSound, read_all, ids, find_first, erase_first, poll-drains,
}
use volta.Client.Delivery.Once.{delivers, delivered_all}
use volta.Client.Delivery.Wire.Headers.{get_all_keys-ack}

abbrev round_of : Option (Reactor × Option MetricBatch) → Option Reactor
round_of none = none
round_of (some (r, _)) = some r

abbrev and_then : Option Reactor → (Reactor → Option Reactor) → Option Reactor
and_then none f = none
and_then (some r) f = f r

-- gRPC writes every batch that is queued, and then the server acknowledges every batch that is pending,
-- in order.
abbrev pub deliver : Reactor → Option Reactor
deliver r = read_all (ids r.pending_snapshots) (flush_all r)

-- This happens, the poll thread makes a round, and it happens again.
abbrev pub drain : Reactor → Option Reactor
drain r = and_then (deliver r) (λ s. and_then (round_of (poll s)) deliver)

abbrev Acknowledged : ℕ → Reactor → List ℕ → Type 0
Acknowledged room r more =
    (s : Reactor) × (read_all more r ≡ some s)
    × IsSound room s
    × (s.pending_snapshots ≡ [])
    × (s.batch_id_counter ≡ r.batch_id_counter)
    × (get_all_keys s.buffer ≡ get_all_keys r.buffer)

-- The acknowledgement of the first batch that is pending.
on_read_done_next :
    {room : ℕ} {r : Reactor} (id : ℕ) (k : BufferKey) (t : Snapshot) (ps : Pending)
    → IsSound room r
    → r.pending_snapshots ≡ (id, k, t) ∷ ps
    → (s : Reactor) × (on_read_done r true id ≡ some (s, true))
      × IsSound room s
      × (s.pending_snapshots ≡ ps)
      × (s.batch_id_counter ≡ r.batch_id_counter)
      × (get_all_keys s.buffer ≡ get_all_keys r.buffer)
unfolding on_read_done
on_read_done_next {r = r} id k t ps v e =
    let known : find_pending id r.pending_snapshots ≡ some (k, t) =
      ap (find_pending id) e ∙ find_first id k t ps in
    let (b, found, _) = (subst (All (Snapped r.buffer)) e v.snapped).0 in
    let (m', acked) = ack_found r.buffer k t found in
    let (s, done, v') = acknowledge-IsSound id v in
    let result = acknowledge_result r id k t known acked done in
    (
      s,
      ground (arith, done),
      v',
      ap (λ (x : Reactor). x.pending_snapshots) (sym result)
          ∙ ap (erase_pending id) e
          ∙ erase_first id k t ps,
      ap (λ (x : Reactor). x.batch_id_counter) (sym result),
      ap (λ (x : Reactor). get_all_keys x.buffer) (sym result)
          ∙ get_all_keys-ack r.buffer k t acked,
    )

read_all-Acknowledged :
    {room : ℕ} (ps : Pending) {r : Reactor}
    → IsSound room r
    → r.pending_snapshots ≡ ps
    → Acknowledged room r (ids ps)
read_all-Acknowledged [] {r} v e = (r, refl, v, e, refl, refl)
read_all-Acknowledged ((id, k, t) ∷ ps) {r} v e =
    let (r', done, v', e', counter', keys') = on_read_done_next id k t ps v e in
    let (s, rest, v'', e'', counter'', keys'') = read_all-Acknowledged ps v' e' in
    (s, ground (arith, done, rest), v'', e'', counter'' ∙ counter', keys'' ∙ keys')

-- After the first half of `drain` nothing is pending.
deliver-Acknowledged :
    {room : ℕ} {r : Reactor}
    → IsSound room r
    → (s : Reactor) × (deliver r ≡ some s)
      × IsSound room s
      × (s.pending_snapshots ≡ [])
      × (s.batch_id_counter ≡ r.batch_id_counter)
      × (get_all_keys s.buffer ≡ get_all_keys r.buffer)
deliver-Acknowledged {r = r} v =
    let only = flush_only (length r.writer.queue) r in
    let (s, read, v', none_pending, counter, keys) =
      read_all-Acknowledged r.pending_snapshots (flush-IsSound (length r.writer.queue) v)
        (ap (λ (x : Reactor). x.pending_snapshots) only) in
    (
      s,
      read,
      v',
      none_pending,
      counter ∙ ap (λ (x : Reactor). x.batch_id_counter) only,
      keys ∙ ap (λ (x : Reactor). get_all_keys x.buffer) only,
    )

module _ (key : BufferKey) where
  pub pushed-acked_batch :
      (r : Reactor) (id : ℕ) (g : Ledger) → (acked_batch key r id g).pushed ≡ g.pushed
  pushed-acked_batch r id g = ground arith

  pub overrun-acked_batch :
      (r : Reactor) (id : ℕ) (g : Ledger) → (acked_batch key r id g).overrun ≡ g.overrun
  overrun-acked_batch r id g = ground arith

  -- The steps of `drain` end, and leave nothing of the series unsent.
  pub drain-empties :
      {room : ℕ} {r : Reactor}
      → IsSound room r
      → r.batch_id_counter + length (get_all_keys r.buffer) < 2 ^ 64
      → (r1 r2 s : Reactor) × (started : Option MetricBatch) × (deliver r ≡ some r1)
        × (r1.batch_id_counter + length (get_all_keys r1.buffer) < 2 ^ 64)
        × (poll r1 ≡ some (r2, started))
        × (deliver r2 ≡ some s)
        × (s.pending_snapshots ≡ [])
        × (unsent (ring s.buffer key) ≡ [])
  drain-empties {r = r} v h =
      let (r1, read1, v1, none_pending, counter, keys) = deliver-Acknowledged v in
      let small : r1.batch_id_counter + length (get_all_keys r1.buffer) < 2 ^ 64 =
        omega (arith, counter, ap length keys) in
      let (r2, started, polled, (s, read2, _, e, empties)) =
        poll-drains key v1 none_pending small in
      (r1, r2, s, started, read1, small, polled, read2, e, empties)
