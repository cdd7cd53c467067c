-- ===== src/Client/Delivery/Steps.antt =====
-- Every step of the stream keeps a series beside its ledger.

use volta.Prelude.{
  ℕ, ◌+◌, ◌<◌, ◌≡◌, refl, sym, ap, ◌∙◌, subst, Bool, true, false, some, List, arith, length,
  if◌then◌else◌, Option-cases, List-cases, inl, inr,
}
use volta.Metric.{Metric}
use volta.Buffer.Series.{push_all, new}
use volta.Buffer.Keys.{BufferKey}
use volta.Buffer.Metrics.{MetricsBuffer, get_buffer, add_metrics}
use volta.Buffer.Metrics.Lookup.{ring}
use volta.Buffer.Metrics.Series.{
  samples_for, samples_for-le, get_buffer-add_metrics, capacity-add_metrics,
}
use volta.Buffer.Metrics.Valid.{IsConsistent, Fits, new-Fits, get_buffer-Fits}
use volta.Client.Stream.{Reactor, on_read_done, on_write_done, acknowledge}
use volta.Client.Stream.Valid.{IsSound}
use volta.Client.Stream.Reach.{
  Step, Reach, here, next, collects, polls, writes_done, reads_done, Step-IsSound,
}
use volta.Client.Delivery.{Ledger, no_entries, push_entries, ledger, acked_batch}
use volta.Client.Delivery.Track.{push-Tracked}
use volta.Client.Delivery.Batches.{Kept, Tracked-congr}
use volta.Client.Delivery.Rounds.{poll-Kept, acknowledge-Kept}

pub ring-Fits :
    {room : ℕ} {m : MetricsBuffer} (key : BufferKey)
    → IsConsistent room m
    → Fits m.capacity_per_series room (ring m key)
ring-Fits {room} {m} key v = elim (Option-cases (get_buffer m key)) [
  | inl none_yet ↦
      subst (Fits m.capacity_per_series room)
        (let q : new m.capacity_per_series ≡ ring m key = ground arith in q)
        (new-Fits m.capacity_per_series room v.small)
  | inr (b, found) ↦
      subst (Fits m.capacity_per_series room) (let q : b ≡ ring m key = ground arith in q)
        (get_buffer-Fits key v found)
]

ring-add_metrics :
    (ms : List Metric) (m : MetricsBuffer) (key : BufferKey)
    → push_all (ring m key) (samples_for key ms) ≡ ring (add_metrics m ms) key
unfolding push_all
ring-add_metrics ms m key = elim (List-cases (samples_for key ms)) [
  | inl e ↦ ground (arith, get_buffer-add_metrics ms m key, capacity-add_metrics ms m)
  | inr (x, xs, e) ↦ ground (arith, get_buffer-add_metrics ms m key)
]

module _ (key : BufferKey) (c : ℕ) where
  -- What holds of a reactor and the ledger of a series after a run.
  pub record Delivers (room : ℕ) (r : Reactor) (g : Ledger) : Type 0 where
    pub sound : IsSound room r
    pub sized : r.buffer.capacity_per_series ≡ c
    pub kept : Kept key r g

  collects-Kept :
      (ms : List Metric) (room : ℕ) {r : Reactor} {g : Ledger}
      → 0 < c
      → Delivers (length ms + room) r g
      → Kept key
          (record r { buffer = add_metrics r.buffer ms })
          (push_entries (ring r.buffer key) (samples_for key ms) g)
  collects-Kept ms room {r} {g} pos d =
      let fits = ring-Fits key d.sound.buffer in
      Tracked-congr (ring-add_metrics ms r.buffer key) refl (
        push-Tracked (samples_for key ms) (ring r.buffer key) fits.valid
          (omega (arith, fits.sized, d.sized)) (omega (arith, fits.headroom, samples_for-le key ms))
          d.kept)

  on_read_done-Kept :
      {room : ℕ} {r r' : Reactor} {g : Ledger} (ok : Bool) (id : ℕ) {again : Bool}
      → IsSound room r
      → on_read_done r ok id ≡ some (r', again)
      → Kept key r g
      → Kept key r' (if ok then acked_batch key r id g else g)
        × (r'.buffer.capacity_per_series ≡ r.buffer.capacity_per_series)
  unfolding on_read_done
  on_read_done-Kept {r = r} {r'} {g} false id v e k =
      let result : r ≡ r' = ground arith in
      (
        subst (λ s. Kept key s g) result k,
        ap (λ (s : Reactor). s.buffer.capacity_per_series) (sym result),
      )
  on_read_done-Kept {r = r} {r'} true id v e k = elim (Option-cases (acknowledge r id)) [
    | inl null ↦ absurd (ground arith)
    | inr (s, done) ↦
        acknowledge-Kept key id v (done ∙ (let q : some s ≡ some r' = ground arith in q)) k
  ]

  Step-Delivers :
      (pos : 0 < c) {n k l : ℕ} {r s t : Reactor} (q : Reach n r k s) (st : Step k s l t)
      → Delivers k s (ledger key q)
      → Delivers l t (ledger key (next q st))
  unfolding on_write_done
  Step-Delivers pos q (collects ms room r total e) d = record {
    sound = Step-IsSound (collects ms room r total e) d.sound;
    sized = capacity-add_metrics ms r.buffer ∙ d.sized;
    kept = collects-Kept ms room pos (subst (λ n. Delivers n r (ledger key q)) e d);
  }
  Step-Delivers pos q (polls room r r' started h e) d =
      let (kept, same) = poll-Kept key d.sound h e d.kept in
      record {
        sound = Step-IsSound (polls room r r' started h e) d.sound;
        sized = ap (λ (m : MetricsBuffer). m.capacity_per_series) same ∙ d.sized;
        kept = kept;
      }
  Step-Delivers pos q (writes_done room r ok) d = record {
    sound = Step-IsSound (writes_done room r ok) d.sound;
    sized = d.sized;
    kept = d.kept;
  }
  Step-Delivers pos q (reads_done room r r' ok id again e) d =
      let (kept, same) = on_read_done-Kept ok id d.sound e d.kept in
      record {
        sound = Step-IsSound (reads_done room r r' ok id again e) d.sound;
        sized = same ∙ d.sized;
        kept = kept;
      }

  pub Reach-Delivers :
      (pos : 0 < c) {n : ℕ} {r : Reactor} {l : ℕ} {t : Reactor} (q : Reach n r l t)
      → Delivers n r no_entries
      → Delivers l t (ledger key q)
  Reach-Delivers pos here d = d
  Reach-Delivers pos (next q st) d = Step-Delivers pos q st (Reach-Delivers pos q d)
