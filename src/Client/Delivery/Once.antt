-- ===== src/Client/Delivery/Once.antt =====
-- Delivery from end to end: every sample at most once and in order, and none is lost unless its ring
-- ran over.
use mathlib.Core.List.{Sublist}
use mathlib.Core.List.Sublist
use native.Mathlib.Nat.{le-div_iff_mul-le}
use volta.Prelude.{
  ℕ, ◌-◌, ◌*◌, ◌/◌, ◌≤◌, ◌<◌, ◌^◌, ◌≡◌, refl, sym, ap, ap₂, ◌∙◌, subst, false, some, [], ◌++◌,
  arith, Bool-cases, inl, inr, ◌==◌, take, take-sublist, take-append-drop,
}
use volta.Buffer.Series.{new}
use volta.Buffer.Series.Unsent.{unsent}
use volta.Buffer.Series.History.{new-Follows}
use volta.Buffer.Keys.{BufferKey}
use volta.Buffer.Metrics.{MetricsBuffer, get_buffer, create, find}
use volta.Buffer.Metrics.Lookup.{ring}
use volta.Buffer.Metrics.Valid.{IsConsistent, create-IsConsistent}
use volta.Client.Stream.{opened, Reactor}
use volta.Client.Stream.Reach.{Reach}
use volta.Client.Delivery.{no_entries, ledger}
use volta.Client.Delivery.Steps.{Delivers, Reach-Delivers}

tail-new : (c : ℕ) → 0 ≡ (new c).tail
unfolding new
tail-new c = refl

-- The buffer that a configuration gives: empty, and its rings have room for a sample if the time window
-- holds an interval.
pub created :
    (window interval : ℕ) {m : MetricsBuffer}
    → create window interval ≡ some m
    → (0 < interval)
      × (record { capacity_per_series = window / interval; series = []; keys = [] } ≡ m)
unfolding create
created window interval {m} e = elim (Bool-cases (interval == 0)) [
  | inl zero_interval ↦ absurd (ground arith)
  | inr positive ↦ (ground arith, ground arith)
]

-- A time window that holds an interval gives the rings room for a sample.
pub room-created :
    (window interval : ℕ) {m : MetricsBuffer}
    → create window interval ≡ some m
    → interval ≤ window
    → 0 < m.capacity_per_series
room-created window interval made wide =
    let (positive, same) = created window interval made in
    omega (
      arith,
      ap (λ (n : MetricsBuffer). n.capacity_per_series) same,
      (le-div_iff_mul-le positive).1 (let enough : 1 * interval ≤ window = omega arith in enough),
    )

-- A new ring has nothing pending and nothing pushed.
pub opened-Delivers :
    (key : BufferKey) (window interval : ℕ) {m : MetricsBuffer}
    → create window interval ≡ some m
    → Delivers key m.capacity_per_series (2 ^ 64 - 1) (opened m) no_entries
unfolding create get_buffer find
opened-Delivers key window interval {m} e =
    subst
      (λ (m : MetricsBuffer). Delivers key m.capacity_per_series (2 ^ 64 - 1) (opened m) no_entries)
      (created window interval e).1
      (record {
        sound = record {
          buffer =
              subst (IsConsistent (2 ^ 64 - 1)) (sym (created window interval e).1)
                (create-IsConsistent window interval e);
          snapped = tt;
          fresh = tt;
          distinct = tt;
          counted = omega arith;
        };
        sized = refl;
        kept = record {
          upto = 0;
          follows = new-Follows (window / interval);
          behind = omega arith;
          in_order = Sublist.refl [];
          exact = λ _. (refl, tail-new (window / interval));
          pieces = tt;
          single = omega arith;
        };
      })

module _ (key : BufferKey) (window interval : ℕ) {m : MetricsBuffer} {l : ℕ} {t : Reactor}
    (made : create window interval ≡ some m) (wide : interval ≤ window)
    (q : Reach (2 ^ 64 - 1) (opened m) l t) where
  pub delivers : Delivers key m.capacity_per_series l t (ledger key q)
  delivers =
      Reach-Delivers key m.capacity_per_series (room-created window interval made wide) q
        (opened-Delivers key window interval made)

  -- From a stream opened over the buffer of a configuration whose time window holds at least one
  -- interval, whatever the scheduler, the poll thread and the server do, and in whatever order: the
  -- samples of a series that the server has acknowledged are some of those that were collected for
  -- it, in the order of collection, and none of them twice. The counters of the rings and the batch
  -- ids do not wrap along the run.
  pub delivered_once : Sublist (ledger key q).acked (ledger key q).pushed
  delivered_once =
      Sublist.trans delivers.kept.in_order (take-sublist delivers.kept.upto (ledger key q).pushed)

  -- On a run as in `delivered_once`, from a configuration's buffer whose time window holds an interval
  -- and without wraps, on which the series' ring never held more than its capacity when samples came,
  -- none is lost: the acknowledged samples, followed by those that the ring still has to send, are all
  -- that were collected for the series, each once and in order.
  pub delivered_all :
      (ledger key q).overrun ≡ false
      → (ledger key q).acked ++ unsent (ring t.buffer key) ≡ (ledger key q).pushed
  delivered_all e =
      let k = delivers.kept in
      ap₂ (λ xs ys. xs ++ ys) ((k.exact e).0 ∙ ap (λ n. take n (ledger key q).pushed) (k.exact e).1)
        k.follows.window
      ∙ take-append-drop (ring t.buffer key).tail (ledger key q).pushed
