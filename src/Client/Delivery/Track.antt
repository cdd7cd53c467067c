-- ===== src/Client/Delivery/Track.antt =====
-- One ring beside its ledger: what was acknowledged lies before `tail_`, in order.
use mathlib.Core.List.{Sublist}
use mathlib.Core.List.Sublist
use volta.Prelude.{
  ℕ, ◌+◌, ◌-◌, ◌≤◌, ◌<◌, ◌^◌, ◌≡◌, refl, sym, ap, ap₂, ◌∙◌, subst, false, List, [], ◌∷◌, ◌++◌,
  arith, length, drop, take, All, All-mono, length-append, length-drop, drop-append_le, take-append,
  take_piece, take-take-sublist,
}
use volta.Buffer.Series.{Sample, SeriesBuffer, Snapshot, push_all, snapshot_of, ack_snapshot}
use volta.Buffer.Series.Bounds.{IsValid, end-snapshot_of}
use volta.Buffer.Series.Unsent.{unsent, length-unsent}
use volta.Buffer.Series.History.{
  Follows, tail-push_all, push_all-Follows, ack_snapshot-Follows, tail-ack_snapshot,
  samples-snapshot_of,
}
use volta.Client.Delivery.{Ledger, push_entries, ack_entries}

-- A snapshot is a piece of what was pushed, and begins no earlier than the last acknowledgement ends.
pub record Piece (upto : ℕ) (g : Ledger) (t : Snapshot) : Type 0 where
  pub start : ℕ
  pub later : upto ≤ start
  pub ordered : start ≤ t.end
  pub bounded : t.end ≤ length g.pushed
  pub samples : t.samples ≡ take (t.end - start) (drop start g.pushed)
  pub next : g.overrun ≡ false → start ≡ upto

-- The acknowledged samples are among the first `upto` that were pushed, and are just those where
-- none was dropped.
pub record Tracked (b : SeriesBuffer) (ts : List Snapshot) (g : Ledger) : Type 0 where
  pub upto : ℕ
  pub follows : Follows b g.pushed
  pub behind : upto ≤ b.tail
  pub in_order : Sublist g.acked (take upto g.pushed)
  pub exact : g.overrun ≡ false → (g.acked ≡ take upto g.pushed) × (upto ≡ b.tail)
  pub pieces : All (Piece upto g) ts
  pub single : length ts ≤ 1

module _ (xs : List Sample) (b : SeriesBuffer) {g : Ledger} where
  push-Piece : (upto : ℕ) (t : Snapshot) → Piece upto g t → Piece upto (push_entries b xs g) t
  push-Piece upto t p = record {
    start = p.start;
    later = p.later;
    ordered = p.ordered;
    bounded = omega (arith, p.bounded, length-append g.pushed xs);
    samples =
        p.samples
        ∙ sym (
            take-append (t.end - p.start) (drop p.start g.pushed) xs
              (omega (arith, length-drop p.start g.pushed, p.bounded)))
        ∙ ap (take (t.end - p.start))
            (sym (drop-append_le p.start g.pushed xs (omega (arith, p.ordered, p.bounded))));
    next = λ e. p.next (let f : g.overrun ≡ false = ground arith in f);
  }

  -- Pushes keep the ring and its ledger together.
  pub push-Tracked :
      {ts : List Snapshot}
      → IsValid b
      → 0 < b.capacity
      → b.head + length xs < 2 ^ 64
      → Tracked b ts g
      → Tracked (push_all b xs) ts (push_entries b xs g)
  push-Tracked {ts} v p w k = record {
    upto = k.upto;
    follows = push_all-Follows xs v p w k.follows;
    behind = omega (arith, tail-push_all xs v p w, k.behind);
    in_order = subst (Sublist g.acked) (sym kept) k.in_order;
    exact = λ e.
        let before : g.overrun ≡ false = ground arith in
        let fits : length (unsent b) + length xs ≤ b.capacity = ground arith in
        (
          (k.exact before).0 ∙ sym kept,
          omega (arith, (k.exact before).1, tail-push_all xs v p w, fits, length-unsent b),
        );
    pieces =
        All-mono (Piece k.upto g) (Piece k.upto (push_entries b xs g)) (push-Piece k.upto) ts
          k.pieces;
    single = k.single;
  }
    where
      kept : take k.upto (g.pushed ++ xs) ≡ take k.upto g.pushed
      kept = take-append k.upto g.pushed xs (omega (arith, k.behind, v.ordered, k.follows.counted))

module _ {b : SeriesBuffer} {g : Ledger} (v : IsValid b) where
  -- A snapshot of a ring with none pending.
  pub snapshot-Tracked : Tracked b [] g → Tracked b (snapshot_of b ∷ []) g
  snapshot-Tracked k = record {
    upto = k.upto;
    follows = k.follows;
    behind = k.behind;
    in_order = k.in_order;
    exact = k.exact;
    pieces = (
      record {
        start = b.tail;
        later = k.behind;
        ordered = omega (arith, v.ordered, end-snapshot_of b);
        bounded = omega (arith, end-snapshot_of b, k.follows.counted);
        samples =
            samples-snapshot_of k.follows
            ∙ ap (λ n. take (n - b.tail) (drop b.tail g.pushed)) (sym (end-snapshot_of b));
        next = λ e. sym (k.exact e).1;
      },
      tt,
    );
    single = omega arith;
  }

  -- The acknowledgement of the pending snapshot.
  pub ack-Tracked :
      (t : Snapshot) → Tracked b (t ∷ []) g → Tracked (ack_snapshot b t) [] (ack_entries t g)
  ack-Tracked t k = record {
    upto = t.end;
    follows = ack_snapshot-Follows t v (omega (arith, p.bounded, k.follows.counted)) k.follows;
    behind = omega (arith, tail-ack_snapshot b t);
    in_order = subst (Sublist (g.acked ++ t.samples)) (sym pieces) (
        Sublist.append
          (Sublist.trans k.in_order (take-take-sublist k.upto p.start g.pushed p.later))
          (Sublist.refl t.samples));
    exact = λ e. (
      ap₂ (λ xs ys. xs ++ ys) ((k.exact e).0 ∙ ap (λ n. take n g.pushed) (sym (p.next e))) refl
          ∙ sym pieces,
      omega (arith, tail-ack_snapshot b t, p.ordered, p.next e, (k.exact e).1),
    );
    pieces = tt;
    single = omega arith;
  }
    where
      p : Piece k.upto g t
      p = k.pieces.0

      pieces : take t.end g.pushed ≡ take p.start g.pushed ++ t.samples
      pieces =
          ap (λ n. take n g.pushed)
            (let e : t.end ≡ p.start + (t.end - p.start) = omega (arith, p.ordered) in e)
          ∙ take_piece p.start (t.end - p.start) g.pushed
          ∙ ap (λ l. take p.start g.pushed ++ l) (sym p.samples)
