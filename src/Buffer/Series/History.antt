-- ===== src/Buffer/Series/History.antt =====
-- A ring beside all samples that were ever pushed to it: it holds the last of them.
use volta.Prelude.{
  ℕ, ◌+◌, ◌-◌, ◌≤◌, ◌<◌, ◌^◌, ◌≡◌, refl, sym, ap, ◌∙◌, List, [], ◌∷◌, ◌++◌, arith, length, take,
  drop, take_all, keep_last, length-append, length-drop, drop-append_le, drop-drop,
}
use volta.Buffer.Series.{
  Sample, SeriesBuffer, Snapshot, new, push, push_all, snapshot_of, ack_snapshot,
}
use volta.Buffer.Series.Bounds.{IsValid, push_all-IsValid, head-ack_snapshot, capacity-push}
use volta.Buffer.Series.Unsent.{
  unsent, length-unsent, push_all_refines, unsent-ack_snapshot, head-push_all,
}

-- `head_` counts the pushes, and the unsent samples are the last of them.
pub record Follows (b : SeriesBuffer) (pushed : List Sample) : Type 0 where
  pub counted : b.head ≡ length pushed
  pub window : unsent b ≡ drop b.tail pushed

pub new-Follows : (capacity : ℕ) → Follows (new capacity) []
unfolding new snapshot_of
new-Follows capacity = record { counted = refl; window = refl }

pub tail-ack_snapshot :
    (b : SeriesBuffer) (t : Snapshot) → (ack_snapshot b t).tail ≡ b.tail + (t.end - b.tail)
unfolding ack_snapshot
tail-ack_snapshot b t = ground arith

capacity-push_all : (xs : List Sample) (b : SeriesBuffer) → (push_all b xs).capacity ≡ b.capacity
unfolding push_all
capacity-push_all [] b = refl
capacity-push_all (x ∷ xs) b = capacity-push_all xs (push b x) ∙ capacity-push b x

module _ (xs : List Sample) {b : SeriesBuffer} (v : IsValid b) (p : 0 < b.capacity)
    (w : b.head + length xs < 2 ^ 64) where
  -- The pushes move `tail_` by what does not fit.
  pub tail-push_all : (push_all b xs).tail ≡ b.tail + (b.head - b.tail + length xs - b.capacity)
  tail-push_all =
      let total = length-append (unsent b) xs in
      let left =
        ap length (push_all_refines xs v p w)
        ∙ length-drop (length (unsent b ++ xs) - b.capacity) (unsent b ++ xs) in
      omega (
        arith,
        total,
        left,
        length-unsent b,
        length-unsent (push_all b xs),
        head-push_all xs b p w,
        (push_all-IsValid xs v w).ordered,
        v.ordered,
        v.bounded,
      )

  pub push_all-Follows :
      {pushed : List Sample} → Follows b pushed → Follows (push_all b xs) (pushed ++ xs)
  push_all-Follows {pushed} f = record {
    counted = omega (arith, head-push_all xs b p w, f.counted, length-append pushed xs);
    window =
        push_all_refines xs v p w
        ∙ ap (λ u. keep_last b.capacity (u ++ xs)) f.window
        ∙ ap (keep_last b.capacity)
            (sym (drop-append_le b.tail pushed xs (omega (arith, f.counted, v.ordered))))
        ∙ drop-drop (length (drop b.tail (pushed ++ xs)) - b.capacity) b.tail (pushed ++ xs)
        ∙ ap (λ k. drop k (pushed ++ xs))
            (omega (
              arith,
              tail-push_all,
              f.counted,
              length-append pushed xs,
              length-drop b.tail (pushed ++ xs),
              v.ordered,
            ));
  }

module _ {b : SeriesBuffer} (t : Snapshot) (v : IsValid b) (h : t.end ≤ b.head) where
  pub ack_snapshot-Follows :
      {pushed : List Sample} → Follows b pushed → Follows (ack_snapshot b t) pushed
  ack_snapshot-Follows {pushed} f = record {
    counted = head-ack_snapshot b t ∙ f.counted;
    window =
        unsent-ack_snapshot t v h
        ∙ ap (drop (t.end - b.tail)) f.window
        ∙ drop-drop (t.end - b.tail) b.tail pushed
        ∙ ap (λ k. drop k pushed) (omega (arith, tail-ack_snapshot b t));
  }

-- A snapshot holds the pieces of the pushes from `tail_` to its end.
pub samples-snapshot_of :
    {b : SeriesBuffer} {pushed : List Sample}
    → Follows b pushed
    → (snapshot_of b).samples ≡ take (b.head - b.tail) (drop b.tail pushed)
samples-snapshot_of {b} {pushed} f =
    f.window
    ∙ sym (
        take_all (b.head - b.tail) (drop b.tail pushed)
          (omega (arith, f.counted, length-drop b.tail pushed)))
