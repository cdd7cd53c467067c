-- ===== src/Buffer/Metrics/Acks.antt =====
-- Acknowledgements through the map of rings.
use mathlib.Core.Option
use volta.Prelude.{ℕ, ◌≤◌, ◌≡◌, ap, sym, ◌∙◌, some, arith, subst, if◌then◌else◌}
use volta.Buffer.Keys.{BufferKey, key_eq}
use volta.Buffer.Series.{SeriesBuffer, Snapshot, ack_snapshot}
use volta.Buffer.Series.Bounds.{ack_snapshot-IsValid, capacity-ack_snapshot, head-ack_snapshot}
use volta.Buffer.Metrics.{MetricsBuffer, find, update, get_buffer, ack}
use volta.Buffer.Metrics.Lookup.{find-update, All-update, keys-update}
use volta.Buffer.Metrics.Valid.{Fits, IsConsistent, Distinct-update}

ack-Fits :
    {c room : ℕ} {b : SeriesBuffer} (t : Snapshot)
    → Fits c room b
    → t.end ≤ b.head
    → Fits c room (ack_snapshot b t)
ack-Fits {c} {room} {b} t f h = record {
  valid = ack_snapshot-IsValid t f.valid h;
  sized = capacity-ack_snapshot b t ∙ f.sized;
  headroom = omega (arith, head-ack_snapshot b t, f.headroom);
}

ack_result :
    (m : MetricsBuffer) (key : BufferKey) (t : Snapshot) {m' : MetricsBuffer}
    → ack m key t ≡ some m'
    → record m { series = update key (λ b. ack_snapshot b t) m.series } ≡ m'
unfolding ack
ack_result m key t e = ground arith

-- Acknowledging a snapshot that ends no later than its ring's pushes keeps the map consistent.
pub ack-IsConsistent :
    {room : ℕ} {m m' : MetricsBuffer} (key : BufferKey) (t : Snapshot)
    → IsConsistent room m
    → ((b : SeriesBuffer) → get_buffer m key ≡ some b → t.end ≤ b.head)
    → ack m key t ≡ some m'
    → IsConsistent room m'
unfolding ack
ack-IsConsistent {room} {m} {m'} key t v h e =
    subst (IsConsistent room) (ack_result m key t e) (record {
      listed = v.listed ∙ sym (keys-update key (λ b. ack_snapshot b t) m.series);
      distinct = Distinct-update key (λ b. ack_snapshot b t) m.series v.distinct;
      rings =
          All-update (Fits m.capacity_per_series room) (Fits m.capacity_per_series room) key
            (λ b. ack_snapshot b t) m.series (λ b found f. ack-Fits t f (h b found)) (λ b f. f)
            v.rings;
      small = v.small;
    })

-- What an acknowledgement does to a lookup.
pub get_buffer-ack :
    (m : MetricsBuffer) (key j : BufferKey) (t : Snapshot) {m' : MetricsBuffer}
    → ack m key t ≡ some m'
    → get_buffer m' j ≡ (
        if key_eq key j
        then Option.map (λ b. ack_snapshot b t) (get_buffer m j)
        else get_buffer m j)
unfolding get_buffer
get_buffer-ack m key j t {m'} e =
    ap (λ (n : MetricsBuffer). find j n.series) (sym (ack_result m key t e))
    ∙ find-update key j (λ b. ack_snapshot b t) m.series

pub ack_found :
    (m : MetricsBuffer) (key : BufferKey) (t : Snapshot) {b : SeriesBuffer}
    → get_buffer m key ≡ some b
    → (m' : MetricsBuffer) × (ack m key t ≡ some m')
unfolding ack
ack_found m key t e =
    (record m { series = update key (λ b. ack_snapshot b t) m.series }, ground arith)

pub capacity-ack :
    (m : MetricsBuffer) (key : BufferKey) (t : Snapshot) {m' : MetricsBuffer}
    → ack m key t ≡ some m'
    → m'.capacity_per_series ≡ m.capacity_per_series
capacity-ack m key t e = ap (λ n. n.capacity_per_series) (sym (ack_result m key t e))
