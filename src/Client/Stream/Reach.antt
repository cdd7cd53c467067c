-- ===== src/Client/Stream/Reach.antt =====
-- The metric stream beside the scheduler and the server, as a step relation. A round of the poll thread is
-- one step.
use volta.Prelude.{ℕ, ◌+◌, ◌<◌, ◌^◌, ◌≡◌, subst, Bool, Option, some, List, arith, length}
use volta.Metric.{Metric}
use volta.Buffer.Metrics.{add_metrics, get_all_keys}
use volta.Client.Stream.{MetricBatch, Reactor, poll, on_read_done, on_write_done}
use volta.Client.Stream.Valid.{IsSound, add_metrics-IsSound}
use volta.Client.Stream.Rounds.{poll-IsSound, on_write_done-IsSound}
use volta.Client.Stream.Acks.{on_read_done-IsSound}

-- The steps of the stream beside the scheduler, with the room for samples that is left. The premise
-- of a poll says that the batch ids do not wrap.
pub data Step : ℕ → Reactor → ℕ → Reactor → Type 0 where
  collects :
      (ms : List Metric) (room : ℕ) (r : Reactor)
      → (total : ℕ) → total ≡ length ms + room
      → Step total r room (record r { buffer = add_metrics r.buffer ms })
  polls :
      (room : ℕ) (r r' : Reactor) (started : Option MetricBatch)
      → r.batch_id_counter + length (get_all_keys r.buffer) < 2 ^ 64
      → poll r ≡ some (r', started)
      → Step room r room r'
  writes_done : (room : ℕ) (r : Reactor) (ok : Bool) → Step room r room (on_write_done r ok).0
  reads_done :
      (room : ℕ) (r r' : Reactor) (ok : Bool) (id : ℕ) (again : Bool)
      → on_read_done r ok id ≡ some (r', again)
      → Step room r room r'

pub data Reach (n : ℕ) (r : Reactor) : ℕ → Reactor → Type 0 where
  here : Reach n r n r
  next : {k l : ℕ} {s t : Reactor} → Reach n r k s → Step k s l t → Reach n r l t

poll_result :
    {room : ℕ} {r r' : Reactor} {started : Option MetricBatch}
    → IsSound room r
    → r.batch_id_counter + length (get_all_keys r.buffer) < 2 ^ 64
    → poll r ≡ some (r', started)
    → IsSound room r'
poll_result {room} {r' = r'} v h e =
    let (s, _, done, w) = poll-IsSound v h in
    subst (IsSound room) (let same : s ≡ r' = ground arith in same) w

read_result :
    {room : ℕ} {r r' : Reactor} (ok : Bool) (id : ℕ) {again : Bool}
    → IsSound room r
    → on_read_done r ok id ≡ some (r', again)
    → IsSound room r'
read_result {room} {r' = r'} ok id v e =
    let (s, _, done, w) = on_read_done-IsSound ok id v in
    subst (IsSound room) (let same : s ≡ r' = ground arith in same) w

pub Step-IsSound : {k l : ℕ} {s t : Reactor} → Step k s l t → IsSound k s → IsSound l t
Step-IsSound (collects ms room r total e) v = add_metrics-IsSound ms (subst (λ n. IsSound n r) e v)
Step-IsSound (polls room r r' started h e) v = poll_result v h e
Step-IsSound (writes_done room r ok) v = on_write_done-IsSound ok v
Step-IsSound (reads_done room r r' ok id again e) v = read_result ok id v e

-- Whatever the scheduler, the poll thread and the server do, in any order, and whatever ids the
-- server acknowledges, the stream stays sound as long as the counters of the rings and the batch ids
-- do not wrap: the rings are valid, every pending snapshot ends no later than the pushes of a ring
-- that exists, and the pending ids are distinct and used.
pub Reach-IsSound :
    {n : ℕ} {r : Reactor} {l : ℕ} {t : Reactor} → IsSound n r → Reach n r l t → IsSound l t
Reach-IsSound v here = v
Reach-IsSound v (next q st) = Step-IsSound st (Reach-IsSound v q)
