-- ===== src/Client/Stream/Poll.antt =====
-- The poll thread: stop and wait. While a batch is not acknowledged nothing more is queued.
use volta.Prelude.{
  ◌≡◌, refl, Bool, false, Option, none, some, List, [], ◌∷◌, arith, is_empty, ap, ◌∙◌,
}
use volta.Metric.{Metric}
use volta.Buffer.Metrics.{add_metrics}
use volta.Client.Stream.{MetricBatch, Reactor, poll, on_write_done}

-- What the scheduler, the poll thread and gRPC do while the server is silent.
pub data Quiet : Type 0 where
  collect : List Metric → Quiet
  round : Quiet
  written : Bool → Quiet

abbrev after_poll : Reactor → Option (Reactor × Option MetricBatch) → Reactor
after_poll r none = r
after_poll r (some (r', _)) = r'

unfoldable pub quiet_step : Reactor → Quiet → Reactor
quiet_step r (collect ms) = record r { buffer = add_metrics r.buffer ms }
quiet_step r round = after_poll r (poll r)
quiet_step r (written ok) = (on_write_done r ok).0

unfoldable pub quiet_run : Reactor → List Quiet → Reactor
unfolding quiet_step
quiet_run r [] = r
quiet_run r (q ∷ qs) = quiet_run (quiet_step r q) qs

quiet_step_keeps :
    (r : Reactor) (q : Quiet)
    → is_empty r.pending_snapshots ≡ false
    → ((quiet_step r q).pending_snapshots ≡ r.pending_snapshots)
      × ((quiet_step r q).batch_id_counter ≡ r.batch_id_counter)
unfolding quiet_step poll on_write_done
quiet_step_keeps r (collect ms) h = (refl, refl)
quiet_step_keeps r round h = ground arith
quiet_step_keeps r (written ok) h = (refl, refl)

-- While a batch is pending and the server acknowledges nothing, no batch is numbered and no snapshot
-- becomes pending, whatever is collected, polled or written.
pub quiet_run_keeps :
    (qs : List Quiet) (r : Reactor)
    → is_empty r.pending_snapshots ≡ false
    → ((quiet_run r qs).pending_snapshots ≡ r.pending_snapshots)
      × ((quiet_run r qs).batch_id_counter ≡ r.batch_id_counter)
unfolding quiet_run
quiet_run_keeps [] r h = (refl, refl)
quiet_run_keeps (q ∷ qs) r h =
    let (p, c) = quiet_step_keeps r q h in
    let (p', c') = quiet_run_keeps qs (quiet_step r q) (ap is_empty p ∙ h) in (p' ∙ p, c' ∙ c)
