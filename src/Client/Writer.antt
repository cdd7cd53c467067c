-- ===== src/Client/Writer.antt =====
-- sources/agent/src/client/iwriter.h, and the write paths of connect_reactor.cc and
-- stream_metrics_reactor.cc, which are the same: a queue and the flag of the write in progress.
-- Each function runs under one lock. A call of `StartWrite` is handed out as the message.
pub mod Fifo
pub mod Waiting
pub mod Moving
use volta.Prelude.{
  Bool, true, false, ◌||◌, Option, none, some, List, [], ◌∷◌, ◌++◌, if◌then◌else◌, is_empty,
}

pub record Writer {ℓ} (A : Type ℓ) : Type ℓ where
  pub queue : List A
  pub writing : Bool

module _ {ℓ} {A : Type ℓ} where
  abbrev pub idle : Writer A
  idle = record { queue = []; writing = false }

  -- `writerqu_.push`
  unfoldable pub push : Writer A → A → Writer A
  push w msg = record w { queue = w.queue ++ msg ∷ [] }

  -- `front`; the guard of `Write` rules the empty queue out.
  abbrev pub front : List A → Option A
  front [] = none
  front (x ∷ _) = some x

  -- `pop`; on an empty queue it would be undefined, and `Fifo` rules that out.
  abbrev pub pop : List A → List A
  pop [] = []
  pop (_ ∷ xs) = xs

  -- `Write`: the message given to `StartWrite`, if one is started.
  unfoldable pub write : Writer A → Writer A × Option A
  write w =
      if w.writing || is_empty w.queue
      then (w, none)
      else (record w { writing = true }, front w.queue)

  -- `EnqueueWrite` of the control stream.
  unfoldable pub enqueue_write : Writer A → A → Writer A × Option A
  unfolding push write
  enqueue_write w msg = write (push w msg)

  -- `OnWriteDone`: a failed write changes nothing.
  unfoldable pub on_write_done : Writer A → Bool → Writer A × Option A
  unfolding write
  on_write_done w false = (w, none)
  on_write_done w true = write (record w { queue = pop w.queue; writing = false })
