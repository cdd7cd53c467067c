-- ===== src/Client/Writer/Moving.antt =====
-- A writer that rests only where nothing waits: what each call keeps, and how completed writes empty it.
use volta.Prelude.{◌≡◌, true, arith, is_empty, not, List-cases}
use volta.Client.Writer.{Writer, pop, write, on_write_done}
use volta.Client.Writer.Waiting.{IsBusy}

module _ {ℓ} {A : Type ℓ} where
  -- A write is in progress exactly while the queue is not empty.
  abbrev pub IsMoving : Writer A → Type 0
  IsMoving w = w.writing ≡ not (is_empty w.queue)

  pub write-IsMoving : (w : Writer A) → IsBusy w → IsMoving (write w).0
  unfolding write
  write-IsMoving w h = ground (arith, List-cases w.queue, h)

  pub on_write_done-IsMoving : (w : Writer A) → IsMoving (on_write_done w true).0
  unfolding on_write_done write
  on_write_done-IsMoving w = ground (arith, List-cases (pop w.queue))

  pub queue-on_write_done : (w : Writer A) → (on_write_done w true).0.queue ≡ pop w.queue
  unfolding on_write_done write
  queue-on_write_done w = ground (arith, List-cases (pop w.queue))
