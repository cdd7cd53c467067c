-- ===== src/Client/Writer/Waiting.antt =====
-- What a writer still has to give to `StartWrite`, without a trace of what it was given: pushes add to
-- its end, and each call takes from its front what it starts.
use volta.Prelude.{
  ◌≡◌, refl, ◌∙◌, Bool, true, false, List, [], ◌∷◌, ◌++◌, arith, is_empty, if◌then◌else◌,
  List-cases,
}
use volta.Client.Writer.{Writer, push, pop, write, on_write_done}
use volta.Client.Writer.Fifo.{to_list}

module _ {ℓ} {A : Type ℓ} where
  -- The messages that were not started yet.
  abbrev pub waiting : Writer A → List A
  waiting w = if w.writing then pop w.queue else w.queue

  -- A message is in the queue while it is being written.
  abbrev pub IsBusy : Writer A → Type 0
  IsBusy w = w.writing ≡ true → is_empty w.queue ≡ false

  pub waiting-push :
      (w : Writer A) (msg : A) → IsBusy w → waiting (push w msg) ≡ waiting w ++ msg ∷ []
  unfolding push
  waiting-push w msg h = ground (arith, List-cases w.queue, h)

  pub push-IsBusy : (w : Writer A) (msg : A) → IsBusy w → IsBusy (push w msg)
  unfolding push
  push-IsBusy w msg h e = ground (arith, List-cases w.queue, h)

  pub waiting-write : (w : Writer A) → to_list (write w).1 ++ waiting (write w).0 ≡ waiting w
  unfolding write
  waiting-write w = ground (arith, List-cases w.queue)

  pub write-IsBusy : (w : Writer A) → IsBusy w → IsBusy (write w).0
  unfolding write
  write-IsBusy w h e = ground (arith, h)

  pub waiting-on_write_done :
      (w : Writer A) (ok : Bool)
      → w.writing ≡ true
      → to_list (on_write_done w ok).1 ++ waiting (on_write_done w ok).0 ≡ waiting w
  unfolding on_write_done
  waiting-on_write_done w false h = refl
  waiting-on_write_done w true h =
      waiting-write (record w { queue = pop w.queue; writing = false })
      ∙ (let q : pop w.queue ≡ waiting w = ground arith in q)

  pub on_write_done-IsBusy : (w : Writer A) (ok : Bool) → IsBusy w → IsBusy (on_write_done w ok).0
  unfolding on_write_done
  on_write_done-IsBusy w false h = h
  on_write_done-IsBusy w true h =
      write-IsBusy (record w { queue = pop w.queue; writing = false }) (λ q. absurd (ground arith))
