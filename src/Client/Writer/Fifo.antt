-- ===== src/Client/Writer/Fifo.antt =====
-- Whatever the interleaving of pushes, calls of `Write` and completions, the messages reach
-- `StartWrite` in the order of the pushes, each once, and one at a time.
use volta.Prelude.{
  ◌≡◌, refl, sym, ap, ◌∙◌, true, false, Option, none, some, List, [], ◌∷◌, ◌++◌, arith, append-nil,
  append_assoc, is_empty, if◌then◌else◌, ◌||◌, List-cases,
}
use volta.Client.Writer.{Writer, idle, push, front, pop, write, enqueue_write, on_write_done}

abbrev pub to_list {ℓ} : {A : Type ℓ} → Option A → List A
to_list none = []
to_list (some x) = x ∷ []

module _ {ℓ} (A : Type ℓ) where
  -- A writer with the messages pushed, given to `StartWrite`, and reported as written so far.
  pub record Traced : Type ℓ where
    pub writer : Writer A
    pub pushed : List A
    pub started : List A
    pub written : List A

  abbrev pub start : Traced
  start = record { writer = idle; pushed = []; started = []; written = [] }

  -- gRPC reports a write done only where one is in progress.
  pub data Step : Traced → Traced → Type ℓ where
    pushes :
        (t : Traced) (msg : A)
        → Step t (record t { writer = push t.writer msg; pushed = t.pushed ++ msg ∷ [] })
    writes :
        (t : Traced)
        → Step t (record t {
          writer = (write t.writer).0;
          started = t.started ++ to_list (write t.writer).1;
        })
    completes :
        (t : Traced)
        → t.writer.writing ≡ true
        → Step t (record t {
          writer = (on_write_done t.writer true).0;
          started = t.started ++ to_list (on_write_done t.writer true).1;
          written = t.written ++ to_list (front t.writer.queue);
        })
    fails :
        (t : Traced)
        → t.writer.writing ≡ true
        → Step t (record t { writer = (on_write_done t.writer false).0 })

  pub data Reach : Traced → Type ℓ where
    here : Reach start
    next : {t u : Traced} → Reach t → Step t u → Reach u

  abbrev in_progress : Writer A → List A
  in_progress w = if◌then◌else◌ w.writing (to_list (front w.queue)) []

  pub record IsFifo (t : Traced) : Type ℓ where
    -- What is not written yet is queued, in order.
    pub queued : t.pushed ≡ t.written ++ t.writer.queue
    -- What was started is written, but for the head of the queue while it is being written.
    pub one_at_a_time : t.started ≡ t.written ++ in_progress t.writer
    -- The queue is not empty while a write is in progress, so `pop` is defined.
    pub busy : t.writer.writing ≡ true → is_empty t.writer.queue ≡ false

  start-IsFifo : IsFifo start
  start-IsFifo = record { queued = refl; one_at_a_time = refl; busy = λ h. cc }

  front-append : (q r : List A) → is_empty q ≡ false → front (q ++ r) ≡ front q
  front-append [] r h = cc
  front-append (x ∷ q) r h = refl

  is_empty-append : (q r : List A) → is_empty q ≡ false → is_empty (q ++ r) ≡ false
  is_empty-append [] r h = cc
  is_empty-append (x ∷ q) r h = refl

  front-pop : (q : List A) → to_list (front q) ++ pop q ≡ q
  front-pop [] = refl
  front-pop (x ∷ q) = refl

  queue-write : (w : Writer A) → (write w).0.queue ≡ w.queue
  unfolding write
  queue-write w = ground arith

  -- A write is started exactly where none was in progress and something is queued.
  in_progress-write :
      (w : Writer A) → in_progress (write w).0 ≡ in_progress w ++ to_list (write w).1
  unfolding write
  in_progress-write w = ground (arith, List-cases w.queue, append-nil (to_list (front w.queue)))

  busy-write :
      (w : Writer A)
      → (w.writing ≡ true → is_empty w.queue ≡ false)
      → (write w).0.writing ≡ true
      → is_empty (write w).0.queue ≡ false
  unfolding write
  busy-write w h = ground arith

  Step-IsFifo : {t u : Traced} → Step t u → IsFifo t → IsFifo u
  unfolding push on_write_done
  Step-IsFifo (pushes t msg) v = record {
    queued = ap (λ l. l ++ msg ∷ []) v.queued ∙ append_assoc t.written t.writer.queue (msg ∷ []);
    one_at_a_time = ground (arith, v.one_at_a_time, v.busy, front-append t.writer.queue (msg ∷ []));
    busy = ground (arith, v.busy, is_empty-append t.writer.queue (msg ∷ []));
  }
  Step-IsFifo (writes t) v = record {
    queued = v.queued ∙ ap (λ q. t.written ++ q) (sym (queue-write t.writer));
    one_at_a_time =
        ap (λ l. l ++ to_list (write t.writer).1) v.one_at_a_time
        ∙ append_assoc t.written (in_progress t.writer) (to_list (write t.writer).1)
        ∙ ap (λ l. t.written ++ l) (sym (in_progress-write t.writer));
    busy = busy-write t.writer v.busy;
  }
  Step-IsFifo (completes t h) v = record {
    queued =
        v.queued
        ∙ ap (λ q. t.written ++ q) (sym (front-pop t.writer.queue))
        ∙ sym (append_assoc t.written (to_list (front t.writer.queue)) (pop t.writer.queue))
        ∙ ap (λ q. (t.written ++ to_list (front t.writer.queue)) ++ q) (sym (queue-write popped));
    one_at_a_time =
        ap (λ l. l ++ to_list (write popped).1)
          (v.one_at_a_time ∙ ap (λ (l : List A). t.written ++ l) (rw h))
        ∙ ap (λ l. (t.written ++ to_list (front t.writer.queue)) ++ l)
            (sym (in_progress-write popped));
    busy = busy-write popped (λ q. cc);
  }
    where
      popped : Writer A
      popped = record { queue = pop t.writer.queue; writing = false }
  Step-IsFifo (fails t h) v = v

  -- Whatever the interleaving of pushes, calls of `Write` and completed or failed writes, gRPC has
  -- been given the pushed messages in order, each once: those that it has written and, while a write
  -- is in progress, the one at the head of the queue; all others wait in the queue.
  pub Reach-IsFifo : {t : Traced} → Reach t → IsFifo t
  Reach-IsFifo here = start-IsFifo
  Reach-IsFifo (next r st) = Step-IsFifo st (Reach-IsFifo r)

-- Where every push is followed by `Write`, as on the control stream, no message waits while the
-- writer is idle: an enqueue or a successful completion leaves a write in progress or no message.
abbrev IsBusyOrEmpty {ℓ} : {A : Type ℓ} → Writer A → Type 0
IsBusyOrEmpty w = (w.writing || is_empty w.queue) ≡ true

enqueue_write-IsBusyOrEmpty {ℓ} :
    {A : Type ℓ} (w : Writer A) (msg : A) → IsBusyOrEmpty (enqueue_write w msg).0
unfolding enqueue_write
enqueue_write-IsBusyOrEmpty w msg = ground arith

on_write_done-IsBusyOrEmpty {ℓ} :
    {A : Type ℓ} (w : Writer A) → IsBusyOrEmpty (on_write_done w true).0
unfolding on_write_done
on_write_done-IsBusyOrEmpty w = ground arith
