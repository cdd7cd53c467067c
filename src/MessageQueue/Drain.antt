-- ===== src/MessageQueue/Drain.antt =====
-- A notification hands every message in the queue to the handler before it is armed again.
use volta.Prelude.{
  ◌≡◌, sym, ap, ◌∙◌, Bool, true, false, some, List, [], ◌∷◌, ◌++◌, map, arith, Text, append_assoc,
  append-nil, if◌then◌else◌,
}
use volta.MessageQueue.{
  MessageQueue, Result, ok, err, runtime_error, Action, handled, arm, Receive, message, again,
  failed, handle, drain_loop, drain_and_rearm,
}

-- What the drain ends with, once the queue is empty.
abbrev pub rearmed : MessageQueue → Bool → List Action → Result (MessageQueue × List Action)
rearmed q armed actions =
    if q.listening
    then (if armed then ok (q, actions ++ arm ∷ []) else err runtime_error)
    else ok (q, actions)

handle_set :
    (q : MessageQueue) (t : Text) (actions : List Action)
    → q.has_handler ≡ true
    → handle q t actions ≡ actions ++ handled t ∷ []
handle_set q t actions h = ground arith

drain_loop_all :
    (texts : List Text) (q : MessageQueue) (armed : Bool) (actions : List Action)
    (rest : List Receive)
    → q.has_handler ≡ true
    → drain_loop q armed actions (map message texts ++ again ∷ rest)
      ≡ some (rearmed q armed (actions ++ map handled texts))
unfolding drain_loop
drain_loop_all [] q armed actions rest h =
    ap (λ a. some (rearmed q armed a)) (sym (append-nil actions))
drain_loop_all (t ∷ texts) q armed actions rest h =
    ap (λ a. drain_loop q armed a (map message texts ++ again ∷ rest)) (handle_set q t actions h)
    ∙ drain_loop_all texts q armed (actions ++ handled t ∷ []) rest h
    ∙ ap (λ a. some (rearmed q armed a)) (append_assoc actions (handled t ∷ []) (map handled texts))

drain_loop_failed :
    (texts : List Text) (q : MessageQueue) (armed : Bool) (actions : List Action)
    (rest : List Receive)
    → q.has_handler ≡ true
    → drain_loop q armed actions (map message texts ++ failed ∷ rest)
      ≡ some (ok (record q { listening = false }, actions ++ map handled texts))
unfolding drain_loop
drain_loop_failed [] q armed actions rest h =
    ap (λ (a : List Action). some (ok (record q { listening = false }, a)))
      (sym (append-nil actions))
drain_loop_failed (t ∷ texts) q armed actions rest h =
    ap (λ a. drain_loop q armed a (map message texts ++ failed ∷ rest)) (handle_set q t actions h)
    ∙ drain_loop_failed texts q armed (actions ++ handled t ∷ []) rest h
    ∙ ap (λ (a : List Action). some (ok (record q { listening = false }, a)))
        (append_assoc actions (handled t ∷ []) (map handled texts))

-- With a handler set, the drain gives the handler every message received, in order. Where the queue
-- is then found empty, the notification is armed again exactly if the queue is still listening;
-- where `mq_receive` fails otherwise, listening stops and nothing is armed.
pub drain_and_rearm-all :
    (texts : List Text) (q : MessageQueue) (armed : Bool) (rest : List Receive)
    → q.has_handler ≡ true
    → (drain_and_rearm q armed (map message texts ++ again ∷ rest)
        ≡ some (rearmed q armed (map handled texts)))
      × (drain_and_rearm q armed (map message texts ++ failed ∷ rest)
          ≡ some (ok (record q { listening = false }, map handled texts)))
unfolding drain_and_rearm
drain_and_rearm-all texts q armed rest h =
    (drain_loop_all texts q armed [] rest h, drain_loop_failed texts q armed [] rest h)
