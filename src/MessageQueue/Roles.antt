-- ===== src/MessageQueue/Roles.antt =====
-- Who may do what with a queue.
use volta.Prelude.{◌≤◌, ◌<◌, ◌≡◌, ◌↔◌, Bool, true, false, List, [], ◌∷◌, arith, Text, length}
use volta.MessageQueue.{
  MessageQueue, sender, receiver, ok, err, logic_error, invalid_argument, Action, mq_send, arm,
  disarm, unlink, send, listen, stop_listening,
}

-- `send` calls `mq_send` exactly for a sender and a message of at most the queue's size, and returns
-- what `mq_send` says; a receiver is a logic error, a longer message an invalid argument.
send_lem :
    (q : MessageQueue) (text : Text) (sent : Bool)
    → (send q text sent ≡ ok (sent, mq_send text ∷ [])
        ↔ (q.role ≡ sender) × (length text ≤ q.max_msg_size))
      × (send q text sent ≡ err logic_error ↔ q.role ≡ receiver)
      × (send q text sent ≡ err invalid_argument
          ↔ (q.role ≡ sender) × (q.max_msg_size < length text))
unfolding send
send_lem q text sent = ground arith

-- A queue that listens and is stopped is disarmed and its name is removed; only a receiver listens,
-- and listening twice arms the notification once.
listen-stop_listening :
    (q q' : MessageQueue) (handler armed : Bool) (actions : List Action)
    → q.listening ≡ false
    → listen q handler armed ≡ ok (q', actions)
    → (q.role ≡ receiver)
      × (armed ≡ true)
      × (actions ≡ arm ∷ [])
      × (listen q' handler armed ≡ ok (q', []))
      × (stop_listening q' ≡ (record q' { listening = false }, disarm ∷ unlink ∷ []))
unfolding listen stop_listening
listen-stop_listening q q' handler armed actions l e = ground arith
