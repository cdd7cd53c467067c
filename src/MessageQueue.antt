-- ===== src/MessageQueue.antt =====
-- sources/agent/src/message_queue.h and message_queue.cc: the queue of commands to the agent.
-- The POSIX calls are not the program's: their results are arguments, and the calls made are handed
-- out in order. An exception is the `err` of a result; the text of its message is left out.
pub mod Drain
pub mod Roles
use volta.Prelude.{
  ℕ, Bool, true, false, not, ◌||◌, Option, none, some, List, [], ◌∷◌, ◌++◌, Text, is_empty, length,
  ltb, ◌==◌, if◌then◌else◌,
}

pub data Role : Type 0 where
  sender receiver : Role

pub data Failure : Type 0 where
  invalid_argument logic_error runtime_error : Failure

pub data Result (A : Type 0) : Type 0 where
  ok : A → Result A
  err : Failure → Result A

-- The calls of POSIX that a method makes, and the messages given to the handler.
pub data Action : Type 0 where
  unlink open_read_create open_write arm disarm close : Action
  handled mq_send mq_timedsend : Text → Action

pub record MessageQueue : Type 0 where
  pub name : Text
  pub role : Role
  pub max_msg_size : ℕ
  pub is_open : Bool
  pub has_handler : Bool
  pub listening : Bool

abbrev is_receiver : Role → Bool
is_receiver receiver = true
is_receiver sender = false

-- `name.empty() || name[0] != '/'`
abbrev is_bad_name : Text → Bool
is_bad_name [] = true
is_bad_name (c ∷ _) = not (c == b'/')

-- `open_queue`, with whether `mq_open` succeeds. Both roles open the queue non-blocking.
unfoldable pub open_queue : MessageQueue → Bool → Result (MessageQueue × List Action)
open_queue q opened =
    if opened
    then ok (
      record q { is_open = true },
      (if is_receiver q.role then unlink ∷ open_read_create ∷ [] else open_write ∷ []),
    )
    else err runtime_error

unfoldable pub create : Text → Role → ℕ → Bool → Result (MessageQueue × List Action)
unfolding open_queue
create name role max_msg_size opened =
    if is_bad_name name
    then err invalid_argument
    else open_queue
        (record {
          name = name;
          role = role;
          max_msg_size = max_msg_size;
          is_open = false;
          has_handler = false;
          listening = false;
        })
        opened

-- `arm_notify`, with whether `mq_notify` succeeds.
unfoldable pub arm_notify : MessageQueue → Bool → List Action → Result (MessageQueue × List Action)
arm_notify q armed actions = if armed then ok (q, actions ++ arm ∷ []) else err runtime_error

-- What one `mq_receive` returns.
pub data Receive : Type 0 where
  message : Text → Receive
  again : Receive
  failed : Receive

abbrev pub handle : MessageQueue → Text → List Action → List Action
handle q text actions = if q.has_handler then actions ++ handled text ∷ [] else actions

-- The loop of `drain_and_rearm` over what the calls of `mq_receive` return; `none` where it has not
-- ended after them. `armed` is the result of the last `mq_notify`.
unfoldable pub drain_loop :
    MessageQueue → Bool → List Action → List Receive → Option (Result (MessageQueue × List Action))
unfolding arm_notify
drain_loop q armed actions [] = none
drain_loop q armed actions (message text ∷ rest) = drain_loop q armed (handle q text actions) rest
drain_loop q armed actions (again ∷ rest) =
    some (if q.listening then arm_notify q armed actions else ok (q, actions))
drain_loop q armed actions (failed ∷ rest) = some (ok (record q { listening = false }, actions))

unfoldable pub drain_and_rearm :
    MessageQueue → Bool → List Receive → Option (Result (MessageQueue × List Action))
unfolding drain_loop
drain_and_rearm q armed receives = drain_loop q armed [] receives

-- `send`: the result of `mq_send` is returned as it is.
unfoldable pub send : MessageQueue → Text → Bool → Result (Bool × List Action)
send q text sent =
    if is_receiver q.role
    then err logic_error
    else if ltb q.max_msg_size (length text)
    then err invalid_argument
    else ok (sent, mq_send text ∷ [])

unfoldable pub send_nonblocking : MessageQueue → Text → Bool → Result (Bool × List Action)
send_nonblocking q text sent =
    if is_receiver q.role
    then err logic_error
    else if ltb q.max_msg_size (length text)
    then err invalid_argument
    else ok (sent, mq_timedsend text ∷ [])

unfoldable pub listen : MessageQueue → Bool → Bool → Result (MessageQueue × List Action)
unfolding arm_notify
listen q has_handler armed =
    if not (is_receiver q.role)
    then err logic_error
    else if q.listening
    then ok (q, [])
    else arm_notify (record q { has_handler = has_handler; listening = true }) armed []

unfoldable pub stop_listening : MessageQueue → MessageQueue × List Action
stop_listening q =
    if not q.listening then (q, []) else (record q { listening = false }, disarm ∷ unlink ∷ [])

-- `pending_count`: the number that `mq_getattr` gives, if it succeeds.
unfoldable pub pending_count : MessageQueue → Option ℕ → Result ℕ
pending_count q none = err runtime_error
pending_count q (some n) = ok n

-- The destructor.
unfoldable pub destroy : MessageQueue → List Action
unfolding stop_listening
destroy q =
    (stop_listening q).1
    ++ (if q.is_open then close ∷ (if is_receiver q.role then unlink ∷ [] else []) else [])
