-- ===== src/Client/Connect.antt =====
-- sources/agent/src/client/connect_reactor.h and connect_reactor.cc: the control stream.
-- The calls of gRPC are handed out as actions, in order; what is printed is left out.
use volta.Prelude.{
  ℕ, ◌≡◌, refl, Bool, true, false, ◌||◌, Option, none, some, List, [], ◌∷◌, ◌++◌, arith, Text,
  if◌then◌else◌,
}
use volta.Client.Writer
use volta.Client.Writer.{Writer}

-- `MessageType`; proto3 keeps a number that it does not know.
pub data MessageType : Type 0 where
  unknown send_data stream_data ok error ping pong id : MessageType
  other : ℕ → MessageType

-- `ControlMessage`, with the fields that the agent reads or writes; an unset payload reads empty.
pub record ControlMessage : Type 0 where
  pub type : MessageType
  pub payload : Text

pub data Action : Type 0 where
  add_metadata : Text → Action
  start_call start_read try_cancel notify_one create_stream : Action
  start_write : ControlMessage → Action

-- `grpc::Status`, as its code
pub record ConnectReactor : Type 0 where
  pub writer : Writer ControlMessage
  pub status : ℕ
  pub done : Bool

-- `CreateMessage`: only an error carries the payload.
unfoldable pub create_message : MessageType → Text → ControlMessage
create_message MessageType.error payload = record { type = MessageType.error; payload = payload }
create_message type payload = record { type = type; payload = [] }

abbrev pub started : Option ControlMessage → List Action
started none = []
started (some msg) = start_write msg ∷ []

-- `EnqueueWrite`
unfoldable pub enqueue_write : ConnectReactor → ControlMessage → ConnectReactor × List Action
enqueue_write r msg = (
  record r { writer = (Writer.enqueue_write r.writer msg).0 },
  started (Writer.enqueue_write r.writer msg).1,
)

-- `OnWriteDone`
unfoldable pub on_write_done : ConnectReactor → Bool → ConnectReactor × List Action
on_write_done r written = (
  record r { writer = (Writer.on_write_done r.writer written).0 },
  started (Writer.on_write_done r.writer written).1,
)

-- `OnDone`
unfoldable pub on_done : ConnectReactor → ℕ → ConnectReactor × List Action
on_done r status = (record r { status = status; done = true }, notify_one ∷ [])

-- The constructor: the agent's id goes into the metadata, and a MESSAGE_ID is the first message.
unfoldable pub open_stream : Text → ConnectReactor × List Action
unfolding enqueue_write create_message
open_stream agent_id =
    let (r, writes) =
      enqueue_write (record { writer = Writer.idle; status = 0; done = false })
        (create_message MessageType.id []) in
    (r, add_metadata agent_id ∷ (writes ++ start_read ∷ start_call ∷ []))

-- The loop of `Await` over what it observes at the head of each round: whether the stream is done
-- and whether the agent runs. `none`: it still waits after these rounds.
unfoldable pub await : List (Bool × Bool) → Option (List Action)
await [] = none
await ((done, running) ∷ rounds) =
    let rest = await rounds in
    let cancels : List Action = if running then [] else try_cancel ∷ [] in
    if done then some [] else elim rest [ none ↦ none | some actions ↦ some (cancels ++ actions) ]

abbrev pub any_done : List (Bool × Bool) → Bool
any_done [] = false
any_done ((done, _) ∷ rounds) = done || any_done rounds

-- The rounds before the stream is done in which the agent was stopped.
abbrev pub stopped_rounds : List (Bool × Bool) → List Action
stopped_rounds [] = []
stopped_rounds ((done, running) ∷ rounds) =
    let rest = stopped_rounds rounds in
    if done then [] else if running then rest else try_cancel ∷ rest

-- `Await` returns exactly if the stream is done in some round, having cancelled the call once in
-- each earlier round in which the agent was stopped, and in no other.
pub await_lem :
    (rounds : List (Bool × Bool))
    → await rounds ≡ (if any_done rounds then some (stopped_rounds rounds) else none)
unfolding await
await_lem [] = refl
await_lem ((done, running) ∷ rounds) = ground (arith, await_lem rounds)
