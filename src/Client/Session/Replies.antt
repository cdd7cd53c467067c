-- ===== src/Client/Session/Replies.antt =====
-- What the client answers to each message, and that it starts at most one stream.
use volta.Prelude.{
  ℕ, suc, ◌+◌, ◌≡◌, refl, sym, Bool, true, false, not, Option, none, some, List, [], ◌∷◌, ◌++◌,
  arith, Text, text, is_some, is_empty, if◌then◌else◌, append-nil, Bool-cases, inl, inr,
}
use volta.Client.Writer
use volta.Client.Writer.{Writer}
use volta.Client.Connect.{
  MessageType, ControlMessage, Action, ConnectReactor, create_message, enqueue_write, create_stream,
  start_write, start_read, started,
}
use volta.Client.Session.{
  Client, reply, dispatch, on_message, on_read_done, receive, stream_data, save_uuid, send_data,
}

abbrev plain : MessageType → ControlMessage
plain type = record { type = type; payload = [] }

abbrev failure : Text → ControlMessage
failure payload = record { type = MessageType.error; payload = payload }

-- The protocol: the messages with which a message is answered.
abbrev pub answers : Client → MessageType → Text → List ControlMessage
answers c MessageType.ping payload = plain MessageType.pong ∷ []
answers c MessageType.send_data payload = plain MessageType.ok ∷ []
answers c MessageType.stream_data payload =
    (if not c.has_buffer
      then failure (text "Metrics buffer is null")
      else if c.streaming
      then failure (text "StreamData RPC already active")
      else plain MessageType.ok)
    ∷ []
answers c MessageType.id payload =
    if is_empty payload
    then failure (text "Empty UUID received from server") ∷ []
    else if is_some c.uuid_file
    then failure (text "UUID file already exists on agent") ∷ []
    else []
answers c _ payload = []

queue-enqueue_write :
    (r : ConnectReactor) (msg : ControlMessage)
    → (enqueue_write r msg).0.writer.queue ≡ r.writer.queue ++ msg ∷ []
unfolding enqueue_write Writer.enqueue_write
queue-enqueue_write r msg = ground arith

queue-dispatch :
    (c : Client) (type : MessageType) (payload : Text)
    → (dispatch type c payload).0.connect_reactor.writer.queue
      ≡ c.connect_reactor.writer.queue ++ answers c type payload
unfolding dispatch stream_data save_uuid
queue-dispatch c MessageType.ping payload =
    queue-enqueue_write c.connect_reactor (create_message MessageType.pong [])
queue-dispatch c MessageType.send_data payload =
    queue-enqueue_write c.connect_reactor (create_message MessageType.ok [])
queue-dispatch c MessageType.stream_data payload = elim (Bool-cases c.has_buffer) [
  | inl set ↦ elim (Bool-cases c.streaming) [
    | inl active ↦
        rw (set, active)
          (queue-enqueue_write c.connect_reactor (failure (text "StreamData RPC already active")))
    | inr free ↦ rw (set, free) (queue-enqueue_write c.connect_reactor (plain MessageType.ok))
  ]
  | inr unset ↦
      rw unset (queue-enqueue_write c.connect_reactor (failure (text "Metrics buffer is null")))
]
queue-dispatch c MessageType.id payload = elim (Bool-cases (is_empty payload)) [
  | inl e ↦
      rw e
        (queue-enqueue_write c.connect_reactor (failure (text "Empty UUID received from server")))
  | inr e ↦ elim (Bool-cases (is_some c.uuid_file)) [
    | inl f ↦
        rw (e, f)
          (queue-enqueue_write c.connect_reactor
            (failure (text "UUID file already exists on agent")))
    | inr f ↦ rw (e, f) (sym (append-nil c.connect_reactor.writer.queue))
  ]
]
queue-dispatch c type payload = sym (append-nil c.connect_reactor.writer.queue)

-- Each message of the server is answered by the messages of the protocol, appended to the write
-- queue in order, and by no other.
pub queue-on_message :
    (c : Client) (msg : ControlMessage)
    → (on_message c msg).0.connect_reactor.writer.queue
      ≡ c.connect_reactor.writer.queue ++ answers c msg.type msg.payload
unfolding on_message
queue-on_message c msg = queue-dispatch c msg.type msg.payload

abbrev pub streams : List Action → ℕ
streams [] = 0
streams (create_stream ∷ actions) = suc (streams actions)
streams (_ ∷ actions) = streams actions

abbrev pub as_number : Bool → ℕ
as_number true = 1
as_number false = 0

streams-started : (o : Option ControlMessage) → streams (started o) ≡ 0
streams-started none = refl
streams-started (some msg) = refl

streams-append : (xs ys : List Action) → streams (xs ++ ys) ≡ streams xs + streams ys
streams-append [] ys = omega arith
streams-append (create_stream ∷ xs) ys = omega (arith, streams-append xs ys)
streams-append (Action.add_metadata _ ∷ xs) ys = streams-append xs ys
streams-append (start_write _ ∷ xs) ys = streams-append xs ys
streams-append (_ ∷ xs) ys = streams-append xs ys

streams-reply :
    (c : Client) (type : MessageType) (payload : Text)
    → (streams (reply c type payload).1 ≡ 0) × ((reply c type payload).0.streaming ≡ c.streaming)
unfolding reply enqueue_write
streams-reply c type payload = (
  streams-started (Writer.enqueue_write c.connect_reactor.writer (create_message type payload)).1,
  refl,
)

streams-failure :
    (c : Client) (payload : Text)
    → streams (reply c MessageType.error payload).1 + as_number c.streaming
      ≡ as_number (reply c MessageType.error payload).0.streaming
unfolding reply
streams-failure c payload = omega (arith, streams-reply c MessageType.error payload)

-- A message starts a stream only where none was started, and the client then remembers it.
streams-dispatch :
    (c : Client) (type : MessageType) (payload : Text)
    → streams (dispatch type c payload).1 + as_number c.streaming
      ≡ as_number (dispatch type c payload).0.streaming
unfolding dispatch stream_data save_uuid send_data
streams-dispatch c MessageType.ping payload = omega (arith, streams-reply c MessageType.pong [])
streams-dispatch c MessageType.send_data payload = omega (arith, streams-reply c MessageType.ok [])
streams-dispatch c MessageType.stream_data payload = elim (Bool-cases c.has_buffer) [
  | inl set ↦ elim (Bool-cases c.streaming) [
    | inl active ↦
        rw (set, active) (rw active at (streams-failure c (text "StreamData RPC already active")))
    | inr free ↦
        rw (set, free)
          (omega (arith, streams-reply (record c { streaming = true }) MessageType.ok []))
  ]
  | inr unset ↦ rw unset (streams-failure c (text "Metrics buffer is null"))
]
streams-dispatch c MessageType.id payload = elim (Bool-cases (is_empty payload)) [
  | inl e ↦ rw e (streams-failure c (text "Empty UUID received from server"))
  | inr e ↦ elim (Bool-cases (is_some c.uuid_file)) [
    | inl f ↦ rw (e, f) (streams-failure c (text "UUID file already exists on agent"))
    | inr f ↦ rw (e, f) (omega arith)
  ]
]
streams-dispatch c type payload = omega arith

streams-on_read_done :
    (c : Client) (msg : ControlMessage)
    → streams (on_read_done c true msg).1 + as_number c.streaming
      ≡ as_number (on_read_done c true msg).0.streaming
unfolding on_read_done
streams-on_read_done c msg = omega (
  arith,
  streams-dispatch c msg.type msg.payload,
  streams-append (dispatch msg.type c msg.payload).1 (start_read ∷ []),
)

-- Over any sequence of messages of the server the client starts at most one stream of metrics; with
-- one started before, none.
pub streams-receive :
    (msgs : List ControlMessage) (c : Client)
    → streams (receive c msgs).1 + as_number c.streaming ≡ as_number (receive c msgs).0.streaming
unfolding receive
streams-receive [] c = omega arith
streams-receive (msg ∷ msgs) c = omega (
  arith,
  streams-on_read_done c msg,
  streams-append (on_read_done c true msg).1 (receive (on_read_done c true msg).0 msgs).1,
  streams-receive msgs (on_read_done c true msg).0,
)
