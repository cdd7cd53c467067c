-- ===== src/Tests/Sessions.antt =====
-- The client's session, at short conversations.
use volta.Prelude.{
  ℕ, ◌≡◌, refl, ◌+◌, true, false, some, none, List, [], ◌∷◌, ◌++◌, Text, text, if◌then◌else◌,
}
use volta.Client.Writer.{idle, write, push}
use volta.Client.Writer.Fifo.{
  Traced, start, Reach, here, next, pushes, writes, IsFifo, Reach-IsFifo, to_list,
}
use volta.Client.Connect.{MessageType, ControlMessage, await, any_done, stopped_rounds, await_lem}
use volta.Client.Session.{Client, on_message, receive, save_uuid, connect}
use volta.Client.Session.Replies.{answers, streams, as_number, queue-on_message, streams-receive}
use volta.Client.Session.Uuid.{connect-save_uuid}

abbrev fresh : Client
fresh = record {
  connect_reactor = record { writer = idle; status = 0; done = false };
  id = [];
  uuid_file = none;
  has_buffer = true;
  streaming = false;
}

abbrev asks : MessageType → Text → ControlMessage
asks type payload = record { type = type; payload = payload }

queue-on_message_example :
    (on_message fresh (asks MessageType.ping [])).0.connect_reactor.writer.queue
    ≡ fresh.connect_reactor.writer.queue ++ answers fresh MessageType.ping []
queue-on_message_example = queue-on_message fresh (asks MessageType.ping [])

abbrev twice : List ControlMessage
twice = asks MessageType.stream_data [] ∷ asks MessageType.stream_data [] ∷ []

streams-receive_example :
    streams (receive fresh twice).1 + as_number fresh.streaming
    ≡ as_number (receive fresh twice).0.streaming
streams-receive_example = streams-receive twice fresh

abbrev known : Client
known = record fresh { uuid_file = some (text "a1") }

abbrev later : Client
later = record fresh { uuid_file = (save_uuid fresh (text "b2")).0.uuid_file }

connect-save_uuid_example :
    ((save_uuid fresh (text "b2")).0.id ≡ text "b2") × ((connect later).0.id ≡ text "b2")
connect-save_uuid_example =
    connect-save_uuid fresh later (text "b2") refl refl (refl, (refl, tt)) refl

await_lem_example : await ((false, false) ∷ (false, true) ∷ (true, true) ∷ []) ≡ (
    if any_done ((false, false) ∷ (false, true) ∷ (true, true) ∷ [])
    then some (stopped_rounds ((false, false) ∷ (false, true) ∷ (true, true) ∷ []))
    else none)
await_lem_example = await_lem ((false, false) ∷ (false, true) ∷ (true, true) ∷ [])

-- Two messages are pushed and the first is given to gRPC.
abbrev pushed_two : Traced ℕ
pushed_two = record {
  writer = push (push idle 1) 2;
  pushed = 1 ∷ 2 ∷ [];
  started = [];
  written = [];
}

abbrev started_one : Traced ℕ
started_one = record {
  writer = (write (push (push idle 1) 2)).0;
  pushed = 1 ∷ 2 ∷ [];
  started = to_list (write (push (push idle 1) 2)).1;
  written = [];
}

started_one-Reach : Reach ℕ started_one
started_one-Reach = next (next (next here (pushes (start ℕ) 1)) (pushes _ 2)) (writes pushed_two)

Reach-IsFifo_example : IsFifo ℕ started_one
Reach-IsFifo_example = Reach-IsFifo ℕ started_one-Reach
