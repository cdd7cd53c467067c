-- ===== src/Client/Session.antt =====
-- sources/agent/src/client/volta_collector_client.h and volta_collector_client.cc: the client.
-- The UUID file is a part of the state: `some` is its content where the file exists. Writes to the
-- file system are taken to succeed. The pointers to the buffer and to the stream reactor are the
-- flags that say whether they are set.
pub mod Replies
pub mod Uuid
use volta.Prelude.{
  ℕ, Bool, true, false, not, Option, none, some, List, [], ◌∷◌, ◌++◌, Text, text, is_some, is_empty,
  if◌then◌else◌, ◌==◌,
}
use volta.Client.Writer.{idle}
use volta.Client.Connect.{
  MessageType, ControlMessage, Action, ConnectReactor, create_message, enqueue_write, open_stream,
  on_write_done, on_done, create_stream, start_read,
}

pub record Client : Type 0 where
  pub connect_reactor : ConnectReactor
  pub id : Text
  pub uuid_file : Option Text
  pub has_buffer : Bool
  pub streaming : Bool

-- `CreateChannel`, with whether gRPC gives a channel, and whether that connects within five seconds; the
-- result says whether a channel is returned.
unfoldable pub create_channel : Bool → Bool → Bool
create_channel given connected = if not given then false else connected

-- The constructor; `Connect` makes the reactor.
unfoldable pub create : Option Text → Bool → Client
create uuid_file has_buffer = record {
  connect_reactor = record { writer = idle; status = 0; done = false };
  id = [];
  uuid_file = uuid_file;
  has_buffer = has_buffer;
  streaming = false;
}

-- `std::getline`: up to the first line feed.
unfoldable pub first_line : Text → Text
first_line [] = []
first_line (c ∷ cs) = let rest = first_line cs in if c == 10 then [] else c ∷ rest

-- `LoadUUID`: the id that is read, or the old one where the file cannot be opened, and the result.
unfoldable pub load_uuid : Option Text → Text → Text × Bool
unfolding first_line
load_uuid none id = (id, false)
load_uuid (some content) id = (first_line content, not (is_empty (first_line content)))

-- `connect_reactor_->EnqueueWrite(connect_reactor_->CreateMessage(type, payload))`
unfoldable pub reply : Client → MessageType → Text → Client × List Action
unfolding create_message
reply c type payload =
    let (r, actions) = enqueue_write c.connect_reactor (create_message type payload) in
    (record c { connect_reactor = r }, actions)

unfoldable pub save_uuid : Client → Text → Client × List Action
unfolding reply
save_uuid c uuid =
    if is_empty uuid
    then reply c MessageType.error (text "Empty UUID received from server")
    else if is_some c.uuid_file
    then reply c MessageType.error (text "UUID file already exists on agent")
    else (record c { uuid_file = some uuid; id = uuid }, [])

unfoldable pub send_data : Client → Client × List Action
unfolding reply
send_data c = reply c MessageType.ok []

-- A new stream reactor is `create_stream`; its `OnDone` only prints, so the pointer stays set.
unfoldable pub stream_data : Client → Client × List Action
unfolding reply
stream_data c =
    if not c.has_buffer
    then reply c MessageType.error (text "Metrics buffer is null")
    else if c.streaming
    then reply c MessageType.error (text "StreamData RPC already active")
    else let (c', actions) = reply (record c { streaming = true }) MessageType.ok [] in
      (c', create_stream ∷ actions)

-- The `switch` of `OnMessage`; the last clause is `default`.
unfoldable pub dispatch : MessageType → Client → Text → Client × List Action
unfolding reply save_uuid send_data stream_data
dispatch MessageType.ping c payload = reply c MessageType.pong []
dispatch MessageType.pong c payload = (c, [])
dispatch MessageType.send_data c payload = send_data c
dispatch MessageType.stream_data c payload = stream_data c
dispatch MessageType.error c payload = (c, [])
dispatch MessageType.ok c payload = (c, [])
dispatch MessageType.id c payload = save_uuid c payload
dispatch _ c payload = (c, [])

unfoldable pub on_message : Client → ControlMessage → Client × List Action
unfolding dispatch
on_message c msg = dispatch msg.type c msg.payload

-- `ConnectReactor::OnReadDone`: the handler, then the next read.
unfoldable pub on_read_done : Client → Bool → ControlMessage → Client × List Action
unfolding on_message
on_read_done c false msg = (c, [])
on_read_done c true msg = let (c', actions) = on_message c msg in (c', actions ++ start_read ∷ [])

-- `Connect`, up to the wait.
unfoldable pub connect : Client → Client × List Action
unfolding load_uuid
connect c =
    let agent_id : Text = (load_uuid c.uuid_file c.id).0 in
    let (r, actions) = open_stream agent_id in
    (record c { id = agent_id; connect_reactor = r }, actions)

-- The messages of the server in order.
unfoldable pub receive : Client → List ControlMessage → Client × List Action
unfolding on_read_done
receive c [] = (c, [])
receive c (msg ∷ msgs) =
    let (c1, actions) = on_read_done c true msg in
    let (c2, more) = receive c1 msgs in (c2, actions ++ more)
