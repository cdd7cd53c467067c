-- ===== src/Client/Session/Uuid.antt =====
-- The agent's UUID: it is stored once, and what was stored is what a restart reads.
use volta.Prelude.{◌≡◌, refl, true, false, none, some, List, [], ◌∷◌, arith, Text, is_empty, Free}
use volta.Client.Connect.{MessageType, ControlMessage}
use volta.Client.Session.{Client, first_line, save_uuid, dispatch, on_read_done, receive, connect}

dispatch_keeps :
    (type : MessageType) (c : Client) (payload u : Text)
    → c.uuid_file ≡ some u
    → (dispatch type c payload).0.uuid_file ≡ some u
unfolding dispatch
dispatch_keeps MessageType.ping c payload u h = h
dispatch_keeps MessageType.id c payload u h = ground arith
dispatch_keeps type c payload u h = ground arith

on_read_done_keeps :
    (c : Client) (msg : ControlMessage) (u : Text)
    → c.uuid_file ≡ some u
    → (on_read_done c true msg).0.uuid_file ≡ some u
unfolding on_read_done
on_read_done_keeps c msg u h = dispatch_keeps msg.type c msg.payload u h

-- Once a UUID is stored, no sequence of messages from the server changes the file.
receive-uuid_file :
    (msgs : List ControlMessage) (c : Client) (u : Text)
    → c.uuid_file ≡ some u
    → (receive c msgs).0.uuid_file ≡ some u
unfolding receive
receive-uuid_file [] c u h = h
receive-uuid_file (msg ∷ msgs) c u h =
    receive-uuid_file msgs (on_read_done c true msg).0 u (on_read_done_keeps c msg u h)

first_line_lem : (t : Text) → Free 10 t → first_line t ≡ t
unfolding first_line
first_line_lem [] h = refl
first_line_lem (c ∷ t) h = ground (arith, first_line_lem t)

-- A UUID that the server assigns, not empty and without a line feed, to a client with none, is the
-- client's id, and is the id of a client that connects later with that file.
pub connect-save_uuid :
    (c later : Client) (uuid : Text)
    → c.uuid_file ≡ none
    → is_empty uuid ≡ false
    → Free 10 uuid
    → later.uuid_file ≡ (save_uuid c uuid).0.uuid_file
    → ((save_uuid c uuid).0.id ≡ uuid) × ((connect later).0.id ≡ uuid)
unfolding save_uuid connect
connect-save_uuid c later uuid h e f l = ground (arith, first_line_lem uuid f)
