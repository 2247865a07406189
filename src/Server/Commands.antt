-- ===== src/Server/Commands.antt =====
-- RTMPSession::HandleCommandMessage.
use live_streaming.Base.{
  ℕ, zero, suc, ◌+◌, ◌-◌, ◌*◌, ◌/◌, ◌^◌, Bool, true, false, List, [], ◌∷◌, ◌==◌, ◌&&◌, ◌||◌, leb,
  if◌then◌else◌, length, drop, Option, none, some, ℤ, pos, negsuc, update, bytes_eq, codes,
}
use live_streaming.Result.{Result, ok, aborts, ◌>>=◌}
use live_streaming.Stream.{Stream, ◌>>◌}
use live_streaming.Chunk.Sending.{Outgoing, serialize_chunks}
use live_streaming.Control.{
  serialize_ack_window_size, ack_window_size_type, serialize_set_peer_bandwidth,
  set_peer_bandwidth_type,
}
use live_streaming.Command.Marker
use live_streaming.Command.{
  ActionScriptObject, Dict, object, nil, entry, plain, CommandMessage, new_command,
  serialize_command, insert_entry,
}
use live_streaming.Room.Manager.{create_room, enter_room}
use live_streaming.Session.{
  RtmpSession, undefined, pull, push, Environment, append_output, set_need_close, write,
}
use live_streaming.Server.World.{World, on_session, make_sends}

-- The commands that the handler tells apart.
pub data CommandName : Type 0 where
  connect acknowledged create_stream publish play unanswered unknown : CommandName

unfoldable pub command_name : List ℕ → CommandName
command_name name =
    if bytes_eq name (codes "connect")
    then connect
    else if bytes_eq name (codes "releaseStream")
        || bytes_eq name (codes "FCPublish")
        || bytes_eq name (codes "FCUnpublish")
    then acknowledged
    else if bytes_eq name (codes "createStream")
    then create_stream
    else if bytes_eq name (codes "publish")
    then publish
    else if bytes_eq name (codes "play")
    then play
    else if bytes_eq name (codes "deleteStream") || bytes_eq name (codes "getStreamLength")
    then unanswered
    else unknown

unfoldable pub find_entry : List ℕ → Dict → Option ActionScriptObject
find_entry name nil = none
find_entry name (entry k v rest) = if bytes_eq k name then some v else find_entry name rest

abbrev pub string_value : ActionScriptObject → List ℕ
string_value (object m n s d) = s

abbrev pub dict_value : ActionScriptObject → Dict
dict_value (object m n s d) = d

abbrev pub is_digit : ℕ → Bool
is_digit c = leb b'0' c && leb c b'9'

-- The loop of "connect", on what is left of the URL from the index on: the index goes up, and the
-- null character behind the last one stops it.
unfoldable pub room_digits : List ℕ → ℕ → ℕ
room_digits [] room_id = room_id
room_digits (c ∷ rest) room_id =
    if is_digit c then room_digits rest (room_id * 10 + (c - b'0')) else room_id

-- The index starts at the last character.
unfoldable pub room_of_url : List ℕ → ℕ
unfolding room_digits
room_of_url url = room_digits (drop (length url - 1) url) 0

unfoldable pub connect_room : CommandMessage → ℤ → ℤ
unfolding room_of_url find_entry
connect_room c room_id = elim (find_entry (codes "tcUrl") (dict_value c.obj1)) [
  | none ↦ room_id
  | some url ↦ pos (room_of_url (string_value url))
]

-- A control or command message to send: the constructor leaves timestamp and stream id at 0.
abbrev pub outgoing : ℕ → Stream (Unit {0}) → Outgoing
outgoing type body = record { type = type; timestamp = 0; stream_id = 0; body = body }

abbrev pub command_type : ℕ
command_type = 20

-- A message for ByteStream(WriteDataBuffer()) << ChunkSerializeHelper(this, ...).
abbrev pub chunked : Environment → RtmpSession → Outgoing → Stream (Unit {0})
chunked env s m = serialize_chunks env.uptime s.max_chunk_size_for_sending m

unfoldable pub result_command : ℕ → ActionScriptObject → ActionScriptObject → CommandMessage
unfolding new_command
result_command id obj1 obj2 = record (new_command (codes "_result") id) { obj1 = obj1; obj2 = obj2 }

unfoldable pub string_object : List ℕ → ActionScriptObject
string_object s = object Marker.string 0 s nil

unfoldable pub status_command : ℕ → List ℕ → CommandMessage
unfolding new_command string_object insert_entry
status_command id code =
    let level = insert_entry (codes "level") (string_object (codes "info")) nil in
    let with_code = insert_entry (codes "code") (string_object code) level in
    let info =
      insert_entry (codes "description") (string_object (codes "NetStream.Publish.Start"))
        with_code in
    record (new_command (codes "onStatus") id) {
      obj1 = plain Marker.null_type;
      obj2 = object Marker.object 0 [] info;
    }

-- The conversion of a number below 2 ^ 53 to the bits of a double; `log` is its binary logarithm.
unfoldable pub log2 : ℕ → ℕ → ℕ
log2 zero n = 0
log2 (suc fuel) n = let rest = log2 fuel (n / 2) in if leb n 1 then 0 else suc rest

unfoldable pub double_of : ℕ → ℕ
unfolding log2
double_of n =
    let log = log2 53 n in
    if n == 0 then 0 else (1023 + log) * 2 ^ 52 + (n - 2 ^ log) * 2 ^ (52 - log)

abbrev pub respond : Environment → CommandMessage → RtmpSession → Result RtmpSession
respond env c s = append_output (chunked env s (outgoing command_type (serialize_command c))) s

unfoldable pub handle_connect : Environment → CommandMessage → RtmpSession → Result RtmpSession
unfolding connect_room
handle_connect env c s =
    append_output
      (chunked env s (outgoing ack_window_size_type (serialize_ack_window_size 1024))
        >> chunked env s (
            outgoing set_peer_bandwidth_type
              (serialize_set_peer_bandwidth (record { window_size = 1024; limit = 1 })))
        >> chunked env s (
            outgoing command_type (
              serialize_command (result_command c.id (plain Marker.object) (plain Marker.object)))))
      (record s { room_id = connect_room c s.room_id })

unfoldable pub handle_create_stream :
    Environment → CommandMessage → RtmpSession → Result RtmpSession
handle_create_stream env c s =
    respond env
      (result_command c.id (plain Marker.null_type)
        (object Marker.double (double_of s.msid_for_create_stream) [] nil))
      s

-- The handlers of "publish" and "play" say whether they returned early, without the final Write.
abbrev pub Handled : Type 0
Handled = Result (World × Bool)

abbrev pub refuse : ℕ → World → Handled
refuse key w = on_session key (λ s. ok (set_need_close s)) w >>= λ w'. ok (w', true)

abbrev pub answer : ℕ → (RtmpSession → Result RtmpSession) → World → Handled
answer key f w = on_session key f w >>= λ w'. ok (w', false)

unfoldable pub handle_publish : Environment → ℕ → CommandMessage → RtmpSession → World → Handled
handle_publish env key c s w = elim s.type [
  | undefined ↦
      let (manager, room_id) = create_room w.manager in
      let s' = record s { type = push; room_id = room_id } in
      let w' : World = record { sessions = update w.sessions key s'; manager = manager } in
      elim room_id [
        | negsuc n ↦ refuse key w'
        | pos id ↦
            answer key (respond env (status_command c.id (codes "NetStream.Publish.Start"))) w'
      ]
  | _ ↦ refuse key w
]

unfoldable pub handle_play : Environment → ℕ → CommandMessage → RtmpSession → World → Handled
handle_play env key c s w = elim s.type [
  | undefined ↦
      let s' = record s { type = pull } in
      enter_room s.room_id key w.manager >>= λ (manager, entered, sends).
      make_sends env sends (record { sessions = update w.sessions key s'; manager = manager })
      >>= λ w'.
          if entered
          then answer key (respond env (status_command c.id (codes "NetStream.Play.Start"))) w'
          else refuse key w'
  | _ ↦ refuse key w
]

unfoldable pub dispatch_command :
    CommandName → Environment → ℕ → CommandMessage → RtmpSession → World → Handled
unfolding handle_connect handle_create_stream handle_publish handle_play
dispatch_command connect env key c s w = answer key (handle_connect env c) w
dispatch_command acknowledged env key c s w =
    answer key (respond env (result_command c.id (plain Marker.object) (plain Marker.object))) w
dispatch_command create_stream env key c s w = answer key (handle_create_stream env c) w
dispatch_command publish env key c s w = handle_publish env key c s w
dispatch_command play env key c s w = handle_play env key c s w
dispatch_command unanswered env key c s w = ok (w, false)
dispatch_command unknown env key c s w = aborts

unfoldable pub handle_command_message :
    Environment → ℕ → CommandMessage → RtmpSession → World → Result World
unfolding dispatch_command command_name
handle_command_message env key c s w =
    dispatch_command (command_name c.name) env key c s w >>= λ (w', returned).
    if returned then ok w' else on_session key (λ s'. ok (write env key s').0) w'
