-- ===== src/Server/Reading.antt =====
-- RTMPSession::HandleMessage, the handshake, OnRead and OnClose (server/rtmp.cc).
use live_streaming.Base.{
  ℕ, ◌/◌, ◌%◌, ◌^◌, Bool, true, false, List, ◌==◌, ◌||◌, if◌then◌else◌, Option, none, some, update,
}
use live_streaming.Result.{Result, ok, throws, aborts, faults, exhausted, ◌>>=◌}
use live_streaming.Stream.{ByteStream, Stream, open_stream, commit}
use live_streaming.Stream
use live_streaming.Chunk.{Message}
use live_streaming.Handshake.{
  CommonHandshakeMessage, serialize_version, deserialize_version, serialize_handshake,
  deserialize_handshake,
}
use live_streaming.Command.{deserialize_command}
use live_streaming.Room.{Send}
use live_streaming.Room.Manager.{RoomManager, close_room, leave_room}
use live_streaming.Room.Manager
use live_streaming.Session.{
  RtmpSession, uninitialized, version_sent, ack_sent, handshake_done, undefined, pull, push,
  Environment, append_output, set_need_close, write,
}
use live_streaming.Session.Chunks.{read_chunk, is_complete, finish_message}
use live_streaming.Server.World.{World, on_session, make_sends}
use live_streaming.Server.Commands.{handle_command_message}

-- What a room manager's call did to the manager, and then the calls on sessions that it made.
unfoldable pub with_sends : Environment → World → Result (RoomManager × List Send) → Result World
with_sends env w r = r >>= λ (manager, sends). make_sends env sends (record w { manager = manager })

-- A command message: one that cannot be parsed closes the connection.
unfoldable pub handle_command_payload :
    Environment → ℕ → List ℕ → RtmpSession → World → Result World
handle_command_payload env key payload s w = elim (deserialize_command (open_stream payload)) [
  | ok (c, bs) ↦ handle_command_message env key c s w
  | throws ↦ on_session key (λ s'. ok (set_need_close s')) w
  | aborts ↦ aborts
  | faults ↦ faults
  | exhausted ↦ exhausted
]

-- HandleMessage. The objects of a metadata message are parsed for the log alone.
unfoldable pub handle_message : Environment → ℕ → Message → RtmpSession → World → Result World
unfolding with_sends handle_command_payload
handle_message env key msg s w =
    if msg.type == 3
    then ok w
    else if msg.type == 8 || msg.type == 9
    then with_sends env w (Manager.add_data s.room_id msg.type msg.timestamp msg.payload w.manager)
    else if msg.type == 18
    then with_sends env w (Manager.init_meta_data s.room_id msg.payload w.manager)
    else if msg.type == 20
    then handle_command_payload env key msg.payload s w
    else ok w

-- What a handler of the read event returns, with the session.
abbrev pub Reply : Type 0
Reply = Result (RtmpSession × Bool)

abbrev pub flush : Environment → ℕ → Stream (Unit {0}) → RtmpSession → Reply
flush env key w s = append_output w s >>= λ s'. ok (write env key s')

unfoldable pub send_s0_and_s1 : Environment → ℕ → RtmpSession → Reply
send_s0_and_s1 env key s =
    let s1 = record (s.s1) { timestamp = env.uptime / 1000 % 2 ^ 32; timestamp_sent = 0 } in
    flush env key (Stream.◌>>◌ (serialize_version 3) (serialize_handshake s1))
      (record s { s1 = s1 })

unfoldable pub send_s2 : Environment → ℕ → RtmpSession → Reply
send_s2 env key s =
    let s2 : CommonHandshakeMessage = record {
      timestamp = s.c1.timestamp;
      timestamp_sent = s.s1.timestamp;
      random_data = s.c1.random_data;
    } in
    flush env key (serialize_handshake s2) (record s { s2 = s2 })

-- One message off the read buffer, into c1 or c2. Where the bytes do not suffice they stay.
unfoldable pub read_handshake :
    CommonHandshakeMessage → RtmpSession → CommonHandshakeMessage × Option (List ℕ)
read_handshake old s =
    let (m, outcome) = deserialize_handshake old (open_stream s.read_data_buffer) in
    elim outcome [ ok bs ↦ (m, some (commit bs).bytes) | _ ↦ (m, none) ]

-- Whether the state was left, and if so what was returned then.
pub data HandshakeStep : Type 0 where
  stays : RtmpSession → Bool → HandshakeStep
  goes_on : RtmpSession → HandshakeStep

unfoldable pub after_send : Reply → (RtmpSession → RtmpSession) → Result HandshakeStep
after_send r next = r >>= λ (s, sent). ok (if sent then goes_on (next s) else stays s false)

unfoldable pub step_uninitialized : Environment → ℕ → RtmpSession → Result HandshakeStep
unfolding send_s0_and_s1 after_send
step_uninitialized env key s = elim (deserialize_version s.c0 (open_stream s.read_data_buffer)) [
  | ok (version, bs) ↦
      let s' = record s { c0 = version; read_data_buffer = (commit bs).bytes } in
      if version == 3
      then after_send (send_s0_and_s1 env key s') (λ s''. record s'' { state = version_sent })
      else ok (stays s' false)
  | _ ↦ ok (stays s true)
]

unfoldable pub step_version_sent : Environment → ℕ → RtmpSession → Result HandshakeStep
unfolding send_s2 read_handshake after_send
step_version_sent env key s =
    let (m, outcome) = read_handshake s.c1 s in
    let s' = record s { c1 = m } in
    elim outcome [
      | none ↦ ok (stays s' true)
      | some left ↦
          after_send (send_s2 env key (record s' { read_data_buffer = left }))
            (λ s''. record s'' { state = ack_sent })
    ]

unfoldable pub step_ack_sent : RtmpSession → HandshakeStep
unfolding read_handshake
step_ack_sent s =
    let (m, outcome) = read_handshake s.c2 s in
    let s' = record s { c2 = m } in
    elim outcome [
      | none ↦ stays s' true
      | some left ↦ goes_on (record s' { read_data_buffer = left; state = handshake_done })
    ]

abbrev pub store : ℕ → RtmpSession → World → World
store key s w = record w { sessions = update w.sessions key s }

-- One chunk, and the message that it completes.
unfoldable pub on_read_in_handshake_done_state :
    Environment → ℕ → RtmpSession → World → Result (World × Bool)
on_read_in_handshake_done_state env key s w = elim (read_chunk s) [
  | ok (none, bs) ↦ ok (w, false)
  | ok (some t, bs) ↦
      if is_complete t.message
      then (handle_message env key t.message t.session (store key t.session w) >>= λ w'.
          on_session key (λ s'. ok (finish_message t.msg_id t.timestamp s')) w' >>= λ w''.
          ok (w'', true))
      else ok (store key t.session w, true)
  | throws ↦ ok (w, true)
  | aborts ↦ aborts
  | faults ↦ faults
  | exhausted ↦ exhausted
]

-- A handshake handler goes on with the next one at once.
abbrev pub then_next :
    ℕ → World → Result HandshakeStep → (RtmpSession → Result (World × Bool)) → Result (World × Bool)
then_next key w r next =
    r >>= elim [ stays s reply ↦ ok (store key s w, reply) | goes_on s ↦ next s ]

unfoldable pub on_read_in_ack_sent_state :
    Environment → ℕ → World → RtmpSession → Result (World × Bool)
unfolding step_ack_sent
on_read_in_ack_sent_state env key w s =
    then_next key w (ok (step_ack_sent s))
      (λ s'. on_read_in_handshake_done_state env key s' (store key s' w))

unfoldable pub on_read_in_version_sent_state :
    Environment → ℕ → World → RtmpSession → Result (World × Bool)
unfolding step_version_sent on_read_in_ack_sent_state
on_read_in_version_sent_state env key w s =
    then_next key w (step_version_sent env key s) (on_read_in_ack_sent_state env key w)

unfoldable pub on_read_in_uninitialized_state :
    Environment → ℕ → World → RtmpSession → Result (World × Bool)
unfolding step_uninitialized on_read_in_version_sent_state
on_read_in_uninitialized_state env key w s =
    then_next key w (step_uninitialized env key s) (on_read_in_version_sent_state env key w)

unfoldable pub on_read : Environment → ℕ → RtmpSession → World → Result (World × Bool)
unfolding on_read_in_uninitialized_state on_read_in_handshake_done_state
on_read env key s w = elim s.state [
  | uninitialized ↦ on_read_in_uninitialized_state env key w s
  | version_sent ↦ on_read_in_version_sent_state env key w s
  | ack_sent ↦ on_read_in_ack_sent_state env key w s
  | handshake_done ↦ on_read_in_handshake_done_state env key s w
]

unfoldable pub on_close : ℕ → RtmpSession → World → Result World
on_close key s w = elim s.type [
  | pull ↦ leave_room s.room_id key w.manager >>= λ m. ok (record w { manager = m })
  | push ↦ ok (record w { manager = close_room s.room_id w.manager })
  | undefined ↦ ok w
]
