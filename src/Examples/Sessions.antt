-- ===== src/Examples/Sessions.antt =====
-- A connection of server/rtmp.cc.
use live_streaming.Base.{
  List, ℕ, ◌-◌, ◌≡◌, refl, false, [], ◌∷◌, ◌++◌, replicate, length-replicate, arith, empty_map,
  codes, none, if◌then◌else◌,
}
use live_streaming.Stream.{be_bytes}
use live_streaming.Handshake.{CommonHandshakeMessage, random_size}
use live_streaming.Handshake.RoundTrip.{IsHandshake, encode_handshake}
use live_streaming.Room.Manager.{new_manager}
use live_streaming.Result.{ok}
use live_streaming.Chunk.Sending.{get_chunk_stream_id_for_sending}
use live_streaming.Session.{RtmpSession, Environment, new_session, send_media_data}
use live_streaming.Session.Chunks.{get_message_id}
use live_streaming.Session.Receiving.{Receives, so_far}
use live_streaming.Session.Output.{send_media_data-Receives}
use live_streaming.Server.World.{World}
use live_streaming.Server.Commands.{is_digit, room_of_url}
use live_streaming.Server.Reading.{on_read, on_read_in_handshake_done_state, store}
use live_streaming.Server.Handshaking.{shaken, on_read-handshake}
use live_streaming.Server.RoomUrl.{room_of_url-last}

abbrev network : Environment
network = record { write_fails = λ key sent xs. false; uptime = 7000000 }

abbrev hello : CommonHandshakeMessage
hello = record { timestamp = 5; timestamp_sent = 0; random_data = replicate random_size 7 }

abbrev echo : CommonHandshakeMessage
echo = record { timestamp = 7000; timestamp_sent = 5; random_data = replicate random_size 9 }

-- The handshake, and the first byte of a chunk.
abbrev caller : RtmpSession
caller = record (new_session []) {
  read_data_buffer = be_bytes 1 3 ++ (encode_handshake hello ++ (encode_handshake echo ++ 2 ∷ []));
}

abbrev quiet : World
quiet = record { sessions = empty_map; manager = new_manager }

hello-IsHandshake : IsHandshake hello
hello-IsHandshake = record {
  timestamp_lt = omega arith;
  timestamp_sent_lt = omega arith;
  random_length = length-replicate {A = ℕ} random_size 7;
}

echo-IsHandshake : IsHandshake echo
echo-IsHandshake = record {
  timestamp_lt = omega arith;
  timestamp_sent_lt = omega arith;
  random_length = length-replicate {A = ℕ} random_size 9;
}

on_read-handshake_example :
    on_read network 1 caller quiet
    ≡ on_read_in_handshake_done_state network 1
        (shaken network hello echo (2 ∷ []) caller)
        (store 1 (shaken network hello echo (2 ∷ []) caller) quiet)
unfolding new_session
on_read-handshake_example =
    on_read-handshake network 1 caller quiet hello echo (2 ∷ []) refl refl (λ sent xs. refl)
      (omega arith) (omega arith, omega arith) (omega arith, omega arith) hello-IsHandshake
      echo-IsHandshake refl

video_stream : get_chunk_stream_id_for_sending 9 ≡ ok 4
unfolding get_chunk_stream_id_for_sending
video_stream = refl

abbrev key_frame : List ℕ
key_frame = 23 ∷ 1 ∷ 0 ∷ []

abbrev viewer : RtmpSession
viewer = new_session []

send_media_data-Receives_example :
    (xs : List ℕ) × (send_media_data network 1 9 40 key_frame viewer
      ≡ ok (record viewer { write_data_buffer = []; sent = viewer.sent ++ xs }))
    × ((client : RtmpSession) (rest : List ℕ)
        → client.max_chunk_size ≡ viewer.max_chunk_size_for_sending
        → client.reading_messages (get_message_id 4 0) ≡ none
        → Receives 3 (record client { read_data_buffer = xs ++ rest }) (so_far 9 3 key_frame) rest)
unfolding new_session
send_media_data-Receives_example =
    send_media_data-Receives network 1 9 40 key_frame viewer video_stream (omega arith)
      (omega arith) (omega arith) (omega arith) refl (λ sent xs. refl)

-- The URL names room 12, and the code reads 2.
room_of_url-last_example :
    room_of_url (codes "rtmp://host/1" ++ b'2' ∷ []) ≡ (if is_digit b'2' then b'2' - b'0' else 0)
room_of_url-last_example = room_of_url-last (codes "rtmp://host/1") b'2'
