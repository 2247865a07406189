-- ===== src/Examples/Wire.antt =====
-- Messages as bytes: server/chunk_message.cc, server/command_message.cc, server/handshake_message.h,
-- server/control_message.h, and the readers in server/rtmp.cc.
use live_streaming.Base.{ℕ, ◌≡◌, refl, List, [], ◌∷◌, ◌++◌, replicate, arith, none}
use live_streaming.Result.{ok}
use live_streaming.Stream.{open_stream, push_raw, commit}
use live_streaming.Stream.Codec.{Encodes, RoundTrips}
use live_streaming.Stream.Shrinking.{Ends}
use live_streaming.Chunk.{ChunkHeader, new_header, serialize_header, deserialize_header}
use live_streaming.Chunk.RoundTrip.{received, serialize_header-RoundTrips}
use live_streaming.Chunk.Sending.{
  Outgoing, payload_of, get_chunk_stream_id_for_sending, serialize_chunks,
}
use live_streaming.Session.{RtmpSession, new_session}
use live_streaming.Session.Chunks.{read_chunk, get_message_id}
use live_streaming.Session.Receiving.{Receives, so_far}
use live_streaming.Session.Transfer.{receive-serialize_chunks}
use live_streaming.Session.Progress.{Progresses, read_chunk-Progresses}
use live_streaming.Command.{
  CommandMessage, new_command, object, nil, entry, serialize_command, deserialize_command,
}
use live_streaming.Command.Marker
use live_streaming.Command.Wire.{wire_object, wire_double, with_entry, no_entries, has_key}
use live_streaming.Command.Message.{
  IsWireCommand, set_first, all_unset, DecodesLast, serialize_command-RoundTrips,
}
use live_streaming.Command.Total.{deserialize_command-Ends}
use live_streaming.Handshake.{CommonHandshakeMessage, random_size}
use live_streaming.Control.{
  SetPeerBandwidth, new_stream_begin, serialize_ack_window_size, deserialize_ack_window_size,
  serialize_set_peer_bandwidth, deserialize_set_peer_bandwidth, serialize_stream_begin,
  deserialize_stream_begin,
}
use live_streaming.Control.RoundTrip.{control_messages_RoundTrips}

abbrev audio : List ℕ
audio = 0xAF ∷ 1 ∷ 33 ∷ 16 ∷ 4 ∷ []

abbrev audio_message : Outgoing
audio_message = record { type = 8; timestamp = 40; stream_id = 1; body = push_raw audio }

-- A receiver of chunks of two bytes.
abbrev receiver : RtmpSession
receiver = record (new_session []) { max_chunk_size = 2 }

audio_payload : payload_of audio_message.body ≡ ok audio
unfolding payload_of push_raw open_stream commit
audio_payload = refl

audio_stream : get_chunk_stream_id_for_sending 8 ≡ ok 4
unfolding get_chunk_stream_id_for_sending
audio_stream = refl

receiver_free : receiver.reading_messages (get_message_id 4 0) ≡ none
unfolding new_session
receiver_free = refl

receive-serialize_chunks_example :
    (xs : List ℕ) × Encodes (serialize_chunks 0 2 audio_message) xs
    × ((rest : List ℕ)
        → Receives 5 (record receiver { read_data_buffer = xs ++ rest }) (so_far 8 5 audio) rest)
receive-serialize_chunks_example =
    receive-serialize_chunks 0 2 4 audio_message audio receiver audio_payload audio_stream
      (omega arith) (omega arith) (omega arith) (omega arith) refl receiver_free

-- The second form of the basic header, and an extended timestamp.
abbrev late_header : ChunkHeader
late_header = record {
  basic = record { format = 1; chunk_stream_id = 100 };
  common = record { timestamp = 0x01000000; length = 300; type = 9; message_stream_id = 1 };
  extended_timestamp = 0;
}

serialize_header-RoundTrips_example :
    RoundTrips (serialize_header late_header) (deserialize_header new_header) (received late_header)
serialize_header-RoundTrips_example =
    serialize_header-RoundTrips late_header
      (record { format_lt = omega arith; id_ge = omega arith; id_lt = omega arith })
      (record {
        timestamp_lt = omega arith;
        length_lt = omega arith;
        type_lt = omega arith;
        message_stream_id_lt = omega arith;
      })
      (omega arith)

-- A whole chunk of a message of two bytes, and the start of another.
abbrev fed : RtmpSession
fed = record (new_session []) {
  read_data_buffer = 3 ∷ 0 ∷ 0 ∷ 0 ∷ 0 ∷ 0 ∷ 2 ∷ 20 ∷ 0 ∷ 0 ∷ 0 ∷ 0 ∷ 5 ∷ 6 ∷ 0xC3 ∷ [];
}

read_chunk-Progresses_example : Progresses 15 (read_chunk fed)
read_chunk-Progresses_example = read_chunk-Progresses fed

-- A reply named "_r" to the transaction 7, with an object of one entry. The other seven objects are unset.
abbrev reply : CommandMessage
reply = record (new_command (95 ∷ 114 ∷ []) 7) {
  obj1 = object Marker.object 0 [] (entry (111 ∷ 107 ∷ []) (object Marker.double 1 [] nil) nil);
}

reply_wire : IsWireCommand reply
unfolding has_key new_command
reply_wire = record {
  name_lt = omega arith;
  id_lt = omega arith;
  packed =
      set_first _ _
        (wire_object _
          (with_entry _ _ nil (omega arith) refl (wire_double 1 (omega arith)) no_entries))
        (all_unset (refl, (refl, (refl, (refl, (refl, (refl, (refl, tt))))))));
}

serialize_command-RoundTrips_example :
    (xs : List ℕ) × Encodes (serialize_command reply) xs × DecodesLast deserialize_command xs reply
serialize_command-RoundTrips_example = serialize_command-RoundTrips reply reply_wire

deserialize_command-Ends_example : Ends 12 deserialize_command (open_stream (2 ∷ 0 ∷ 9 ∷ 99 ∷ []))
deserialize_command-Ends_example = deserialize_command-Ends (open_stream (2 ∷ 0 ∷ 9 ∷ 99 ∷ []))

abbrev zeros : CommonHandshakeMessage
zeros = record { timestamp = 0; timestamp_sent = 0; random_data = [] }

abbrev sevens : CommonHandshakeMessage
sevens = record { timestamp = 5; timestamp_sent = 6; random_data = replicate random_size 7 }

abbrev wide : SetPeerBandwidth
wide = record { window_size = 2500000; limit = 2 }

abbrev no_width : SetPeerBandwidth
no_width = record { window_size = 0; limit = 0 }

control_messages_RoundTrips_example :
    RoundTrips (serialize_ack_window_size 2500000) (deserialize_ack_window_size 0) 2500000
    × RoundTrips (serialize_set_peer_bandwidth wide) (deserialize_set_peer_bandwidth no_width) wide
    × RoundTrips
        (serialize_stream_begin (new_stream_begin 9))
        (deserialize_stream_begin (new_stream_begin 0))
        (new_stream_begin 9)
unfolding new_stream_begin
control_messages_RoundTrips_example =
    control_messages_RoundTrips 2500000 0 wide no_width (new_stream_begin 9) (new_stream_begin 0)
      (omega arith) (omega arith) (omega arith, omega arith) (omega arith, omega arith)
      (omega arith, omega arith) (omega arith, omega arith)
