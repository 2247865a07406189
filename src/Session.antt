-- ===== src/Session.antt =====
-- server/net.h, class Session, and server/rtmp.h, class RTMPSession: the state of a connection,
-- its write buffer, and the media messages that it sends.
pub mod Chunks
pub mod Reception
pub mod Receiving
pub mod Progress
pub mod Transfer
pub mod Output
use live_streaming.Base.{
  ℕ, ◌+◌, ◌/◌, ◌%◌, ◌^◌, Bool, true, false, List, [], ◌∷◌, ◌++◌, ◌==◌, if◌then◌else◌, length,
  Option, none, some, ℤ, pos, negsuc, Map, empty_map, bit_and, bit_or, not,
}
use live_streaming.Result.{Result, ok, throws, ◌>>=◌}
use live_streaming.Stream.{ByteStream, Stream, open_stream, close_stream, commit, push_raw}
use live_streaming.Chunk.{ChunkCommon, Message}
use live_streaming.Chunk.Sending.{Outgoing, serialize_chunks}
use live_streaming.Handshake.{CommonHandshakeMessage}

-- RTMPSession::Type, as the client sees it.
pub data SessionType : Type 0 where
  undefined pull push : SessionType

pub data State : Type 0 where
  uninitialized version_sent ack_sent handshake_done : State

-- What the session does not decide: `write_fails key sent data` says whether bufferevent_write
-- refuses `data` on this connection after `sent`, and `uptime` is
-- GetPassedTimeSinceStartedInMicroSeconds.
pub record Environment : Type 0 where
  pub write_fails : ℕ → List ℕ → List ℕ → Bool
  pub uptime : ℕ

-- `sent` is what bufferevent_write has taken so far. A double is its bit pattern.
pub record RtmpSession : Type 0 where
  pub flag : ℕ
  pub read_data_buffer : List ℕ
  pub write_data_buffer : List ℕ
  pub sent : List ℕ
  pub type : SessionType
  pub state : State
  pub c0 : ℕ
  pub c1 : CommonHandshakeMessage
  pub c2 : CommonHandshakeMessage
  pub s1 : CommonHandshakeMessage
  pub s2 : CommonHandshakeMessage
  pub previous_chunk_commons : Map ChunkCommon
  pub message_previous_timestamp : Map ℕ
  pub reading_messages : Map Message
  pub max_chunk_size : ℕ
  pub max_chunk_size_for_sending : ℕ
  pub msid_for_create_stream : ℕ
  pub room_id : ℤ

-- Random data is not initialised: `random` is whatever the memory held.
unfoldable pub new_session : List ℕ → RtmpSession
new_session random =
    let m : CommonHandshakeMessage = record {
      timestamp = 0;
      timestamp_sent = 0;
      random_data = random;
    } in
    record {
      flag = 0;
      read_data_buffer = [];
      write_data_buffer = [];
      sent = [];
      type = undefined;
      state = uninitialized;
      c0 = 0;
      c1 = m;
      c2 = m;
      s1 = m;
      s2 = m;
      previous_chunk_commons = empty_map;
      message_previous_timestamp = empty_map;
      reading_messages = empty_map;
      max_chunk_size = 128;
      max_chunk_size_for_sending = 128;
      msid_for_create_stream = 16776960;
      room_id = negsuc 0;
    }

-- FLAG::NEED_CLOSE
abbrev pub need_close_flag : ℕ
need_close_flag = 1

unfoldable pub is_need_close : RtmpSession → Bool
is_need_close s = not (bit_and s.flag need_close_flag == 0)

unfoldable pub set_need_close : RtmpSession → RtmpSession
set_need_close s = record s { flag = bit_or s.flag need_close_flag }

-- Session::Write on the connection `key`.
unfoldable pub write : Environment → ℕ → RtmpSession → RtmpSession × Bool
write env key s =
    if length s.write_data_buffer == 0
    then (s, true)
    else if env.write_fails key s.sent s.write_data_buffer
    then (s, false)
    else (record s { write_data_buffer = []; sent = s.sent ++ s.write_data_buffer }, true)

-- ByteStream(WriteDataBuffer()) << ... << ByteStream::Commit(): the temporary's destructor reverts
-- to the commit.
unfoldable pub append_output : Stream (Unit {0}) → RtmpSession → Result RtmpSession
append_output w s = w (open_stream s.write_data_buffer) >>= λ (_, bs).
    ok (record s { write_data_buffer = close_stream (commit bs) })

unfoldable pub send_chunked : Environment → Outgoing → RtmpSession → Result RtmpSession
unfolding append_output
send_chunked env m s = append_output (serialize_chunks env.uptime s.max_chunk_size_for_sending m) s

-- An exception is logged and dropped, with what it had appended.
unfoldable pub caught : Result RtmpSession → RtmpSession → Result RtmpSession
caught (ok s') s = ok s'
caught throws s = ok s
caught Result.aborts s = Result.aborts
caught Result.faults s = Result.faults
caught Result.exhausted s = Result.exhausted

unfoldable pub send_media_data : Environment → ℕ → ℕ → ℕ → List ℕ → RtmpSession → Result RtmpSession
unfolding send_chunked caught write
send_media_data env key type timestamp payload s =
    caught
      (send_chunked env
          (record {
            type = type;
            timestamp = timestamp;
            stream_id = s.msid_for_create_stream;
            body = push_raw payload;
          })
          s
        >>= λ s'. ok (write env key s').0)
      s

unfoldable pub send_meta_data : Environment → ℕ → List ℕ → RtmpSession → Result RtmpSession
unfolding send_media_data
send_meta_data env key meta_payload s = send_media_data env key 18 0 meta_payload s
