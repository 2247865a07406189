-- ===== src/Session/Chunks.antt =====
-- server/rtmp.cc, RTMPSession::OnReadInHandeShakeDoneState: one chunk off the read buffer, up to the
-- call of HandleMessage, and what follows that call.
use live_streaming.Base.{
  ℕ, ◌+◌, ◌-◌, ◌*◌, ◌%◌, ◌^◌, Bool, [], ◌++◌, ◌==◌, ltb, if◌then◌else◌, length, Option, none, some,
  update, erase_key, min,
}
use live_streaming.Result.{Result, ok, throws}
use live_streaming.Stream.{
  ByteStream, Stream, ◌>>=◌, pure, pop_bytes, pop_raw, remain, open_stream, commit,
}
use live_streaming.Chunk.{
  ChunkHeader, ChunkCommon, Message, new_header, extended_mark, deserialize_header,
}
use live_streaming.Session.{RtmpSession}

-- A step on a stream that may find the peer at fault (`return false`).
abbrev pub Checked : Type 0 → Type 0
Checked A = Stream (Option A)

-- The header completed from the last chunk of the same chunk stream.
unfoldable pub complete_header : ChunkHeader → Option ChunkCommon → Checked ChunkHeader
complete_header h previous =
    let c = h.common in
    if h.basic.format == 0 then pure (some h) else elim previous [
      | none ↦ pure none
      | some p ↦
          if h.basic.format == 1
          then pure
              (some (record h { common = record c { message_stream_id = p.message_stream_id } }))
          else if h.basic.format == 2
          then pure (
              some (record h {
                common = record c {
                  length = p.length;
                  type = p.type;
                  message_stream_id = p.message_stream_id;
                };
              }))
          else if p.timestamp == extended_mark
          then (do
            extended ← pop_bytes 4 h.extended_timestamp
            pure (some (record h { common = p; extended_timestamp = extended })))
          else pure (some (record h { common = p }))
    ]

-- GetMessageId. The shift leaves the low 32 bits free for the message stream id.
unfoldable pub get_message_id : ℕ → ℕ → ℕ
get_message_id csid msid = csid * 2 ^ 32 + msid

-- The timestamp of the message; `none` if there is none to add a delta to.
unfoldable pub message_timestamp : ChunkHeader → Option ℕ → Option ℕ
message_timestamp h previous =
    if h.basic.format == 0
    then some h.common.timestamp
    else elim previous [ none ↦ none | some t ↦ some ((t + h.common.timestamp) % 2 ^ 32) ]

-- The message that the chunk belongs to.
unfoldable pub message_of : ChunkHeader → ℕ → Option Message → Message
message_of h timestamp none = record {
  type = h.common.type;
  timestamp = timestamp;
  stream_id = h.common.message_stream_id;
  payload_length = h.common.length;
  payload = [];
}
message_of h timestamp (some m) = m

-- expect_data_len
unfoldable pub expected_length : ℕ → ChunkHeader → Option Message → ℕ
expected_length limit h none = min limit h.common.length
expected_length limit h (some m) =
    min limit ((m.payload_length + 2 ^ 64 - length m.payload) % 2 ^ 32)

-- A chunk that was taken: its chunk stream and message ids, the message with its data, the
-- timestamp, and the session without them.
pub record Taken : Type 0 where
  pub session : RtmpSession
  pub csid : ℕ
  pub msg_id : ℕ
  pub message : Message
  pub timestamp : ℕ

-- Everything is checked first, and then written: the message, the last chunk of the stream, the
-- buffer and, for a chunk with a full header, the timestamp.
unfoldable pub take_chunk : RtmpSession → ChunkHeader → Checked Taken
unfolding get_message_id message_timestamp message_of expected_length
take_chunk s h bs =
    let csid = h.basic.chunk_stream_id in
    let msg_id = get_message_id csid h.common.message_stream_id in
    let reading = s.reading_messages msg_id in
    let count = expected_length s.max_chunk_size h reading in
    elim (message_timestamp h (s.message_previous_timestamp msg_id)) [
      | none ↦ ok (none, bs)
      | some timestamp ↦
          if ltb (remain bs) count
          then throws
          else (do
            part ← pop_raw count
            let started = message_of h timestamp reading
            let message = record started { payload = started.payload ++ part }
            λ bs'. ok (
              some (record {
                session = record s {
                  read_data_buffer = (commit bs').bytes;
                  previous_chunk_commons = update s.previous_chunk_commons csid h.common;
                  reading_messages = update s.reading_messages msg_id message;
                  message_previous_timestamp =
                      if h.basic.format == 0
                      then update s.message_previous_timestamp msg_id timestamp
                      else s.message_previous_timestamp;
                };
                csid = csid;
                msg_id = msg_id;
                message = message;
                timestamp = timestamp;
              }),
              commit bs',
            ))
              bs
    ]

-- The read of one chunk. An exception leaves the buffer as it was, by the stream's destructor.
unfoldable pub read_chunk : RtmpSession → Result (Option Taken × ByteStream)
unfolding take_chunk complete_header
read_chunk s =
    (do
      h ← deserialize_header new_header
      completed ← complete_header h (s.previous_chunk_commons h.basic.chunk_stream_id)
      elim completed [ none ↦ pure none | some h' ↦ take_chunk s h' ])
      (open_stream s.read_data_buffer)

unfoldable pub is_complete : Message → Bool
is_complete m = length m.payload == m.payload_length

-- After HandleMessage: the message is dropped and its timestamp kept.
unfoldable pub finish_message : ℕ → ℕ → RtmpSession → RtmpSession
finish_message msg_id timestamp s = record s {
  reading_messages = erase_key s.reading_messages msg_id;
  message_previous_timestamp = update s.message_previous_timestamp msg_id timestamp;
}
