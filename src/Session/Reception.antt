-- ===== src/Session/Reception.antt =====
-- read_chunk on a buffer that starts with a whole chunk.
use live_streaming.Base.{ℕ, ◌≡◌, refl, List, ◌++◌, ◌==◌, if◌then◌else◌, length, some, update}
use live_streaming.Result.{ok}
use live_streaming.Stream.{ByteStream, ◌>>=◌, pure, open_stream, commit, remain}
use live_streaming.Stream.Codec.{Decodes, pop_raw-Decodes, unread, advance, unread-advance, enough}
use live_streaming.Chunk.{ChunkHeader, new_header, deserialize_header}
use live_streaming.Session.{RtmpSession}
use live_streaming.Session.Chunks.{
  Taken, take_chunk, complete_header, read_chunk, get_message_id, message_timestamp, message_of,
  expected_length,
}

-- What take_chunk gives for a header, a timestamp, the data and the bytes that follow.
unfoldable pub taken : RtmpSession → ChunkHeader → ℕ → List ℕ → List ℕ → Taken
taken s h timestamp part rest =
    let csid = h.basic.chunk_stream_id in
    let msg_id = get_message_id csid h.common.message_stream_id in
    let started = message_of h timestamp (s.reading_messages msg_id) in
    let message = record started { payload = started.payload ++ part } in
    record {
      session = record s {
        read_data_buffer = rest;
        previous_chunk_commons = update s.previous_chunk_commons csid h.common;
        reading_messages = update s.reading_messages msg_id message;
        message_previous_timestamp =
            if h.basic.format == 0
            then update s.message_previous_timestamp msg_id timestamp
            else s.message_previous_timestamp;
      };
      csid = csid;
      msg_id = msg_id;
      message = message;
      timestamp = timestamp;
    }

commit-unread : (bs : ByteStream) (rest : List ℕ) → unread bs ≡ rest → commit bs ≡ open_stream rest
unfolding commit open_stream
commit-unread bs rest e = rw e

take_chunk-eq :
    (s : RtmpSession) (h : ChunkHeader) (timestamp : ℕ) (part rest : List ℕ) (bs : ByteStream)
    → unread bs ≡ part ++ rest
    → message_timestamp h (
        s.message_previous_timestamp
          (get_message_id h.basic.chunk_stream_id h.common.message_stream_id))
      ≡ some timestamp
    → expected_length s.max_chunk_size h
        (s.reading_messages (get_message_id h.basic.chunk_stream_id h.common.message_stream_id))
      ≡ length part
    → take_chunk s h bs ≡ ok (some (taken s h timestamp part rest), open_stream rest)
unfolding take_chunk taken remain ◌>>=◌
take_chunk-eq s h timestamp part rest bs e t n =
    let done = commit-unread (advance (length part) bs) rest (unread-advance bs part rest e) in
    rw (t, take_chunk)
      (rw (n, enough bs part rest e, (pop_raw-Decodes part).run bs rest e)
        (rw done (unfold open_stream in refl)))

-- A chunk that starts the buffer is taken off it.
pub read_chunk-eq :
    (s : RtmpSession) (xs : List ℕ) (h h' : ChunkHeader) (timestamp : ℕ) (part rest : List ℕ)
    → s.read_data_buffer ≡ xs ++ (part ++ rest)
    → Decodes (deserialize_header new_header) xs h
    → complete_header h (s.previous_chunk_commons h.basic.chunk_stream_id) ≡ pure (some h')
    → message_timestamp h' (
        s.message_previous_timestamp
          (get_message_id h'.basic.chunk_stream_id h'.common.message_stream_id))
      ≡ some timestamp
    → expected_length s.max_chunk_size h'
        (s.reading_messages (get_message_id h'.basic.chunk_stream_id h'.common.message_stream_id))
      ≡ length part
    → read_chunk s ≡ ok (some (taken s h' timestamp part rest), open_stream rest)
unfolding read_chunk ◌>>=◌ open_stream
read_chunk-eq s xs h h' timestamp part rest e d c t n =
    rw (d.run (open_stream s.read_data_buffer) (part ++ rest) e, c)
      (unfold pure in
        take_chunk-eq s h' timestamp part rest _
          (unread-advance (open_stream s.read_data_buffer) xs (part ++ rest) e) t n)
