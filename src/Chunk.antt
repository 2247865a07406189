-- ===== src/Chunk.antt =====
-- server/chunk_message.h and server/chunk_message.cc: the header of an RTMP chunk and the message
-- that chunks carry.
pub mod BasicHeader
pub mod RoundTrip
pub mod Sending
pub mod Chunking
use live_streaming.Base.{
  ℕ, ◌+◌, ◌-◌, ◌*◌, ◌/◌, ◌%◌, ◌^◌, Bool, true, false, List, [], bit_and, bit_or, ltb, leb, ◌==◌,
  if◌then◌else◌,
}
use live_streaming.Stream.{Stream, ◌>>=◌, ◌>>◌, pure, pop, pop_bytes, push_bytes}

pub record ChunkBasic : Type 0 where
  pub format : ℕ
  pub chunk_stream_id : ℕ

pub record ChunkCommon : Type 0 where
  pub timestamp : ℕ
  pub length : ℕ
  pub type : ℕ
  pub message_stream_id : ℕ

pub record ChunkHeader : Type 0 where
  pub basic : ChunkBasic
  pub common : ChunkCommon
  pub extended_timestamp : ℕ

abbrev pub no_common : ChunkCommon
no_common = record { timestamp = 0; length = 0; type = 0; message_stream_id = 0 }

-- A new ChunkHeader. The code leaves extended_timestamp uninitialised and reads it nowhere.
abbrev pub new_header : ChunkHeader
new_header = record {
  basic = record { format = 0; chunk_stream_id = 0 };
  common = no_common;
  extended_timestamp = 0;
}

pub record Message : Type 0 where
  pub type : ℕ
  pub timestamp : ℕ
  pub stream_id : ℕ
  pub payload_length : ℕ
  pub payload : List ℕ

abbrev pub new_message : Message
new_message = record { type = 0; timestamp = 0; stream_id = 0; payload_length = 0; payload = [] }

-- The timestamp field of three bytes that says that an extended timestamp follows.
abbrev pub extended_mark : ℕ
extended_mark = 0x00FFFFFF

-- The basic header, in one, two or three bytes.
unfoldable pub serialize_basic : ChunkBasic → Stream (Unit {0})
serialize_basic b =
    let id = b.chunk_stream_id in
    let high = b.format * 64 % 256 in
    if leb id 63
    then push_bytes 1 (bit_or high (id % 256))
    else if leb id 319
    then (do push_bytes 1 (bit_and high 0xC0); push_bytes 1 (id - 64))
    else do push_bytes 1 (bit_or (bit_and high 0xC0) 1); push_bytes 2 (id - 64)

-- The message header: eleven, seven, three or no bytes.
unfoldable pub serialize_common : ℕ → ℕ → ChunkCommon → Stream (Unit {0})
serialize_common format timestamp c =
    if format == 0
    then (do
      push_bytes 3 timestamp
      push_bytes 3 c.length
      push_bytes 1 c.type
      push_bytes 4 c.message_stream_id)
    else if format == 1
    then (do push_bytes 3 timestamp; push_bytes 3 c.length; push_bytes 1 c.type)
    else if format == 2
    then push_bytes 3 timestamp
    else pure tt

unfoldable pub serialize_header : ChunkHeader → Stream (Unit {0})
serialize_header h =
    let is_extended = leb extended_mark h.common.timestamp in
    let extended = if is_extended then h.common.timestamp else 0 in
    let timestamp = if is_extended then extended_mark else h.common.timestamp in
    do
      serialize_basic h.basic
      serialize_common h.basic.format timestamp h.common
      if extended == 0 then pure tt else push_bytes 4 extended

-- What follows the first byte.
unfoldable pub deserialize_id : ℕ → Stream ChunkBasic
deserialize_id first =
    let id = bit_and first 0x3F in
    let format = first / 64 in
    if id == 0
    then (do byte ← pop 1; pure (record { format = format; chunk_stream_id = byte + 64 }))
    else if id == 1
    then (do two_bytes ← pop 2; pure (record { format = format; chunk_stream_id = two_bytes + 64 }))
    else pure (record { format = format; chunk_stream_id = id })

unfoldable pub deserialize_basic : Stream ChunkBasic
unfolding deserialize_id
deserialize_basic = do first ← pop 1; deserialize_id first

unfoldable pub deserialize_common : ℕ → ChunkCommon → Stream ChunkCommon
deserialize_common format c =
    if format == 0
    then (do
      timestamp ← pop_bytes 3 c.timestamp
      length ← pop_bytes 3 c.length
      type ← pop_bytes 1 c.type
      message_stream_id ← pop_bytes 4 c.message_stream_id
      pure (record {
        timestamp = timestamp;
        length = length;
        type = type;
        message_stream_id = message_stream_id;
      }))
    else if format == 1
    then (do
      timestamp ← pop_bytes 3 c.timestamp
      length ← pop_bytes 3 c.length
      type ← pop_bytes 1 c.type
      pure (record c { timestamp = timestamp; length = length; type = type }))
    else if format == 2
    then (do timestamp ← pop_bytes 3 c.timestamp; pure (record c { timestamp = timestamp }))
    else pure c

-- The extended timestamp goes to a field of its own, `timestamp` keeps the mark.
unfoldable pub deserialize_extension : ChunkHeader → Stream ChunkHeader
deserialize_extension h =
    if h.common.timestamp == extended_mark
    then (do
      extended ← pop_bytes 4 h.extended_timestamp
      pure (record h { extended_timestamp = extended }))
    else pure h

unfoldable pub deserialize_header : ChunkHeader → Stream ChunkHeader
deserialize_header h = do
  basic ← deserialize_basic
  common ← deserialize_common basic.format h.common
  deserialize_extension (record h { basic = basic; common = common })
