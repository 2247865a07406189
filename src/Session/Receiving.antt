-- ===== src/Session/Receiving.antt =====
-- The chunk reader of RTMPSession (server/rtmp.cc) on the chunks of one message, of which
-- ChunkSerializeHelper (server/chunk_message.cc) has given all the same chunk stream.
use live_streaming.Base.{
  ℕ, zero, suc, ◌+◌, ◌-◌, ◌%◌, ◌^◌, ◌<◌, ◌≤◌, ◌≡◌, refl, ap, ◌∙◌, List, ◌++◌, length, arith, true,
  false, ◌==◌, Option, none, some, min, update,
}
use live_streaming.Result.{Result, ok, exhausted, ◌>>=◌}
use live_streaming.Stream.{ByteStream}
use live_streaming.Stream.Codec.{Decodes, Decodes-bind, pure-Decodes}
use live_streaming.Chunk.{
  ChunkHeader, Message, no_common, new_header, deserialize_header, deserialize_common,
  deserialize_extension,
}
use live_streaming.Chunk.BasicHeader.{deserialize_basic-Decodes}
use live_streaming.Chunk.RoundTrip.{
  encode_header, encode_common, extension, received, visible, wire_timestamp,
  deserialize_header-Decodes,
}
use live_streaming.Chunk.Chunking.{sent_header}
use live_streaming.Session.{RtmpSession}
use live_streaming.Session.Chunks.{
  Taken, read_chunk, is_complete, get_message_id, complete_header, message_timestamp,
  expected_length, message_of,
}
use live_streaming.Session.Reception.{taken, read_chunk-eq}

-- Chunks are read until one completes its message, for `fuel` chunks at most; `none` if a chunk was
-- refused.
unfoldable pub receive : ℕ → RtmpSession → Result (Option (Message × RtmpSession))
receive zero s = exhausted
receive (suc fuel) s = read_chunk s >>= λ (outcome, bs). elim outcome [
  | none ↦ ok none
  | some t ↦ elim (is_complete t.message) [
    | true ↦ ok (some (t.message, t.session))
    | false ↦ receive fuel t.session
  ]
]

header_of_continuation :
    (csid type size : ℕ)
    → 2 ≤ csid
    → csid < 5
    → Decodes
        (deserialize_header new_header)
        (encode_header (sent_header 3 csid type size))
        (record new_header { basic = record { format = 3; chunk_stream_id = csid } })
unfolding deserialize_header deserialize_common deserialize_extension encode_header encode_common
    extension
header_of_continuation csid type size h g =
    Decodes-bind _
      (deserialize_basic-Decodes (record { format = 3; chunk_stream_id = csid })
        (record { format_lt = omega arith; id_ge = h; id_lt = omega arith }))
      (Decodes-bind _ (pure-Decodes no_common) (pure-Decodes _))

header_of_start :
    (csid type size : ℕ)
    → 2 ≤ csid
    → csid < 5
    → type < 256
    → size < 256 ^ 3
    → Decodes
        (deserialize_header new_header)
        (encode_header (sent_header 0 csid type size))
        (sent_header 0 csid type size)
unfolding received visible wire_timestamp
header_of_start csid type size h g t n =
    deserialize_header-Decodes (sent_header 0 csid type size)
      (record { format_lt = omega arith; id_ge = h; id_lt = omega arith })
      (record {
        timestamp_lt = omega arith;
        length_lt = n;
        type_lt = omega arith;
        message_stream_id_lt = omega arith;
      })
      (omega arith)

-- The session holds the first bytes of a message: the next chunk continues it.
pub record IsMid (csid limit : ℕ) (type size : ℕ) (front : List ℕ) (s : RtmpSession) : Type 0 where
  pub chunk_size : s.max_chunk_size ≡ limit
  pub last_common : s.previous_chunk_commons csid ≡ some ((sent_header 0 csid type size).common)
  pub last_timestamp : s.message_previous_timestamp (get_message_id csid 0) ≡ some 0
  pub part :
      s.reading_messages (get_message_id csid 0)
      ≡ some (record {
        type = type;
        timestamp = 0;
        stream_id = 0;
        payload_length = size;
        payload = front;
      })

-- The message, as far as it has come.
abbrev pub so_far : ℕ → ℕ → List ℕ → Message
so_far type size payload = record {
  type = type;
  timestamp = 0;
  stream_id = 0;
  payload_length = size;
  payload = payload;
}

-- One chunk is read, and then there are `front` of the message and `rest` of the buffer.
unfoldable pub Reads : ℕ → ℕ → ℕ → ℕ → List ℕ → List ℕ → RtmpSession → Type 0
Reads csid limit type size front rest s =
    (t : Taken) × (bs : ByteStream) × (read_chunk s ≡ ok (some t, bs))
    × (t.message ≡ so_far type size front)
    × IsMid csid limit type size front t.session
    × (t.session.read_data_buffer ≡ rest)

-- The message is received and the rest of the buffer is left.
abbrev pub Receives : ℕ → RtmpSession → Message → List ℕ → Type 0
Receives fuel s m rest =
    (s' : RtmpSession) × (receive fuel s ≡ ok (some (m, s'))) × (s'.read_data_buffer ≡ rest)

left_over :
    (size front back : ℕ)
    → size < 256 ^ 3
    → front + back ≡ size
    → (size + 2 ^ 64 - front) % 2 ^ 32 ≡ back
left_over size front back h e = omega arith

update_self {ℓ} : {V : Type ℓ} (m : ℕ → Option V) (k : ℕ) (v : V) → update m k v k ≡ some v
update_self m k v = let e : (k == k) ≡ true = ground arith in rw e refl

-- The chunk that comes next in the middle of a message.
pub continue_read :
    (csid limit type size : ℕ) (front part rest : List ℕ) (s : RtmpSession)
    → 2 ≤ csid
    → csid < 5
    → size < 256 ^ 3
    → IsMid csid limit type size front s
    → s.read_data_buffer ≡ encode_header (sent_header 3 csid type size) ++ (part ++ rest)
    → min limit (size - length front) ≡ length part
    → length front ≤ size
    → Reads csid limit type size (front ++ part) rest s
unfolding Reads taken
continue_read csid limit type size front part rest s g h n mid e c l =
    let h' : ChunkHeader = sent_header 3 csid type size in
    let r =
      read_chunk-eq s (encode_header h') (record new_header { basic = h'.basic }) h' 0 part rest e
        (header_of_continuation csid type size g h)
        (unfold complete_header in rw (mid.last_common) refl)
        (unfold message_timestamp in rw (mid.last_timestamp) refl)
        (unfold expected_length in
          rw
            (
              mid.part,
              mid.chunk_size,
              left_over size (length front) (size - length front) n (omega arith),
            )
            c) in
    let m : (taken s h' 0 part rest).message ≡ so_far type size (front ++ part) =
      unfold message_of in rw (mid.part, message_of) refl in
    (
      taken s h' 0 part rest,
      _,
      r,
      m,
      record {
        chunk_size = mid.chunk_size;
        last_common = update_self s.previous_chunk_commons csid h'.common;
        last_timestamp = mid.last_timestamp;
        part = update_self s.reading_messages (get_message_id csid 0) _ ∙ ap some m;
      },
      refl,
    )

-- The first chunk of a message.
pub start_read :
    (csid limit type size : ℕ) (part rest : List ℕ) (s : RtmpSession)
    → 2 ≤ csid
    → csid < 5
    → type < 256
    → size < 256 ^ 3
    → s.max_chunk_size ≡ limit
    → s.reading_messages (get_message_id csid 0) ≡ none
    → s.read_data_buffer ≡ encode_header (sent_header 0 csid type size) ++ (part ++ rest)
    → min limit size ≡ length part
    → Reads csid limit type size part rest s
unfolding Reads taken
start_read csid limit type size part rest s g h t n cs fresh e c =
    let h' : ChunkHeader = sent_header 0 csid type size in
    let r =
      read_chunk-eq s (encode_header h') h' h' 0 part rest e
        (header_of_start csid type size g h t n) (unfold complete_header in refl)
        (unfold message_timestamp in refl) (unfold expected_length in rw (fresh, cs) c) in
    let m : (taken s h' 0 part rest).message ≡ so_far type size part =
      unfold message_of in rw (fresh, message_of) refl in
    (
      taken s h' 0 part rest,
      _,
      r,
      m,
      record {
        chunk_size = cs;
        last_common = update_self s.previous_chunk_commons csid h'.common;
        last_timestamp = update_self s.message_previous_timestamp (get_message_id csid 0) 0;
        part = update_self s.reading_messages (get_message_id csid 0) _ ∙ ap some m;
      },
      refl,
    )
