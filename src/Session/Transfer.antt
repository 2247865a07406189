-- ===== src/Session/Transfer.antt =====
-- What ChunkSerializeHelper::Serialize (server/chunk_message.cc) sends and the chunk reader of
-- RTMPSession (server/rtmp.cc) makes of it, on the two ends of a connection.
use live_streaming.Base.{
  ℕ, zero, suc, ◌+◌, ◌^◌, ◌<◌, ◌≤◌, ◌≡◌, refl, sym, ap, ◌∙◌, subst, List, [], ◌∷◌, ◌++◌, length,
  take, drop, arith, length-drop, length-take, take-append-drop, length-append_bytes, append-nil,
  append_assoc, true, false, ◌==◌, none,
}
use live_streaming.Result.{ok, ◌>>=◌}
use live_streaming.Stream.Codec.{Encodes}
use live_streaming.Chunk.RoundTrip.{encode_header}
use live_streaming.Chunk.Sending.{
  Outgoing, payload_of, get_chunk_stream_id_for_sending, serialize_chunks,
}
use live_streaming.Chunk.Chunking.{
  sent_header, encode_chunks, serialize_chunks-Encodes, get_chunk_stream_id-bounds,
}
use live_streaming.Session.{RtmpSession}
use live_streaming.Session.Chunks.{is_complete, get_message_id}
use live_streaming.Session.Receiving.{
  receive, IsMid, Reads, Receives, so_far, continue_read, start_read,
}

encode_chunks-nil :
    (fuel csid type size limit : ℕ) → encode_chunks fuel 3 csid type size limit [] ≡ []
unfolding encode_chunks
encode_chunks-nil zero csid type size limit = refl
encode_chunks-nil (suc fuel) csid type size limit = refl

split_chunk : (a b c d : List ℕ) → (a ++ (b ++ c)) ++ d ≡ a ++ (b ++ (c ++ d))
split_chunk a b c d = append_assoc a (b ++ c) d ∙ ap (λ (xs : List ℕ). a ++ xs) (append_assoc b c d)

-- After a chunk either the message is whole, or the chunks that follow bring what is missing.
after_read :
    (fuel csid limit type size : ℕ) (front back rest : List ℕ) (s : RtmpSession)
    → Reads csid limit type size front (encode_chunks fuel 3 csid type size limit back ++ rest) s
    → length front + length back ≡ size
    → ((s' : RtmpSession)
        → IsMid csid limit type size front s'
        → s'.read_data_buffer ≡ encode_chunks fuel 3 csid type size limit back ++ rest
        → 0 < length back
        → Receives fuel s' (so_far type size (front ++ back)) rest)
    → Receives (suc fuel) s (so_far type size (front ++ back)) rest
unfolding Reads receive
after_read fuel csid limit type size front [] rest s (t, bs, r, m, mid, b) n go =
    let full : (length front == size) ≡ true = ground arith in
    let complete : is_complete t.message ≡ true = unfold is_complete in rw m full in
    (
      t.session,
      rw r (rw (complete, ◌>>=◌) (rw (m, append-nil front) refl)),
      b ∙ ap (λ (xs : List ℕ). xs ++ rest) (encode_chunks-nil fuel csid type size limit),
    )
after_read fuel csid limit type size front (y ∷ ys) rest s (t, bs, r, m, mid, b) n go =
    let partial : (length front == size) ≡ false = ground arith in
    let incomplete : is_complete t.message ≡ false = unfold is_complete in rw m partial in
    let (s', q, l) = go t.session mid b (omega arith) in (s', rw r (rw (incomplete, ◌>>=◌) q), l)

-- The middle of a message and the chunks that are left of it.
continue :
    (fuel csid limit type size : ℕ) (front back rest : List ℕ) (s : RtmpSession)
    → 2 ≤ csid
    → csid < 5
    → size < 256 ^ 3
    → 0 < limit
    → IsMid csid limit type size front s
    → s.read_data_buffer ≡ encode_chunks fuel 3 csid type size limit back ++ rest
    → length front + length back ≡ size
    → length back ≤ fuel
    → 0 < length back
    → Receives fuel s (so_far type size (front ++ back)) rest
unfolding encode_chunks
continue zero csid limit type size front back rest s g h n p mid e l f z =
    absurd (omega (arith, f, z))
continue (suc fuel) csid limit type size front [] rest s g h n p mid e l f z =
    absurd (omega (arith, z))
continue (suc fuel) csid limit type size front (y ∷ ys) rest s g h n p mid e l f z =
    let part = take limit (y ∷ ys) in
    let back = drop limit (y ∷ ys) in
    let lt = length-take limit (y ∷ ys) in
    let ld = length-drop limit (y ∷ ys) in
    let parts =
      split_chunk (encode_header (sent_header 3 csid type size)) part
        (encode_chunks fuel 3 csid type size limit back) rest in
    let w = length-append_bytes front part in
    let read =
      continue_read csid limit type size front part _ s g h n mid (e ∙ parts) (omega (arith, lt))
        (omega arith) in
    let q =
      after_read fuel csid limit type size (front ++ part) back rest s read
        (omega (arith, w, lt, ld))
        (λ s' mid' e' z'.
          continue fuel csid limit type size (front ++ part) back rest s' g h n p mid' e'
            (omega (arith, w, lt, ld)) (omega (arith, ld)) z') in
    subst (λ (xs : List ℕ). Receives (suc fuel) s (so_far type size xs) rest)
      (append_assoc front part back
        ∙ ap (λ (xs : List ℕ). front ++ xs) (take-append-drop limit (y ∷ ys)))
      q

pub receive-encode_chunks :
    (fuel csid limit type : ℕ) (payload rest : List ℕ) (s : RtmpSession)
    → 2 ≤ csid
    → csid < 5
    → type < 256
    → length payload < 256 ^ 3
    → 0 < limit
    → s.max_chunk_size ≡ limit
    → s.reading_messages (get_message_id csid 0) ≡ none
    → s.read_data_buffer ≡ encode_chunks fuel 0 csid type (length payload) limit payload ++ rest
    → 0 < length payload
    → length payload ≤ fuel
    → Receives fuel s (so_far type (length payload) payload) rest
unfolding encode_chunks
receive-encode_chunks zero csid limit type payload rest s g h t n p cs fresh e z f =
    absurd (omega (arith, f, z))
receive-encode_chunks (suc fuel) csid limit type [] rest s g h t n p cs fresh e z f =
    absurd (omega (arith, z))
receive-encode_chunks (suc fuel) csid limit type (y ∷ ys) rest s g h t n p cs fresh e z f =
    let size = length (y ∷ ys) in
    let part = take limit (y ∷ ys) in
    let back = drop limit (y ∷ ys) in
    let lt = length-take limit (y ∷ ys) in
    let ld = length-drop limit (y ∷ ys) in
    let parts =
      split_chunk (encode_header (sent_header 0 csid type size)) part
        (encode_chunks fuel 3 csid type size limit back) rest in
    let read = start_read csid limit type size part _ s g h t n cs fresh (e ∙ parts) (sym lt) in
    let q =
      after_read fuel csid limit type size part back rest s read (omega (arith, lt, ld))
        (λ s' mid' e' z'.
          continue fuel csid limit type size part back rest s' g h n p mid' e'
            (omega (arith, lt, ld)) (omega (arith, ld)) z') in
    subst (λ (xs : List ℕ). Receives (suc fuel) s (so_far type size xs) rest)
      (take-append-drop limit (y ∷ ys)) q

-- Take a message with a one-byte type that has a chunk stream for sending, and a payload of 1 to
-- 2 ^ 24 - 1 bytes. A positive limit being the chunk size of both ends, the message is appended as
-- some bytes. A session with these in its read buffer, whatever follows, and no message begun on
-- that chunk stream, reads chunks, at most one for each byte of the payload, until it has
-- a message with the same type and payload, and timestamp and stream id 0; what follows is left in
-- the buffer.
pub receive-serialize_chunks :
    (now limit csid : ℕ) (m : Outgoing) (payload : List ℕ) (s : RtmpSession)
    → payload_of m.body ≡ ok payload
    → get_chunk_stream_id_for_sending m.type ≡ ok csid
    → m.type < 256
    → 0 < length payload
    → length payload < 256 ^ 3
    → 0 < limit
    → s.max_chunk_size ≡ limit
    → s.reading_messages (get_message_id csid 0) ≡ none
    → (xs : List ℕ) × Encodes (serialize_chunks now limit m) xs
      × ((rest : List ℕ)
          → Receives
              (length payload)
              (record s { read_data_buffer = xs ++ rest })
              (so_far m.type (length payload) payload)
              rest)
receive-serialize_chunks now limit csid m payload s p c t z n l cs fresh =
    let b = get_chunk_stream_id-bounds m.type csid c in
    (
      _,
      serialize_chunks-Encodes now limit csid m payload p c l z n,
      λ rest.
          receive-encode_chunks (length payload) csid limit m.type payload rest
            (record s { read_data_buffer = _ }) b.0 b.1 t n l cs fresh refl z (omega arith),
    )
