-- ===== src/Chunk/Chunking.antt =====
-- What ChunkSerializeHelper::Serialize appends for a message, as one byte string.
use live_streaming.Base.{
  ℕ, zero, suc, ◌%◌, ◌^◌, ◌<◌, ◌≤◌, ◌≡◌, refl, subst, List, [], ◌∷◌, ◌++◌, length, take, drop,
  arith, length-drop, append-nil, Bool, true, false, ◌==◌, if◌then◌else◌,
}
use live_streaming.Result.{Result, ok, aborts}
use live_streaming.Stream.Codec.{Encodes, Encodes-then, push_raw-Encodes}
use live_streaming.Chunk.{ChunkHeader}
use live_streaming.Chunk.BasicHeader.{IsBasic}
use live_streaming.Chunk.RoundTrip.{encode_header, serialize_header-Encodes}
use live_streaming.Chunk.Sending.{
  Outgoing, payload_of, get_chunk_stream_id_for_sending, sending_common, send_chunks,
  serialize_chunks,
}

-- The header of a chunk that is sent: all the fields are those of the message.
abbrev pub sent_header : ℕ → ℕ → ℕ → ℕ → ChunkHeader
sent_header format csid type size = record {
  basic = record { format = format; chunk_stream_id = csid };
  common = record { timestamp = 0; length = size; type = type; message_stream_id = 0 };
  extended_timestamp = 0;
}

-- The chunks of a payload, `csid`, `type` and `size` being those of the whole message.
unfoldable pub encode_chunks : ℕ → ℕ → ℕ → ℕ → ℕ → ℕ → List ℕ → List ℕ
encode_chunks zero format csid type size limit payload = []
encode_chunks (suc fuel) format csid type size limit [] = []
encode_chunks (suc fuel) format csid type size limit (x ∷ rest) =
    encode_header (sent_header format csid type size)
    ++ (take limit (x ∷ rest) ++ encode_chunks fuel 3 csid type size limit (drop limit (x ∷ rest)))

send_chunks-Encodes :
    (fuel format csid type size limit : ℕ) (payload : List ℕ)
    → format < 4
    → 2 ≤ csid
    → csid < 65600
    → 0 < limit
    → length payload ≤ fuel
    → Encodes
        (send_chunks fuel limit (sent_header format csid type size) payload)
        (encode_chunks fuel format csid type size limit payload)
unfolding send_chunks encode_chunks
send_chunks-Encodes zero format csid type size limit [] f g h l n = record {
  run = λ bs. rw (append-nil bs.bytes) refl;
}
send_chunks-Encodes zero format csid type size limit (x ∷ rest) f g h l n =
    absurd (omega (arith, n))
send_chunks-Encodes (suc fuel) format csid type size limit [] f g h l n = record {
  run = λ bs. rw (append-nil bs.bytes) refl;
}
send_chunks-Encodes (suc fuel) format csid type size limit (x ∷ rest) f g h l n =
    let b : IsBasic (record { format = format; chunk_stream_id = csid }) = record {
      format_lt = f;
      id_ge = g;
      id_lt = h;
    } in
    record {
      run =
          (Encodes-then (serialize_header-Encodes (sent_header format csid type size) b) (
            Encodes-then (push_raw-Encodes (take limit (x ∷ rest))) (
              send_chunks-Encodes fuel 3 csid type size limit (drop limit (x ∷ rest)) (omega arith)
                g h l (omega (arith, length-drop limit (x ∷ rest)))))).run;
    }

-- A chunk stream id, if there is one, is one of those that the program sends on.
data IsSending : Result ℕ → Type 0 where
  sends : (csid : ℕ) → 2 ≤ csid → csid < 5 → IsSending (ok csid)
  refuses : IsSending aborts

IsSending-if :
    (b : Bool) {r r' : Result ℕ} → IsSending r → IsSending r' → IsSending (if b then r else r')
IsSending-if true h g = h
IsSending-if false h g = g

get_chunk_stream_id-IsSending : (type : ℕ) → IsSending (get_chunk_stream_id_for_sending type)
unfolding get_chunk_stream_id_for_sending
get_chunk_stream_id-IsSending type = IsSending-if _ (sends 2 (omega arith) (omega arith)) (
    IsSending-if _ (sends 4 (omega arith) (omega arith))
      (IsSending-if _ (sends 3 (omega arith) (omega arith)) refuses))

IsSending-bounds : (csid : ℕ) → IsSending (ok csid) → (2 ≤ csid) × (csid < 5)
IsSending-bounds csid (sends _ h g) = (h, g)

pub get_chunk_stream_id-bounds :
    (type csid : ℕ) → get_chunk_stream_id_for_sending type ≡ ok csid → (2 ≤ csid) × (csid < 5)
get_chunk_stream_id-bounds type csid e =
    IsSending-bounds csid (subst IsSending e (get_chunk_stream_id-IsSending type))

pub serialize_chunks-Encodes :
    (now limit csid : ℕ) (m : Outgoing) (payload : List ℕ)
    → payload_of m.body ≡ ok payload
    → get_chunk_stream_id_for_sending m.type ≡ ok csid
    → 0 < limit
    → 0 < length payload
    → length payload < 256 ^ 3
    → Encodes
        (serialize_chunks now limit m)
        (encode_chunks (length payload) 0 csid m.type (length payload) limit payload)
unfolding serialize_chunks sending_common
serialize_chunks-Encodes now limit csid m payload p c l n u =
    let b = get_chunk_stream_id-bounds m.type csid c in
    let z : (length payload == 0) ≡ false = ground arith in
    let w : length payload % 2 ^ 32 ≡ length payload = omega arith in
    record {
      run = λ bs.
          rw (p, z, c, w)
            ((send_chunks-Encodes (length payload) 0 csid m.type (length payload) limit payload
                (omega arith) b.0 (omega arith) l (omega arith)).run
              bs);
    }
