-- ===== src/Chunk/Sending.antt =====
-- server/chunk_message.cc, ChunkSerializeHelper, with what it asks of the session (server/rtmp.h):
-- a message goes out as a run of chunks.
use live_streaming.Base.{
  ℕ, zero, suc, ◌/◌, ◌%◌, ◌^◌, List, [], ◌∷◌, leb, ◌==◌, if◌then◌else◌, length, take, ◌&&◌, ◌||◌,
  drop,
}
use live_streaming.Result.{Result, ok, aborts, exhausted}
use live_streaming.Result
use live_streaming.Stream.{Stream, ◌>>◌, push_raw, open_stream, commit}
use live_streaming.Chunk.{ChunkHeader, ChunkCommon, new_header, serialize_header}

-- A message to send: the fields that the helper reads, and its virtual Serialize.
pub record Outgoing : Type 0 where
  pub type : ℕ
  pub timestamp : ℕ
  pub stream_id : ℕ
  pub body : Stream (Unit {0})

-- GetChunkStreamIdForSending; `none` is its failed assertion.
unfoldable pub get_chunk_stream_id_for_sending : ℕ → Result ℕ
get_chunk_stream_id_for_sending type =
    if leb 1 type && leb type 6
    then ok 2
    else if type == 8 || type == 9 || type == 18
    then ok 4
    else if type == 20
    then ok 3
    else aborts

-- ByteStream(payload) << message << Commit(), over an empty vector.
unfoldable pub payload_of : Stream (Unit {0}) → Result (List ℕ)
unfolding open_stream commit
payload_of body = Result.◌>>=◌ (body (open_stream [])) (λ (_, bs). ok (commit bs).bytes)

-- The common part of the header. The test is on the type of the new header, which is set after it.
unfoldable pub sending_common : ℕ → Outgoing → ℕ → ChunkCommon
sending_common now m size =
    let fresh = new_header.common in
    let is_media = leb 7 fresh.type in
    record {
      timestamp =
          if is_media then if m.timestamp == 0 then now / 1000 % 2 ^ 32 else m.timestamp else 0;
      length = size % 2 ^ 32;
      type = m.type;
      message_stream_id =
          if is_media then if m.stream_id == 0 then now % 2 ^ 32 else m.stream_id else 0;
    }

-- The loop over the payload, of which `rest` is not sent yet.
unfoldable pub send_chunks : ℕ → ℕ → ChunkHeader → List ℕ → Stream (Unit {0})
send_chunks fuel limit header [] bs = ok (tt, bs)
send_chunks zero limit header (x ∷ rest) bs = exhausted
send_chunks (suc fuel) limit header (x ∷ rest) bs =
    let next = record header {
      basic = record { format = 3; chunk_stream_id = header.basic.chunk_stream_id };
    } in
    (do
      serialize_header header
      push_raw (take limit (x ∷ rest))
      send_chunks fuel limit next (drop limit (x ∷ rest)))
      bs

-- ChunkSerializeHelper::Serialize. `now` is GetPassedTimeSinceStartedInMicroSeconds, `limit` the
-- session's max_chunk_size_for_sending_.
unfoldable pub serialize_chunks : ℕ → ℕ → Outgoing → Stream (Unit {0})
unfolding payload_of sending_common get_chunk_stream_id_for_sending
serialize_chunks now limit m bs = Result.◌>>=◌ (payload_of m.body) λ payload.
    if length payload == 0
    then aborts
    else Result.◌>>=◌ (get_chunk_stream_id_for_sending m.type) λ csid.
      send_chunks (length payload) limit
        (record {
          basic = record { format = 0; chunk_stream_id = csid };
          common = sending_common now m (length payload);
          extended_timestamp = new_header.extended_timestamp;
        })
        payload bs
