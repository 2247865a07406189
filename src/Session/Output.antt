-- ===== src/Session/Output.antt =====
-- Session::Write (server/net.h) and RTMPSession::SendMediaData (server/rtmp.cc) on a connection that
-- takes the data.
use live_streaming.Base.{
  ℕ, ◌^◌, ◌<◌, ◌≡◌, refl, true, false, List, [], ◌++◌, ◌==◌, ◌∷◌, suc, ap, sym, append-nil, length,
  arith, none,
}
use live_streaming.Result.{ok}
use live_streaming.Stream.{Stream, open_stream, close_stream, commit, revert, push_raw}
use live_streaming.Stream.Codec.{Encodes}
use live_streaming.Chunk.Sending.{Outgoing, payload_of, get_chunk_stream_id_for_sending}
use live_streaming.Session.{
  RtmpSession, Environment, append_output, write, send_chunked, caught, send_media_data,
}
use live_streaming.Chunk.Chunking.{encode_chunks, serialize_chunks-Encodes}
use live_streaming.Session.Chunks.{get_message_id}
use live_streaming.Session.Receiving.{Receives, so_far}
use live_streaming.Session.Transfer.{receive-encode_chunks}

pub append_output-eq :
    (w : Stream (Unit {0})) (xs : List ℕ) (s : RtmpSession)
    → Encodes w xs
    → append_output w s ≡ ok (record s { write_data_buffer = s.write_data_buffer ++ xs })
unfolding append_output open_stream close_stream commit revert
append_output-eq w xs s e =
    let n : (length (s.write_data_buffer ++ xs) == length (s.write_data_buffer ++ xs)) ≡ true =
      ground arith in
    rw (e.run (open_stream s.write_data_buffer)) (rw n refl)

-- What was appended to an empty write buffer is all sent.
write-eq :
    (env : Environment) (key : ℕ) (xs : List ℕ) (s : RtmpSession)
    → env.write_fails key s.sent xs ≡ false
    → (write env key (record s { write_data_buffer = xs })).0
      ≡ record s { write_data_buffer = []; sent = s.sent ++ xs }
unfolding write
write-eq env key [] s f =
    ap (λ (ys : List ℕ). record s { write_data_buffer = []; sent = ys }) (sym (append-nil s.sent))
write-eq env key (x ∷ xs) s f =
    let z : (suc (length xs) == 0) ≡ false = ground arith in rw (z, f) refl

payload_of-push_raw : (payload : List ℕ) → payload_of (push_raw payload) ≡ ok payload
unfolding payload_of push_raw open_stream commit
payload_of-push_raw payload = refl

send_media_data-eq :
    (env : Environment) (key type timestamp : ℕ) (payload : List ℕ) (s : RtmpSession)
    → get_chunk_stream_id_for_sending type ≡ ok 4
    → 0 < length payload
    → length payload < 256 ^ 3
    → 0 < s.max_chunk_size_for_sending
    → s.write_data_buffer ≡ []
    → ((sent xs : List ℕ) → env.write_fails key sent xs ≡ false)
    → send_media_data env key type timestamp payload s
      ≡ ok (record s {
        write_data_buffer = [];
        sent =
            s.sent
            ++ encode_chunks
                (length payload)
                0
                4
                type
                (length payload)
                s.max_chunk_size_for_sending
                payload;
      })
unfolding send_media_data send_chunked caught
send_media_data-eq env key type timestamp payload s c z n l b f =
    let limit = s.max_chunk_size_for_sending in
    let m : Outgoing = record {
      type = type;
      timestamp = timestamp;
      stream_id = s.msid_for_create_stream;
      body = push_raw payload;
    } in
    let xs = encode_chunks (length payload) 0 4 type (length payload) limit payload in
    let e =
      serialize_chunks-Encodes env.uptime limit 4 m payload (payload_of-push_raw payload) c l z n in
    rw (append_output-eq _ xs s e) (rw b (rw (write-eq env key xs s (f _ _)) refl))

-- A session with nothing to write and a positive chunk size for sending, on a connection that takes
-- all data, sends audio, video or metadata of 1 to 2 ^ 24 - 1 bytes as some bytes. A session that has these in its read buffer,
-- whatever follows, whose chunk size is the sender's and which has no message begun on that chunk
-- stream, puts the message together again, with its type and payload.
pub send_media_data-Receives :
    (env : Environment) (key type timestamp : ℕ) (payload : List ℕ) (s : RtmpSession)
    → get_chunk_stream_id_for_sending type ≡ ok 4
    → type < 256
    → 0 < length payload
    → length payload < 256 ^ 3
    → 0 < s.max_chunk_size_for_sending
    → s.write_data_buffer ≡ []
    → ((sent xs : List ℕ) → env.write_fails key sent xs ≡ false)
    → (xs : List ℕ) × (send_media_data env key type timestamp payload s
        ≡ ok (record s { write_data_buffer = []; sent = s.sent ++ xs }))
      × ((client : RtmpSession) (rest : List ℕ)
          → client.max_chunk_size ≡ s.max_chunk_size_for_sending
          → client.reading_messages (get_message_id 4 0) ≡ none
          → Receives
              (length payload)
              (record client { read_data_buffer = xs ++ rest })
              (so_far type (length payload) payload)
              rest)
send_media_data-Receives env key type timestamp payload s c t z n l b f = (
  _,
  send_media_data-eq env key type timestamp payload s c z n l b f,
  λ client rest k e.
      receive-encode_chunks (length payload) 4 s.max_chunk_size_for_sending type payload rest
        (record client { read_data_buffer = _ }) (omega arith) (omega arith) t n l k e refl z
        (omega arith),
)
