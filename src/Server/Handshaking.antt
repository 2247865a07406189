-- ===== src/Server/Handshaking.antt =====
-- The whole handshake of server/rtmp.cc, in one read event.
use live_streaming.Base.{
  ℕ, ◌+◌, ◌/◌, ◌%◌, ◌^◌, ◌<◌, ◌≡◌, refl, true, false, List, [], ◌++◌, ◌==◌, length, some, arith,
  subst, drop,
}
use live_streaming.Result.{ok}
use live_streaming.Stream.{Stream, open_stream, commit, be_bytes}
use live_streaming.Stream.Codec.{
  Encodes, Encodes-then, push_bytes-Encodes, unread-advance, pop_bytes-Decodes, sizes,
}
use live_streaming.Handshake.{CommonHandshakeMessage, serialize_version, deserialize_version}
use live_streaming.Handshake.RoundTrip.{
  IsHandshake, encode_handshake, serialize_handshake-Encodes, length-encode_handshake,
  deserialize_handshake-encode,
}
use live_streaming.Session.{
  RtmpSession, Environment, uninitialized, version_sent, ack_sent, handshake_done, write,
}
use live_streaming.Session.Output.{append_output-eq}
use live_streaming.Server.World.{World}
use live_streaming.Server.Reading.{
  flush, send_s0_and_s1, send_s2, read_handshake, goes_on, after_send, step_uninitialized,
  step_version_sent, step_ack_sent, on_read_in_uninitialized_state, on_read_in_version_sent_state,
  on_read_in_ack_sent_state, on_read_in_handshake_done_state, on_read, store,
}

-- With an empty write buffer and a connection that takes the data, all is sent.
flush-eq :
    (env : Environment) (key : ℕ) (w : Stream (Unit {0})) (xs : List ℕ) (s : RtmpSession)
    → Encodes w xs
    → 0 < length xs
    → s.write_data_buffer ≡ []
    → env.write_fails key s.sent xs ≡ false
    → flush env key w s ≡ ok (record s { write_data_buffer = []; sent = s.sent ++ xs }, true)
unfolding write
flush-eq env key w xs s e n b f =
    let z : (length xs == 0) ≡ false = ground arith in
    rw (append_output-eq w xs s e) (rw b (rw (z, f) refl))

-- What the server answers: S1 with the clock, and S2 with the peer's message.
unfoldable pub answer_s1 : Environment → CommonHandshakeMessage → CommonHandshakeMessage
answer_s1 env s1 = record s1 { timestamp = env.uptime / 1000 % 2 ^ 32; timestamp_sent = 0 }

unfoldable pub answer_s2 : CommonHandshakeMessage → CommonHandshakeMessage → CommonHandshakeMessage
answer_s2 m1 s1 = record {
  timestamp = m1.timestamp;
  timestamp_sent = s1.timestamp;
  random_data = m1.random_data;
}

encode_handshake_pos : (m : CommonHandshakeMessage) → 0 < length (encode_handshake m)
unfolding encode_handshake
encode_handshake_pos m = omega sizes

send_s0_and_s1-eq :
    (env : Environment) (key : ℕ) (s : RtmpSession)
    → s.write_data_buffer ≡ []
    → ((sent xs : List ℕ) → env.write_fails key sent xs ≡ false)
    → send_s0_and_s1 env key s
      ≡ ok (
        record s {
          s1 = answer_s1 env s.s1;
          write_data_buffer = [];
          sent = s.sent ++ (be_bytes 1 3 ++ encode_handshake (answer_s1 env s.s1));
        },
        true,
      )
unfolding send_s0_and_s1 serialize_version answer_s1
send_s0_and_s1-eq env key s b f =
    let m = answer_s1 env s.s1 in
    flush-eq env key _ (be_bytes 1 3 ++ encode_handshake m) (record s { s1 = m })
      (Encodes-then (push_bytes-Encodes 1 3) (serialize_handshake-Encodes m)) (omega sizes) b
      (f _ _)

send_s2-eq :
    (env : Environment) (key : ℕ) (s : RtmpSession)
    → s.write_data_buffer ≡ []
    → ((sent xs : List ℕ) → env.write_fails key sent xs ≡ false)
    → send_s2 env key s
      ≡ ok (
        record s {
          s2 = answer_s2 s.c1 s.s1;
          write_data_buffer = [];
          sent = s.sent ++ encode_handshake (answer_s2 s.c1 s.s1);
        },
        true,
      )
unfolding send_s2 answer_s2
send_s2-eq env key s b f =
    let m = answer_s2 s.c1 s.s1 in
    flush-eq env key _ (encode_handshake m) (record s { s2 = m }) (serialize_handshake-Encodes m)
      (encode_handshake_pos m) b (f _ _)

read_handshake-eq :
    (old m : CommonHandshakeMessage) (s : RtmpSession) (rest : List ℕ)
    → (old.timestamp < 256 ^ 4) × (old.timestamp_sent < 256 ^ 4)
    → IsHandshake m
    → s.read_data_buffer ≡ encode_handshake m ++ rest
    → read_handshake old s ≡ (m, some rest)
unfolding read_handshake open_stream commit
read_handshake-eq old m s rest h v e =
    let b = open_stream s.read_data_buffer in
    let n = length-encode_handshake m v in
    let u : drop 1536 s.read_data_buffer ≡ rest =
      subst (λ (k : ℕ). drop (0 + k) s.read_data_buffer ≡ rest) n
        (unread-advance b (encode_handshake m) rest e) in
    let d = deserialize_handshake-encode old m b rest h.0 h.1 v e in
    rw (d, read_handshake) (rw d (rw u refl))

step_uninitialized-eq :
    (env : Environment) (key : ℕ) (s : RtmpSession) (rest : List ℕ)
    → s.c0 < 256
    → s.write_data_buffer ≡ []
    → ((sent xs : List ℕ) → env.write_fails key sent xs ≡ false)
    → s.read_data_buffer ≡ be_bytes 1 3 ++ rest
    → step_uninitialized env key s
      ≡ ok (
          goes_on (record s {
            c0 = 3;
            read_data_buffer = rest;
            s1 = answer_s1 env s.s1;
            write_data_buffer = [];
            sent = s.sent ++ (be_bytes 1 3 ++ encode_handshake (answer_s1 env s.s1));
            state = version_sent;
          }))
unfolding step_uninitialized deserialize_version after_send commit open_stream
step_uninitialized-eq env key s rest c b f e =
    let o = open_stream s.read_data_buffer in
    let d = (pop_bytes-Decodes 1 s.c0 3 (omega arith) (omega arith)).run o rest e in
    let u = unread-advance o (be_bytes 1 3) rest e in
    rw (d, step_uninitialized)
      (rw u
        (rw (send_s0_and_s1-eq env key (record s { c0 = 3; read_data_buffer = rest }) b f) refl))

step_version_sent-eq :
    (env : Environment) (key : ℕ) (s : RtmpSession) (m : CommonHandshakeMessage) (rest : List ℕ)
    → (s.c1.timestamp < 256 ^ 4) × (s.c1.timestamp_sent < 256 ^ 4)
    → IsHandshake m
    → s.write_data_buffer ≡ []
    → ((sent xs : List ℕ) → env.write_fails key sent xs ≡ false)
    → s.read_data_buffer ≡ encode_handshake m ++ rest
    → step_version_sent env key s
      ≡ ok (
          goes_on (record s {
            c1 = m;
            read_data_buffer = rest;
            s2 = answer_s2 m s.s1;
            write_data_buffer = [];
            sent = s.sent ++ encode_handshake (answer_s2 m s.s1);
            state = ack_sent;
          }))
unfolding step_version_sent after_send
step_version_sent-eq env key s m rest h v b f e =
    let r = read_handshake-eq s.c1 m s rest h v e in
    rw (r, step_version_sent)
      (rw r (rw (send_s2-eq env key (record s { c1 = m; read_data_buffer = rest }) b f) refl))

step_ack_sent-eq :
    (s : RtmpSession) (m : CommonHandshakeMessage) (rest : List ℕ)
    → (s.c2.timestamp < 256 ^ 4) × (s.c2.timestamp_sent < 256 ^ 4)
    → IsHandshake m
    → s.read_data_buffer ≡ encode_handshake m ++ rest
    → step_ack_sent s
      ≡ goes_on (record s { c2 = m; read_data_buffer = rest; state = handshake_done })
unfolding step_ack_sent
step_ack_sent-eq s m rest h v e =
    let r = read_handshake-eq s.c2 m s rest h v e in rw (r, step_ack_sent) (rw r refl)

-- The session once the handshake is done.
unfoldable pub shaken :
    Environment
    → CommonHandshakeMessage
    → CommonHandshakeMessage
    → List ℕ
    → RtmpSession
    → RtmpSession
shaken env m1 m2 rest s =
    let a1 = answer_s1 env s.s1 in
    let a2 = answer_s2 m1 a1 in
    record s {
      c0 = 3;
      c1 = m1;
      c2 = m2;
      s1 = a1;
      s2 = a2;
      state = handshake_done;
      read_data_buffer = rest;
      write_data_buffer = [];
      sent = (s.sent ++ (be_bytes 1 3 ++ encode_handshake a1)) ++ encode_handshake a2;
    }

-- A session that has not begun the handshake, with nothing to write, on a connection that takes all
-- data, has version 3 and two handshake messages in its read buffer, whatever follows. Then OnRead
-- keeps the two messages, sends version 3, a message with the time, and one that echoes the first
-- message with the time of the one before, and goes on to the chunk reader with what follows. (The
-- fields that are read into hold numbers of their width.)
pub on_read-handshake :
    (env : Environment) (key : ℕ) (s : RtmpSession) (w : World) (m1 m2 : CommonHandshakeMessage)
    (rest : List ℕ)
    → s.state ≡ uninitialized
    → s.write_data_buffer ≡ []
    → ((sent xs : List ℕ) → env.write_fails key sent xs ≡ false)
    → s.c0 < 256
    → (s.c1.timestamp < 256 ^ 4) × (s.c1.timestamp_sent < 256 ^ 4)
    → (s.c2.timestamp < 256 ^ 4) × (s.c2.timestamp_sent < 256 ^ 4)
    → IsHandshake m1
    → IsHandshake m2
    → s.read_data_buffer ≡ be_bytes 1 3 ++ (encode_handshake m1 ++ (encode_handshake m2 ++ rest))
    → on_read env key s w
      ≡ on_read_in_handshake_done_state env key
          (shaken env m1 m2 rest s)
          (store key (shaken env m1 m2 rest s) w)
unfolding on_read on_read_in_uninitialized_state on_read_in_version_sent_state
    on_read_in_ack_sent_state shaken
on_read-handshake env key s w m1 m2 rest e b f c0 c1 c2 v1 v2 r =
    let after1 = encode_handshake m1 ++ (encode_handshake m2 ++ rest) in
    let started : RtmpSession = record s {
      c0 = 3;
      read_data_buffer = after1;
      s1 = answer_s1 env s.s1;
      write_data_buffer = [];
      sent = s.sent ++ (be_bytes 1 3 ++ encode_handshake (answer_s1 env s.s1));
      state = version_sent;
    } in
    let acked : RtmpSession = record started {
      c1 = m1;
      read_data_buffer = encode_handshake m2 ++ rest;
      s2 = answer_s2 m1 started.s1;
      sent = started.sent ++ encode_handshake (answer_s2 m1 started.s1);
      state = ack_sent;
    } in
    let p1 = step_uninitialized-eq env key s after1 c0 b f r in
    let p2 =
      step_version_sent-eq env key started m1 (encode_handshake m2 ++ rest) c1 v1 refl f refl in
    let p3 = step_ack_sent-eq acked m2 rest c2 v2 refl in
    rw (e, on_read) (rw p1 (rw p2 (rw p3 refl)))
