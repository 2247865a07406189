-- ===== src/Handshake.antt =====
-- server/handshake_message.h: the handshake messages of the client and of the server.
pub mod RoundTrip
use live_streaming.Base.{ℕ, ◌^◌, ◌<◌, List, length}
use live_streaming.Result.{Result, ok, throws}
use live_streaming.Stream.{
  ByteStream, Stream, ◌>>=◌, ◌>>◌, pure, pop_bytes, push_bytes, push_raw, pop_raw,
}

pub record CommonHandshakeMessage : Type 0 where
  pub timestamp : ℕ
  pub timestamp_sent : ℕ
  pub random_data : List ℕ

-- sizeof(random_data)
abbrev pub random_size : ℕ
random_size = 1528

-- HandshakeMessage0 holds the version alone.
unfoldable pub serialize_version : ℕ → Stream (Unit {0})
serialize_version version = push_bytes 1 version

unfoldable pub deserialize_version : ℕ → Stream ℕ
deserialize_version version = pop_bytes 1 version

unfoldable pub serialize_handshake : CommonHandshakeMessage → Stream (Unit {0})
serialize_handshake m = do
  push_bytes 4 m.timestamp
  push_bytes 4 m.timestamp_sent
  push_raw m.random_data

-- The message is an object that the fields are read into one by one: what an exception leaves in
-- it counts, so the result has the message in any case, and the stream if nothing was thrown.
abbrev pub Filled : Type 0
Filled = CommonHandshakeMessage × Result ByteStream

fill_random : CommonHandshakeMessage → ByteStream → Filled
fill_random m bs = elim (pop_raw random_size bs) [
  | ok (r, bs') ↦ (record m { random_data = r }, ok bs')
  | _ ↦ (m, throws)
]

fill_sent : CommonHandshakeMessage → ByteStream → Filled
unfolding fill_random
fill_sent m bs = elim (pop_bytes 4 m.timestamp_sent bs) [
  | ok (t, bs') ↦ fill_random (record m { timestamp_sent = t }) bs'
  | _ ↦ (m, throws)
]

unfoldable pub deserialize_handshake : CommonHandshakeMessage → ByteStream → Filled
unfolding fill_sent
deserialize_handshake m bs = elim (pop_bytes 4 m.timestamp bs) [
  | ok (t, bs') ↦ fill_sent (record m { timestamp = t }) bs'
  | _ ↦ (m, throws)
]
