-- ===== src/Control.antt =====
-- server/control_message.h: the protocol control messages, of types 4, 5 and 6.
pub mod RoundTrip
use live_streaming.Base.{ℕ}
use live_streaming.Stream.{Stream, ◌>>=◌, ◌>>◌, pure, pop_bytes, push_bytes}

-- AckWindowSize holds its window size alone.
abbrev pub ack_window_size_type : ℕ
ack_window_size_type = 5

unfoldable pub serialize_ack_window_size : ℕ → Stream (Unit {0})
serialize_ack_window_size window_size = push_bytes 4 window_size

unfoldable pub deserialize_ack_window_size : ℕ → Stream ℕ
deserialize_ack_window_size window_size = pop_bytes 4 window_size

pub record SetPeerBandwidth : Type 0 where
  pub window_size : ℕ
  pub limit : ℕ

abbrev pub set_peer_bandwidth_type : ℕ
set_peer_bandwidth_type = 6

unfoldable pub serialize_set_peer_bandwidth : SetPeerBandwidth → Stream (Unit {0})
serialize_set_peer_bandwidth m = do push_bytes 4 m.window_size; push_bytes 1 m.limit

unfoldable pub deserialize_set_peer_bandwidth : SetPeerBandwidth → Stream SetPeerBandwidth
deserialize_set_peer_bandwidth m = do
  window_size ← pop_bytes 4 m.window_size
  limit ← pop_bytes 1 m.limit
  pure (record { window_size = window_size; limit = limit })

pub record StreamBegin : Type 0 where
  pub event_type : ℕ
  pub message_stream_id : ℕ

abbrev pub user_control_type : ℕ
user_control_type = 4

-- UserControlStreamBeginMessage(id)
unfoldable pub new_stream_begin : ℕ → StreamBegin
new_stream_begin id = record { event_type = 0; message_stream_id = id }

unfoldable pub serialize_stream_begin : StreamBegin → Stream (Unit {0})
serialize_stream_begin m = do push_bytes 2 m.event_type; push_bytes 4 m.message_stream_id

unfoldable pub deserialize_stream_begin : StreamBegin → Stream StreamBegin
deserialize_stream_begin m = do
  event_type ← pop_bytes 2 m.event_type
  message_stream_id ← pop_bytes 4 m.message_stream_id
  pure (record { event_type = event_type; message_stream_id = message_stream_id })
