-- ===== src/Control/RoundTrip.antt =====
-- Control messages as they travel (server/control_message.h).
use live_streaming.Base.{ℕ, ◌^◌, ◌<◌, append-nil}
use live_streaming.Stream.Codec.{
  RoundTrips, push_bytes-Encodes, pop_bytes-Decodes, pure-Decodes, Encodes-then, Decodes-bind,
  Decodes-eq,
}
use live_streaming.Control.{
  SetPeerBandwidth, StreamBegin, serialize_ack_window_size, deserialize_ack_window_size,
  serialize_set_peer_bandwidth, deserialize_set_peer_bandwidth, serialize_stream_begin,
  deserialize_stream_begin,
}

-- AckWindowSize, SetPeerBandwidth and UserControlStreamBegin messages whose fields fit their
-- widths come back as they were sent, into any objects whose fields do.
pub control_messages_RoundTrips :
    (size old_size : ℕ) (m old : SetPeerBandwidth) (b old_b : StreamBegin)
    → size < 256 ^ 4
    → old_size < 256 ^ 4
    → (m.window_size < 256 ^ 4) × (m.limit < 256 ^ 1)
    → (old.window_size < 256 ^ 4) × (old.limit < 256 ^ 1)
    → (b.event_type < 256 ^ 2) × (b.message_stream_id < 256 ^ 4)
    → (old_b.event_type < 256 ^ 2) × (old_b.message_stream_id < 256 ^ 4)
    → RoundTrips (serialize_ack_window_size size) (deserialize_ack_window_size old_size) size
      × RoundTrips (serialize_set_peer_bandwidth m) (deserialize_set_peer_bandwidth old) m
      × RoundTrips (serialize_stream_begin b) (deserialize_stream_begin old_b) b
unfolding serialize_ack_window_size deserialize_ack_window_size serialize_set_peer_bandwidth
    deserialize_set_peer_bandwidth serialize_stream_begin deserialize_stream_begin
control_messages_RoundTrips size old_size m old b old_b h ho hm hold hb holdb = (
  (_, push_bytes-Encodes 4 size, pop_bytes-Decodes 4 old_size size h ho),
  (
    _,
    Encodes-then (push_bytes-Encodes 4 _) (push_bytes-Encodes 1 _),
    Decodes-bind _ (pop_bytes-Decodes 4 _ m.window_size hm.0 hold.0) (
        Decodes-eq (append-nil _)
          (Decodes-bind _ (pop_bytes-Decodes 1 _ m.limit hm.1 hold.1) (pure-Decodes m))),
  ),
  (
    _,
    Encodes-then (push_bytes-Encodes 2 _) (push_bytes-Encodes 4 _),
    Decodes-bind _ (pop_bytes-Decodes 2 _ b.event_type hb.0 holdb.0) (
        Decodes-eq (append-nil _) (
          Decodes-bind _ (pop_bytes-Decodes 4 _ b.message_stream_id hb.1 holdb.1)
            (pure-Decodes b))),
  ),
)
