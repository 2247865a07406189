-- ===== src/Net.antt =====
-- util/net, the networking library: byte strings that are shared until one is changed, the stream of
-- a protocol over them, and the sessions and tasks of the event loop.
pub mod Octets
pub mod Stream
pub mod Receiver
pub mod Sender
pub mod Delivery
