-- ===== src/Server.antt =====
-- server/rtmp.cc, RTMPSession's handlers, over the sessions of the server and its room manager.
pub mod World
pub mod Commands
pub mod Reading
pub mod Listener
pub mod Handshaking
pub mod RoomUrl
pub mod Linked
