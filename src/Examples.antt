-- ===== src/Examples.antt =====
-- The theorems at concrete inputs, and runs of the code.
mod Wire
mod Rooms
mod Queues
mod Sessions
mod Servers
mod Helpers
mod Frames
mod Sound
mod Networks
mod Sending
mod Protocols
mod Pictures
mod Inputs
