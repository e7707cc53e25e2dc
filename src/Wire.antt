-- ===== src/Wire.antt =====
-- The two ends of a connection together: what src/ipc.rs writes and src/broker.rs reads, and the
-- other way round.
pub mod Requests
pub mod Sends
pub mod Frames
pub mod Delivery
pub mod Streams
pub mod Acks
pub mod Progress
pub mod Handshake
pub mod Handled
pub mod Transit
pub mod Calls
mod Tests
