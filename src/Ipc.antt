-- ===== src/Ipc.antt =====
-- src/ipc.rs: the client of a broker that is reached through a socket.
mod Defs
pub mod Send
pub mod Read
pub mod Chat
unfoldable pub use Defs.*
