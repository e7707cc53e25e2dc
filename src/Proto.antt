-- ===== src/Proto.antt =====
-- src/lib.rs: the protocol's constants, errors, operations, QoS levels and frames.
mod Errors
mod Op
mod Frame
mod Display
pub mod Codes
pub mod Sender
mod Tests
unfoldable pub use Errors.*
unfoldable pub use Op.*
unfoldable pub use Frame.*
