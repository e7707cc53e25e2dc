-- ===== src/Rpc.antt =====
-- src/rpc.rs
pub mod Event
pub mod Client
pub mod Processor
pub mod Views
pub mod Calls
pub mod Answers
pub mod Running
pub mod Sending
mod Tests
