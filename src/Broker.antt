-- ===== src/Broker.antt =====
-- src/broker.rs
pub mod Request
pub mod Writer
pub mod Client
pub mod Maps
pub mod Db
pub mod Registry
pub mod Deliver
pub mod Access
pub mod Config
pub mod Local
pub mod Handler
pub mod Core
pub mod Fifo
pub mod Servers
pub mod Reader
pub mod Peer
pub mod Safety
pub mod Announce
pub mod System
pub mod Example
mod Tests
