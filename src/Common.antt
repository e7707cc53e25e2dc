-- ===== src/Common.antt =====
-- src/common.rs
pub mod Params
mod Tests
