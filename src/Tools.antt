-- ===== src/Tools.antt =====
-- src/tools
pub mod Pubsub
mod Tests
