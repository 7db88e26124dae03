-- ===== src/Lock.antt =====
-- labs/26-distributed-lock
pub mod Redis
pub mod Fence
pub mod Schedule
mod Tests
