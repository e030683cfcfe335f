-- ===== src/ThreadPool.antt =====
-- src/evloop/threadpool/mod.rs.
pub mod Task
pub mod Workers
pub mod Joint
pub mod Handles
pub mod Run
