-- ===== src/Worker.antt =====
-- internal/worker: claiming, executing and maintaining runs.
pub mod Backoff
pub mod RunLog
pub mod Env
pub mod Execute
pub mod Maintain
pub mod Announced
pub mod Handling
pub mod HandledRows
pub mod Recovers
pub mod Heartbeat
pub mod Pool
pub mod Settles
pub mod Fenced
pub mod Tests
