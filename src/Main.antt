-- ===== src/Main.antt =====
-- The commands cmd/worker and cmd/api: how each process starts, works and closes what it has opened.
pub mod Worker
pub mod Api
pub mod Closing
pub mod Outcomes
mod Tests
