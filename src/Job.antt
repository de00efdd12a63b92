-- ===== src/Job.antt =====
-- internal/job/job.go: job types, their payloads, what an attempt does, and cron schedules.
pub mod Payload
pub mod Generate
pub mod Cron
pub mod Results
pub mod Logs
mod Tests
