-- ===== src/Store.antt =====
-- internal/store: the Postgres tables and the statements that the API, the scheduler and the
-- workers run on them.
pub mod Migrate
pub mod Models
pub mod Table
pub mod Jobs
pub mod Runs
pub mod Worker
pub mod Retry
pub mod Schedule
pub mod Logs
pub mod LogKeys
pub mod Phase
pub mod Rows
pub mod Batches
pub mod Evolve
pub mod Steps
pub mod History
pub mod Follows
pub mod Lifecycle
pub mod Histories
pub mod Keyed
pub mod Fencing
pub mod Claims
pub mod Exclusion
pub mod Returned
pub mod Recovery
mod Tests
pub mod Firing
