-- ===== src/Ctl.antt =====
-- cmd/jobctl/main.go, the command-line client. Text is a list of bytes where the client takes it
-- apart, and the native text where it only passes it on.
pub mod Bytes
pub mod Status
pub mod Wire
pub mod Events
pub mod Follow
pub mod Transcripts
pub mod Client
pub mod Show
pub mod Create
pub mod Logs
pub mod Commands
pub mod Exit
mod Tests
