-- ===== src/System.antt =====
-- The parts of the system together: a run from its request to its output, and what every sequence of
-- requests, ticks and worker steps keeps.
pub mod EndToEnd
pub mod Sound
pub mod Passes
pub mod Firings
pub mod Requests
pub mod Attempts
pub mod Notices
mod Codec
mod Tests
