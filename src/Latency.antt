-- ===== src/Latency.antt =====
-- src/latency_handler.c: the latency of a request is the time between the messages of a pair.
pub mod Defs
pub mod Poll
pub mod Time
pub mod Pairs
pub mod Rounds
pub mod Log
pub mod Drain
pub mod Report
pub mod Turns
pub mod Decode
pub mod Samples
mod Tests
mod ReportTests
unfoldable pub use Defs.*
