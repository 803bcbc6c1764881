-- ===== src/Ring.antt =====
-- src/spsc_rb.c: the single-producer single-consumer ring buffer between a capture thread and the
-- latency thread. `claim` and `publish` are the producer's, `poll` and `release` the consumer's.
pub mod Defs
pub mod Buffer
pub mod Bytes
pub mod Valid
pub mod Records
pub mod Produce
pub mod Consume
pub mod Interleave
pub mod Invariant
pub mod Preserve
pub mod Fifo
pub mod Start
pub mod Samples
mod Tests
unfoldable pub use Defs.*
