-- ===== src/Pipeline.antt =====
-- From the packets of the capture threads (src/packet.c, src/fix.c) over their rings (src/spsc_rb.c)
-- to the latencies (src/latency_handler.c): the components put together.
pub mod Published
pub mod Scheduled
pub mod Threads
pub mod Pair
pub mod Interleave
pub mod Blocks
pub mod Orders
pub mod Kept
pub mod Delivered
mod Samples
mod Tests
