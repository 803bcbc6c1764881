-- ===== src/Packet.antt =====
-- src/packet.c: the capture socket, the ring of blocks that is shared with the kernel, and packets.
pub mod Defs
pub mod Socket
pub mod Setup
pub mod Total
pub mod Poll
pub mod Blocks
pub mod Order
pub mod Drain
pub mod Captured
pub mod Thread
pub mod Round
pub mod Samples
mod Tests
mod RingTests
mod CaptureTests
