-- ===== src/Fix.antt =====
-- src/fix.c: from the bytes of a packet to FIX messages, counters and summaries.
pub mod Details
pub mod Process
pub mod Fragments
pub mod Extract
pub mod Loop
pub mod Messages
pub mod Next
pub mod Items
pub mod Whole
pub mod Damaged
pub mod Stored
pub mod Split
pub mod Joined
pub mod Middle
pub mod Parts
pub mod Packets
pub mod Found
mod PacketTests
pub mod Bytes
pub mod Counted
pub mod Send
pub mod Keys
pub mod Samples
mod Tests
