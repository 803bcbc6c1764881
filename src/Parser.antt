-- ===== src/Parser.antt =====
-- src/fixparser.c: `vmars_fix_parse_msg`, with the callbacks of its caller as functions on the
-- caller's context.
pub mod Constants
pub mod Defs
pub mod Checksum
pub mod Sound
pub mod Encode
pub mod Number
pub mod Framing
pub mod FieldLoop
pub mod RoundTrip
pub mod Cut
pub mod Damaged
mod Tests
unfoldable pub use Defs.*
